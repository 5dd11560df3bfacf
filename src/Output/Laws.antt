-- ===== src/Output/Laws.antt =====
-- What is printed, and what a file holds after `writeBuffer`.
use ersap_ejfat.Base.{
  ℕ, zero, suc, ◌+◌, ◌%◌, ◌^◌, ◌<◌, ◌≤◌, ◌==◌, ==_iff, ◌≡◌, refl, sym, ap, subst, ◌∙◌, true, false,
  Bool-cases, inl, inr, Option, none, some, List, [], ◌∷◌, ◌++◌, append-nil, get_elem?, length,
  take, drop, take_all, drop_all, length-take, length-append, if◌then◌else◌, arith,
}
use ersap_ejfat.Base.Memory.{Run, ok, fault, overread, ◌>>=◌, slice, slice_fits}
use ersap_ejfat.Output.{
  Printed, nothing_to_print, hex, ending, with_label, heading, print_loop, print_bytes, File, fread,
  print_file_loop, print_file_bytes, returns_zero, exits, fwrite, write_loop, write_buffer,
}

-- The bytes that were printed, in their order.
abbrev pub bytes_of : List Printed → List ℕ
bytes_of [] = []
bytes_of (hex b ∷ out) = let rest = bytes_of out in b ∷ rest
bytes_of (_ ∷ out) = bytes_of out

bytes_of-heading :
    (size half i : ℕ) (out : List Printed) → bytes_of (heading size half i ++ out) ≡ bytes_of out
unfolding heading
bytes_of-heading size half i out = elim (Bool-cases (i % size == 0)) [
  | inl at_line ↦ rw at_line refl
  | inr inside ↦ elim (Bool-cases (i % half == 0)) [
    | inl middle ↦ rw (inside, middle) refl
    | inr other ↦ rw (inside, other) refl
  ]
]

bytes_of-with_label :
    (text : Option (List ℕ)) (out : List Printed) → bytes_of (with_label text out) ≡ bytes_of out
bytes_of-with_label none out = refl
bytes_of-with_label (some t) out = refl

-- The byte at a position, and the rest behind it.
drop-elem :
    (c : List ℕ) (j : ℕ)
    → j < length c
    → (b : ℕ) × (get_elem? c j ≡ some b) × (drop j c ≡ b ∷ drop (suc j) c)
drop-elem [] j h = absurd (omega arith)
drop-elem (b ∷ c) zero h = (b, refl, refl)
drop-elem (b ∷ c) (suc j) h = drop-elem c j (omega arith)

fread-elem :
    (byte b : ℕ) (fp : File)
    → get_elem? fp.content fp.position ≡ some b
    → fread byte fp ≡ (b, record fp { position = suc fp.position })
unfolding fread
fread-elem byte b fp there =
    ap
      (λ (o : Option ℕ). elim o [
        | none ↦ (byte, fp)
        | some b ↦ (b, record fp { position = suc fp.position })
      ])
      there

-- What a turn of the loop gives, with what `fread` gives.
print_file_loop_turn :
    (byte i n : ℕ) (fp : File) (r : ℕ × File)
    → fread byte fp ≡ r
    → print_file_loop byte i (suc n) fp ≡ (
      heading 10 5 i ++ (hex r.0 ∷ (print_file_loop r.0 (suc i) n r.1).0),
      (print_file_loop r.0 (suc i) n r.1).1,
    )
unfolding print_file_loop
print_file_loop_turn byte i n fp r e =
    ap
      (λ (r : ℕ × File). (
        heading 10 5 i ++ (hex r.0 ∷ (print_file_loop r.0 (suc i) n r.1).0),
        (print_file_loop r.0 (suc i) n r.1).1,
      ))
      e

abbrev Prints : ℕ → File → List Printed × File → Type 0
Prints n fp r = (bytes_of r.0 ≡ take n (drop fp.position fp.content)) × (r.1.content ≡ fp.content)

-- From a position on, the bytes there are printed, and the content stays.
print_file_loop-Prints :
    (byte i n : ℕ) (fp : File)
    → fp.position + n ≤ length fp.content
    → Prints n fp (print_file_loop byte i n fp)
unfolding print_file_loop
print_file_loop-Prints byte i zero fp few = (refl, refl)
print_file_loop-Prints byte i (suc n) fp few =
    let (b, there, rest) = drop-elem fp.content fp.position (omega (arith, few)) in
    let (printed, kept) =
      print_file_loop-Prints b (suc i) n (record fp { position = suc fp.position })
        (omega (arith, few)) in
    subst (Prints (suc n) fp)
      (sym (print_file_loop_turn byte i n fp _ (fread-elem byte b fp there)))
      (bytes_of-heading 10 5 i _ ∙ ap (◌∷◌ b) printed ∙ sym (ap (take (suc n)) rest), kept)

abbrev pub PrintsOk : List ℕ → Run (List Printed) → Type 0
PrintsOk bytes m = (out : List Printed) × (m ≡ ok out) × (bytes_of out ≡ bytes)

print_loop-PrintsOk :
    (block : List ℕ) (i n : ℕ)
    → i + n ≤ length block
    → PrintsOk (take n (drop i block)) (print_loop block i n)
unfolding print_loop
print_loop-PrintsOk block i zero few = (ending ∷ [], refl, refl)
print_loop-PrintsOk block i (suc n) few =
    let (b, there, rest) = drop-elem block i (omega (arith, few)) in
    let (out, ran, printed) = print_loop-PrintsOk block (suc i) n (omega (arith, few)) in
    (
      heading 8 4 i ++ (hex b ∷ out),
      ap
            (λ (o : Option ℕ). elim o [
              | none ↦ fault overread
              | some b ↦ print_loop block (suc i) n >>= λ rest. ok (heading 8 4 i ++ (hex b ∷ rest))
            ])
            there
          ∙ ap (λ (m : Run (List Printed)). m >>= λ rest. ok (heading 8 4 i ++ (hex b ∷ rest))) ran,
      bytes_of-heading 8 4 i _ ∙ ap (◌∷◌ b) printed ∙ sym (ap (take (suc n)) rest),
    )

print_bytes-PrintsOk :
    (block : List ℕ) (n : ℕ) (text : Option (List ℕ))
    → n ≤ length block
    → PrintsOk (take n block) (print_bytes block n text)
unfolding print_bytes
print_bytes-PrintsOk block zero text few =
    (with_label text (nothing_to_print ∷ []), refl, bytes_of-with_label text _)
print_bytes-PrintsOk block (suc n) text few =
    let (out, ran, printed) = print_loop-PrintsOk block 0 (suc n) (omega (arith, few)) in
    (with_label text out, rw ran refl, bytes_of-with_label text out ∙ printed)

-- One call of `fwrite` is enough: it has written all bytes, or the program exits.
write_loop-once :
    (bytes : List ℕ) (n_bytes n : ℕ) (answers : List ℕ) (fp : File)
    → n_bytes < 2 ^ 64
    → write_loop bytes n_bytes 0 (n ∷ answers) fp
      ≡ (if n == n_bytes then returns_zero (fwrite bytes n fp) else exits (fwrite bytes n fp))
unfolding write_loop
write_loop-once bytes n_bytes n answers fp small = ground arith

-- What `fwrite` at the end of the file leaves there.
fwrite_at_end :
    (bytes : List ℕ) (fp : File)
    → fp.position ≡ length fp.content
    → (fwrite bytes (length bytes) fp).content ≡ fp.content ++ bytes
fwrite_at_end bytes fp at_end =
    let front : take fp.position fp.content ≡ fp.content =
      take_all fp.position fp.content (omega (arith, at_end)) in
    let behind : drop (fp.position + length bytes) fp.content ≡ [] =
      drop_all (fp.position + length bytes) fp.content (omega (arith, at_end)) in
    let all : take (length bytes) bytes ≡ bytes = take_all (length bytes) bytes (omega arith) in
    rw (front, behind, all) (ap (λ m. fp.content ++ m) (append-nil bytes))

print_file_bytes-all :
    (byte n : ℕ) (fp : File) (text : Option (List ℕ))
    → n ≤ length fp.content
    → let r = print_file_bytes byte fp n text in
      (bytes_of r.0 ≡ take n fp.content)
      × (r.1.content ≡ fp.content)
      × (r.1.position ≡ (if n == 0 then 0 else fp.position))
unfolding print_file_bytes
print_file_bytes-all byte zero fp text few = (bytes_of-with_label text _, refl, refl)
print_file_bytes-all byte (suc n) fp text few =
    let (printed, kept) =
      print_file_loop-Prints byte 0 (suc n) (record fp { position = 0 }) (omega (arith, few)) in
    let some_bytes : (suc n == 0) ≡ false = ground arith in
    (bytes_of-with_label text _ ∙ printed, kept, rw some_bytes refl)

-- Let a file be positioned at its end, and let the system write all bytes of the first `fwrite`. Then
-- `writeBuffer` of `n` bytes, which the buffer has, returns 0 after that one call, and the bytes stand
-- behind the content. `printFileBytes` of up to as many bytes as the file has then prints exactly its
-- first bytes and leaves the content; it puts the position back, unless it is asked for 0 bytes: then
-- the position is at the begin. `printBytes` of a block with that content prints the same bytes.
pub print_file_bytes-write_buffer :
    (data_buf answers : List ℕ) (n m byte : ℕ) (fp : File) (text : Option (List ℕ))
    → n < 2 ^ 64
    → n ≤ length data_buf
    → fp.position ≡ length fp.content
    → m ≤ length fp.content + n
    → (written : File) × (write_buffer data_buf n (n ∷ answers) fp ≡ ok (returns_zero written))
      × (written.content ≡ fp.content ++ take n data_buf)
      × (bytes_of (print_file_bytes byte written m text).0 ≡ take m (fp.content ++ take n data_buf))
      × ((print_file_bytes byte written m text).1.content ≡ written.content)
      × ((print_file_bytes byte written m text).1.position
          ≡ (if m == 0 then 0 else length fp.content + n))
      × PrintsOk
          (bytes_of (print_file_bytes byte written m text).0)
          (print_bytes written.content m text)
unfolding write_buffer
print_file_bytes-write_buffer data_buf answers n m byte fp text small few at_end asked =
    let bytes = take n data_buf in
    let sized : length bytes ≡ n = length-take n data_buf few in
    let read : slice data_buf 0 n ≡ ok bytes = slice_fits data_buf 0 n (omega (arith, few)) in
    let same : (n == n) ≡ true = (==_iff n n).1 refl in
    let once = write_loop-once bytes n n answers fp small in
    let content : (fwrite bytes n fp).content ≡ fp.content ++ bytes =
      subst (λ k. (fwrite bytes k fp).content ≡ fp.content ++ bytes) sized
        (fwrite_at_end bytes fp at_end) in
    let enough : m ≤ length (fwrite bytes n fp).content = omega (
      arith,
      asked,
      sized,
      ap (λ (c : List ℕ). length c) content,
      length-append {0} fp.content bytes,
    ) in
    let (printed, kept, back) = print_file_bytes-all byte m (fwrite bytes n fp) text enough in
    (
      fwrite bytes n fp,
      rw read (ap ok (once ∙ rw same refl)),
      content,
      printed ∙ ap (take m) content,
      kept,
      back ∙ ap (λ p. if m == 0 then 0 else p) (ap (λ p. p + n) at_end),
      subst (λ bs. PrintsOk bs (print_bytes (fwrite bytes n fp).content m text)) (sym printed)
          (print_bytes-PrintsOk (fwrite bytes n fp).content m text enough),
    )
