-- ===== src/Output.antt =====
-- `printBytes`, `printFileBytes` and `writeBuffer` of ejfat_assemble_ersap.hpp.
pub mod Laws
mod Tests
use ersap_ejfat.Base.{
  ℕ, zero, suc, ◌+◌, ◌%◌, ◌^◌, Option, none, some, List, [], ◌∷◌, ◌++◌, ◌==◌, leb, get_elem?,
  length, take, drop, if◌then◌else◌,
}
use ersap_ejfat.Base.Memory.{Run, ok, fault, overread, ◌>>=◌, slice}

-- The calls of `fprintf`: the label, the text for no bytes, the begin of a line with its first and last
-- number, the space in the middle of a line, a byte in hexadecimal digits, and the end.
pub data Printed : Type 0 where
  label : List ℕ → Printed
  nothing_to_print : Printed
  line : ℕ → ℕ → Printed
  space : Printed
  hex : ℕ → Printed
  ending : Printed

abbrev pub with_label : Option (List ℕ) → List Printed → List Printed
with_label none out = out
with_label (some text) out = label text ∷ out

-- In front of byte number `i`: lines of `size` bytes, and a space after `half` of them.
unfoldable pub heading : ℕ → ℕ → ℕ → List Printed
heading size half i =
    if i % size == 0
    then line ((i + 1) % 2 ^ 32) ((i + size) % 2 ^ 32) ∷ []
    else if i % half == 0
    then space ∷ []
    else []

-- The loop of `printBytes` from byte `i` on, `n` bytes.
unfoldable pub print_loop : List ℕ → ℕ → ℕ → Run (List Printed)
print_loop block i zero = ok (ending ∷ [])
print_loop block i (suc n) = elim (get_elem? block i) [
  | none ↦ fault overread
  | some b ↦ print_loop block (suc i) n >>= λ rest. ok (heading 8 4 i ++ (hex b ∷ rest))
]

-- `block` is the block behind the pointer.
unfoldable pub print_bytes : List ℕ → ℕ → Option (List ℕ) → Run (List Printed)
print_bytes block zero text = ok (with_label text (nothing_to_print ∷ []))
print_bytes block (suc n) text = print_loop block 0 (suc n) >>= λ out. ok (with_label text out)

-- A file that can be positioned.
pub record File : Type 0 where
  pub content : List ℕ
  pub position : ℕ

-- `fread(&byte, 1, 1, fp)`: at the end of the file the byte keeps its value.
unfoldable pub fread : ℕ → File → ℕ × File
fread byte fp = elim (get_elem? fp.content fp.position) [
  | none ↦ (byte, fp)
  | some b ↦ (b, record fp { position = suc fp.position })
]

-- The loop of `printFileBytes`.
unfoldable pub print_file_loop : ℕ → ℕ → ℕ → File → List Printed × File
print_file_loop byte i zero fp = (ending ∷ [], fp)
print_file_loop byte i (suc n) fp =
    let r = fread byte fp in
    let rest = print_file_loop r.0 (suc i) n r.1 in (heading 10 5 i ++ (hex r.0 ∷ rest.0), rest.1)

-- `byte` is the value that the variable has before it is set. The position is put back at the end only.
unfoldable pub print_file_bytes : ℕ → File → ℕ → Option (List ℕ) → List Printed × File
print_file_bytes byte fp zero text =
    (with_label text (nothing_to_print ∷ []), record fp { position = 0 })
print_file_bytes byte fp (suc n) text =
    let r = print_file_loop byte 0 (suc n) (record fp { position = 0 }) in
    (with_label text r.0, record r.1 { position = fp.position })

-- How `writeBuffer` ends: it returns 0, or the program exits; it waits if the system has not answered.
pub data Written : Type 0 where
  returns_zero : File → Written
  exits : File → Written
  waits : Written

-- `fwrite` of bytes of which `n` were written.
abbrev pub fwrite : List ℕ → ℕ → File → File
fwrite bytes n fp = record {
  content = take fp.position fp.content ++ (take n bytes ++ drop (fp.position + n) fp.content);
  position = fp.position + n;
}

-- The loop: the answers are what the calls of `fwrite` return, `total` is `totalWritten`.
unfoldable pub write_loop : List ℕ → ℕ → ℕ → List ℕ → File → Written
write_loop bytes n_bytes total [] fp = waits
write_loop bytes n_bytes total (n ∷ answers) fp =
    let rest = write_loop bytes n_bytes ((total + n) % 2 ^ 64) answers (fwrite bytes n fp) in
    if n == n_bytes
    then if leb n_bytes ((total + n) % 2 ^ 64) then returns_zero (fwrite bytes n fp) else rest
    else exits (fwrite bytes n fp)

unfoldable pub write_buffer : List ℕ → ℕ → List ℕ → File → Run Written
write_buffer data_buf n_bytes answers fp =
    slice data_buf 0 n_bytes >>= λ bytes. ok (write_loop bytes n_bytes 0 answers fp)
