-- ===== src/Assemble/Reads.antt =====
-- What `readPacket` and `readPacketRecvFrom` make of a datagram of the message.
use ersap_ejfat.Base.{
  ℕ, suc, ◌+◌, ◌-◌, ◌≤◌, ◌≡◌, refl, sym, ap, subst, ◌∙◌, Bool, true, false, List, [], ◌∷◌, ◌++◌,
  zero, length-take-le, append-nil, append_assoc, some, ltb, ◌==◌, Bool-cases, inl, inr, length,
  take, drop, get_elem?, get_elem?-lt, length-append, take-append, drop-append, take_add, negsuc,
  arith,
}
use ersap_ejfat.Base.Memory.{
  Run, ok, ◌>>=◌, write_fits, Run-cases, write, slice, slice_fits, slice_outside, slice-eq-ok,
  length-write,
}
use ersap_ejfat.Wire.{ReHeader, set_re_metadata, parse_re_header}
use ersap_ejfat.Wire.RoundTrip.{parse_re_header-set_re_metadata, length-set_re_metadata}
use ersap_ejfat.Packetize.{Settings}
use ersap_ejfat.Assemble.{
  packet_bytes, copy_packet, Received, received, Read, failed, packet, data_count, read_packet,
  read_packet_recv_from, read_by, msg_trunc,
}
use ersap_ejfat.Assemble.Message.{
  Fits, re_packet, re_header, Genuine, lost, arrived, Filled, write-Filled, ReadsChunk,
}

-- What is left of each reader once its copies have been made.
read_whole :
    (mem : List ℕ) (at len : ℕ) (bytes after : List ℕ) (flags : ℕ) {written mem' : List ℕ}
    {rd : Read}
    → write mem at (drop 16 bytes) ≡ ok written
    → read_packet mem at len (received bytes after flags) ≡ ok (mem', rd)
    → (flags == msg_trunc) ≡ false
    → ◌≡◌ {A = Run (List ℕ × Read)}
        (ok (written, data_count (parse_re_header (take 16 (bytes ++ after))) (length bytes)))
        (ok (mem', rd))
unfolding read_packet
read_whole mem at len bytes after flags w e whole = ground arith

copied :
    (mem : List ℕ) (at len n : ℕ) (pkt : List ℕ) {copied written mem' : List ℕ} {rd : Read}
    → slice pkt 16 n ≡ ok copied
    → write mem at copied ≡ ok written
    → copy_packet mem at len pkt n ≡ ok (mem', rd)
    → ltb len n ≡ false
    → ◌≡◌ {A = Run (List ℕ × Read)}
        (ok (written, data_count (parse_re_header pkt) n))
        (ok (mem', rd))
unfolding copy_packet
copied mem at len n pkt s w e big = ground arith

-- The array holds the datagram and what stood behind it, if the datagram is not longer.
array_holds :
    (bytes after : List ℕ) (n : ℕ)
    → length bytes ≤ n
    → take n (bytes ++ after) ≡ bytes ++ take (n - length bytes) after
array_holds [] after n h = let e : n - 0 ≡ n = omega arith in rw e refl
array_holds (b ∷ bytes) after zero h = absurd (omega arith)
array_holds (b ∷ bytes) after (suc n) h =
    let e : suc n - suc (length bytes) ≡ n - length bytes = omega arith in
    rw e (ap (◌∷◌ b) (array_holds bytes after n (omega arith)))

-- A datagram that does not fit in the array is not copied: the copy would read past the end.
copy_packet_large :
    (mem : List ℕ) (at len : ℕ) (block mem' : List ℕ) (rd : Read)
    → copy_packet mem at len (take packet_bytes block) packet_bytes ≡ ok (mem', rd)
    → failed (negsuc 2) ≡ rd
unfolding copy_packet
copy_packet_large mem at len block mem' rd e = elim (Bool-cases (ltb len packet_bytes)) [
  | inl small ↦ ground (arith, small)
  | inr big ↦
      let outside =
        slice_outside (take packet_bytes block) 16 packet_bytes
          (omega (arith, length-take-le packet_bytes block)) in
      absurd (ground (arith, big, outside))
]

module _ {c : Settings} {xs : List (List ℕ)} (f : Fits c xs) where
  pub parse_re_packet :
      (i : ℕ) (chunk rest : List ℕ)
      → get_elem? xs i ≡ some chunk
      → parse_re_header (re_packet c (length xs) i chunk ++ rest) ≡ re_header c (length xs) i
  parse_re_packet i chunk rest g =
      ap parse_re_header
        (append_assoc (set_re_metadata _ _ c.tick i c.version c.data_id) chunk rest)
      ∙ parse_re_header-set_re_metadata (i == 0) (suc i == length xs) c.tick i c.version c.data_id
          (chunk ++ rest) f.tick_fits (omega (arith, get_elem?-lt xs i g, f.count_fits))
          f.data_id_fits

  pub length-re_packet :
      (i : ℕ) (chunk : List ℕ) → length (re_packet c (length xs) i chunk) ≡ 16 + length chunk
  length-re_packet i chunk = omega (
    arith,
    length-append {0} (set_re_metadata (i == 0) (suc i == length xs) c.tick i c.version c.data_id)
        chunk,
    length-set_re_metadata (i == 0) (suc i == length xs) c.tick i c.version c.data_id,
  )

  parse_taken :
      (i : ℕ) (chunk after : List ℕ)
      → get_elem? xs i ≡ some chunk
      → parse_re_header (take 16 (re_packet c (length xs) i chunk ++ after))
        ≡ re_header c (length xs) i
  parse_taken i chunk after g =
      ap parse_re_header (
        ap (take 16) (append_assoc (set_re_metadata _ _ c.tick i c.version c.data_id) chunk after)
        ∙ take-append (set_re_metadata _ _ c.tick i c.version c.data_id) (chunk ++ after) 16 (
            sym (length-set_re_metadata (i == 0) (suc i == length xs) c.tick i c.version c.data_id))
        ∙ sym (append-nil (set_re_metadata _ _ c.tick i c.version c.data_id)))
      ∙ parse_re_header-set_re_metadata (i == 0) (suc i == length xs) c.tick i c.version c.data_id
          [] f.tick_fits (omega (arith, get_elem?-lt xs i g, f.count_fits)) f.data_id_fits

  data_count-re_packet :
      (i : ℕ) (chunk : List ℕ)
      → data_count (re_header c (length xs) i) (length (re_packet c (length xs) i chunk))
        ≡ packet (re_header c (length xs) i) (length chunk)
  data_count-re_packet i chunk = rw (length-re_packet i chunk) (ground arith)

  -- The array from position 16 on begins with the chunk.
  copied_chunk :
      (i : ℕ) (chunk after : List ℕ) (n : ℕ)
      → length chunk ≤ n
      → take n (drop 16 (re_packet c (length xs) i chunk ++ after))
        ≡ chunk ++ take (n - length chunk) after
  copied_chunk i chunk after n h =
      ap (take n) (
        ap (drop 16) (append_assoc header chunk after)
        ∙ drop-append header (chunk ++ after) 16 (
            sym
              (length-set_re_metadata (i == 0) (suc i == length xs) c.tick i c.version c.data_id)))
      ∙ ap (λ k. take k (chunk ++ after)) split
      ∙ take_add (length chunk) (n - length chunk) (chunk ++ after)
      ∙ rw
          (take-append chunk after (length chunk) refl, drop-append chunk after (length chunk) refl)
    where
      header : List ℕ
      header = set_re_metadata (i == 0) (suc i == length xs) c.tick i c.version c.data_id

      split : n ≡ length chunk + (n - length chunk)
      split = omega arith

  -- The bytes behind the header are the chunk.
  pub chunk_cut :
      (i : ℕ) (chunk after : List ℕ)
      → get_elem? xs i ≡ some chunk
      → slice (re_packet c (length xs) i chunk ++ after) 16 (length chunk) ≡ ok chunk
  chunk_cut i chunk after g =
      let none_left : length chunk - length chunk ≡ 0 = omega arith in
      slice_fits (re_packet c (length xs) i chunk ++ after) 16 (length chunk) (
        omega (
          arith,
          length-re_packet i chunk,
          length-append {0} (re_packet c (length xs) i chunk) after,
        ))
      ∙ ap ok (
          copied_chunk i chunk after (length chunk) (omega arith)
          ∙ ap (λ m. chunk ++ take m after) none_left
          ∙ append-nil chunk)

  pub chunk_data : (i : ℕ) (chunk : List ℕ) → drop 16 (re_packet c (length xs) i chunk) ≡ chunk
  chunk_data i chunk =
      drop-append (set_re_metadata _ _ c.tick i c.version c.data_id) chunk 16
        (sym (length-set_re_metadata (i == 0) (suc i == length xs) c.tick i c.version c.data_id))

  error_read :
      (mem mem' : List ℕ) (at k : ℕ) {rd : Read}
      → failed (negsuc k) ≡ rd
      → ReadsChunk c xs mem mem' at rd
  error_read mem mem' at k e = subst (ReadsChunk c xs mem mem' at) e (k, refl)

  -- The header and the chunk, once the block is written.
  chunk_read :
      (mem : List ℕ) (at i : ℕ) (chunk more : List ℕ) (h : ReHeader) {written mem' : List ℕ}
      {rd : Read}
      → get_elem? xs i ≡ some chunk
      → write mem at (chunk ++ more) ≡ ok written
      → ◌≡◌ {A = Run (List ℕ × Read)}
          (ok (written, data_count h (length (re_packet c (length xs) i chunk))))
          (ok (mem', rd))
      → h ≡ re_header c (length xs) i
      → ReadsChunk c xs mem mem' at rd
  chunk_read mem at i chunk more h {written} {mem'} {rd} g w e hd =
      let same : written ≡ mem' = cc in
      let counted : data_count h (length (re_packet c (length xs) i chunk)) ≡ rd = cc in
      let head : packet (re_header c (length xs) i) (length chunk) ≡ rd =
        sym (data_count-re_packet i chunk)
        ∙ ap (λ k. data_count k (length (re_packet c (length xs) i chunk))) (sym hd)
        ∙ counted in
      subst (ReadsChunk c xs mem mem' at) head (
        i,
        chunk,
        g,
        refl,
        refl,
        subst (λ m. Filled mem m at chunk) same (write-Filled mem at chunk more w),
      )

  read_packet-ReadsChunk :
      (mem : List ℕ) (at len : ℕ) (r : Received) {mem' : List ℕ} {rd : Read}
      → Genuine c xs r
      → read_packet mem at len r ≡ ok (mem', rd)
      → ReadsChunk c xs mem mem' at rd
  unfolding read_packet
  read_packet-ReadsChunk mem at len _ {mem'} {rd} lost e = error_read mem mem' at 0 (ground arith)
  read_packet-ReadsChunk mem at len _ {mem'} {rd} (arrived i chunk after flags g) e =
      elim (Run-cases (write mem at (drop 16 (re_packet c (length xs) i chunk)))) [
        | inr (_, w) ↦ absurd (ground arith)
        | inl (written, w) ↦ elim (Bool-cases (flags == msg_trunc)) [
          | inl cut ↦ error_read mem mem' at 1 (ground arith)
          | inr whole ↦
              chunk_read mem at i chunk []
                (parse_re_header (take 16 (re_packet c (length xs) i chunk ++ after))) g
                (rw (chunk_data i chunk ∙ sym (append-nil chunk)) at w)
                (read_whole mem at len (re_packet c (length xs) i chunk) after flags w e whole)
                (parse_taken i chunk after g)
        ]
      ]

  copy_packet-ReadsChunk :
      (mem : List ℕ) (at len i : ℕ) (chunk after : List ℕ) {mem' : List ℕ} {rd : Read}
      → get_elem? xs i ≡ some chunk
      → copy_packet mem at len
          (re_packet c (length xs) i chunk ++ after)
          (length (re_packet c (length xs) i chunk))
        ≡ ok (mem', rd)
      → ReadsChunk c xs mem mem' at rd
  unfolding copy_packet
  copy_packet-ReadsChunk mem at len i chunk after {mem'} {rd} g e =
      elim (Bool-cases (ltb len (length (re_packet c (length xs) i chunk)))) [
        | inl small ↦ error_read mem mem' at 2 (ground arith)
        | inr big ↦
            let bytes = re_packet c (length xs) i chunk in
            elim (Run-cases (slice (bytes ++ after) 16 (length bytes))) [
              | inr (_, s) ↦ absurd (ground arith)
              | inl (part, s) ↦ elim (Run-cases (write mem at part)) [
                | inr (_, w) ↦ absurd (ground arith)
                | inl (written, w) ↦
                    let whole =
                      copied_chunk i chunk after (length bytes)
                        (omega (arith, length-re_packet i chunk)) in
                    chunk_read mem at i chunk _ (parse_re_header (bytes ++ after)) g
                      (rw ((slice-eq-ok _ _ _ s).1 ∙ whole) at w)
                      (copied mem at len (length bytes) (bytes ++ after) s w e big)
                      (parse_re_packet i chunk after g)
              ]
            ]
      ]

  read_packet_recv_from-ReadsChunk :
      (mem : List ℕ) (at len : ℕ) (r : Received) {mem' : List ℕ} {rd : Read}
      → Genuine c xs r
      → read_packet_recv_from mem at len r ≡ ok (mem', rd)
      → ReadsChunk c xs mem mem' at rd
  unfolding read_packet_recv_from
  read_packet_recv_from-ReadsChunk mem at len _ {mem'} {rd} lost e =
      error_read mem mem' at 0 (ground arith)
  read_packet_recv_from-ReadsChunk mem at len _ {mem'} {rd} (arrived i chunk after flags g) e =
      let bytes = re_packet c (length xs) i chunk in
      elim (Bool-cases (ltb packet_bytes (length bytes))) [
        | inl large ↦
            error_read mem mem' at 2
              (copy_packet_large mem at len (bytes ++ after) mem' rd (rw large at e))
        | inr fits ↦
            let le : length bytes ≤ packet_bytes = ground (arith, fits) in
            copy_packet-ReadsChunk mem at len i chunk (take (packet_bytes - length bytes) after) g
              (rw (fits, array_holds bytes after packet_bytes le) at e)
      ]

  -- Both readers, on any genuine datagram.
  pub read_by-ReadsChunk :
      (use_recv_from : Bool) (mem : List ℕ) (at len : ℕ) (r : Received) {mem' : List ℕ} {rd : Read}
      → Genuine c xs r
      → read_by use_recv_from mem at len r ≡ ok (mem', rd)
      → ReadsChunk c xs mem mem' at rd
  read_by-ReadsChunk true = read_packet_recv_from-ReadsChunk
  read_by-ReadsChunk false = read_packet-ReadsChunk

  -- `recvmsg` gives a datagram that fits, and no flag is set.
  pub read_packet_writes :
      (mem : List ℕ) (at len i : ℕ) (chunk : List ℕ)
      → get_elem? xs i ≡ some chunk
      → at + length chunk ≤ length mem
      → read_packet mem at len (received (re_packet c (length xs) i chunk) [] 0)
        ≡ ok (
          take at mem ++ (chunk ++ drop (at + length chunk) mem),
          packet (re_header c (length xs) i) (length chunk),
        )
  unfolding read_packet
  read_packet_writes mem at len i chunk g h =
      let bytes = re_packet c (length xs) i chunk in
      let mem' = take at mem ++ (chunk ++ drop (at + length chunk) mem) in
      let w : write mem at (drop 16 bytes) ≡ ok mem' =
        ap (write mem at) (chunk_data i chunk) ∙ write_fits mem at chunk h in
      ap
        (λ (q : Run (List ℕ)).
          q >>= λ b. ok (b, data_count (parse_re_header (take 16 (bytes ++ []))) (length bytes)))
        w
      ∙ ap (λ k. ok (mem', data_count k (length bytes))) (parse_taken i chunk [] g)
      ∙ ap (λ r. ok (mem', r)) (data_count-re_packet i chunk)

  pub read_packet_reads :
      (mem : List ℕ) (at len i : ℕ) (chunk : List ℕ)
      → get_elem? xs i ≡ some chunk
      → at + length chunk ≤ length mem
      → (mem' : List ℕ) × (read_packet mem at len (received (re_packet c (length xs) i chunk) [] 0)
          ≡ ok (mem', packet (re_header c (length xs) i) (length chunk)))
        × (length mem' ≡ length mem)
  read_packet_reads mem at len i chunk g h =
      (_, read_packet_writes mem at len i chunk g h, length-write mem at chunk h)
