-- ===== src/Assemble/Fast/InPlace.antt =====
-- Reading in place puts the data where `readPacket` puts it, and counts the header too.
use ersap_ejfat.Base.{
  ℕ, suc, ◌+◌, ◌-◌, ◌≤◌, ◌≡◌, refl, sym, ap, ◌∙◌, false, List, [], ◌++◌, append_assoc, some, ltb,
  ◌==◌, length, take, take_all, drop, get_elem?, length-append, drop-append, take_add, drop_add,
  length-take, length-drop, arith,
}
use ersap_ejfat.Base.Memory.{
  ok, write, write_fits, slice, slice_fits, take-write_before, slice_write, length-write,
}
use ersap_ejfat.Wire.{set_re_metadata, parse_re_header}
use ersap_ejfat.Wire.RoundTrip.{length-set_re_metadata}
use ersap_ejfat.Packetize.{Settings}
use ersap_ejfat.Assemble.{received, packet, read_packet}
use ersap_ejfat.Assemble.Message.{Fits, re_packet, re_header}
use ersap_ejfat.Assemble.Reads.{parse_re_packet, length-re_packet, read_packet_writes}
use ersap_ejfat.Assemble.Fast.{read_at, read_in_place}

-- A header and a chunk are written, then the bytes under the header are put back: only the chunk is
-- new.
module _ (mem : List ℕ) (at : ℕ) (header chunk : List ℕ) (h : length header ≡ 16)
    (room : at + 16 + length chunk ≤ length mem) where
  abbrev over : List ℕ
  over = take at mem ++ ((header ++ chunk) ++ drop (at + length (header ++ chunk)) mem)

  abbrev saved : List ℕ
  saved = take 16 (drop at mem)

  length-over : length (header ++ chunk) ≡ 16 + length chunk
  length-over = omega (arith, h, length-append {0} header chunk)

  restored_is :
      take at over ++ (saved ++ drop (at + length saved) over)
      ≡ take (at + 16) mem ++ (chunk ++ drop (at + 16 + length chunk) mem)
  restored_is =
      ap (λ m. m ++ (saved ++ drop (at + length saved) over)) kept
      ∙ ap (λ m. take at mem ++ (saved ++ m)) behind
      ∙ sym (append_assoc (take at mem) saved (chunk ++ drop (at + 16 + length chunk) mem))
      ∙ ap (λ m. m ++ (chunk ++ drop (at + 16 + length chunk) mem)) (sym (take_add at 16 mem))
    where
      fits : at + length (header ++ chunk) ≤ length mem
      fits = omega (arith, length-over, room)

      kept : take at over ≡ take at mem
      kept = take-write_before mem at (header ++ chunk) fits

      sixteen : at + length saved ≡ at + 16
      sixteen =
          omega
            (arith, length-take {0} 16 (drop at mem) (omega (arith, room, length-drop {0} at mem)))

      behind : drop (at + length saved) over ≡ chunk ++ drop (at + 16 + length chunk) mem
      behind =
          ap (λ n. drop n over) sixteen
          ∙ drop_add at 16 over
          ∙ ap (drop 16) (
              slice_write mem at (header ++ chunk) fits
              ∙ append_assoc header chunk (drop (at + length (header ++ chunk)) mem))
          ∙ drop-append header _ 16 (sym h)
          ∙ ap (λ n. chunk ++ drop n mem) (omega (arith, length-over))

  restores :
      write over at saved ≡ ok (take (at + 16) mem ++ (chunk ++ drop (at + 16 + length chunk) mem))
  restores =
      write_fits over at saved (
        omega (
          arith,
          room,
          length-over,
          length-write mem at (header ++ chunk) (omega (arith, length-over, room)),
          length-take {0} 16 (drop at mem) (omega (arith, room, length-drop {0} at mem)),
        ))
      ∙ ap ok restored_is

-- Behind the first packet, with room for the datagram, `getPacketizedBufferFast` leaves in the buffer
-- what `readPacket` leaves there, the bytes under the header untouched; but its count of bytes is that
-- of `readPacket` and 16 more.
pub read_in_place-read_packet :
    {c : Settings} {xs : List (List ℕ)} (f : Fits c xs) (mem : List ℕ) (at remaining_len i : ℕ)
    (chunk after : List ℕ) (flags : ℕ)
    → get_elem? xs i ≡ some chunk
    → 16 ≤ at
    → at + length chunk ≤ length mem
    → 16 + length chunk ≤ remaining_len
    → (mem' : List ℕ) × (read_packet mem at remaining_len
          (received (re_packet c (length xs) i chunk) [] 0)
        ≡ ok (mem', packet (re_header c (length xs) i) (length chunk)))
      × (read_in_place mem at remaining_len (received (re_packet c (length xs) i chunk) after flags)
          ≡ ok (mem', packet (re_header c (length xs) i) (16 + length chunk)))
unfolding read_in_place read_at
read_in_place-read_packet {c} {xs} f mem at len i chunk after flags g far room enough =
    let bytes = re_packet c (length xs) i chunk in
    let header = set_re_metadata (i == 0) (suc i == length xs) c.tick i c.version c.data_id in
    let sized : length header ≡ 16 =
      length-set_re_metadata (i == 0) (suc i == length xs) c.tick i c.version c.data_id in
    let a = at - 16 in
    let back : a + 16 ≡ at = omega (arith, far) in
    let inside : a + 16 + length chunk ≤ length mem = omega (arith, back, room) in
    let saves : slice mem a 16 ≡ ok (saved mem a header chunk sized inside) =
      slice_fits mem a 16 (omega (arith, inside)) in
    let all : take len bytes ≡ bytes =
      take_all len bytes (omega (arith, enough, length-re_packet f i chunk)) in
    let fits : a + length bytes ≤ length mem = omega (arith, inside, length-re_packet f i chunk) in
    let writes : write mem a bytes ≡ ok (over mem a header chunk sized inside) =
      write_fits mem a bytes fits in
    let parsed =
      ap parse_re_header (slice_write mem a bytes fits)
      ∙ parse_re_packet f i chunk (drop (a + length bytes) mem) g in
    let puts_back = restores mem a header chunk sized inside in
    let far_enough : ltb at 16 ≡ false = ground (arith, far) in
    (
      _,
      read_packet_writes f mem at len i chunk g room,
      rw (far_enough, saves, all, writes, puts_back, parsed, length-re_packet f i chunk, back) refl,
    )
