-- ===== src/EtAssemble/Erased.antt =====
-- The stored packets of `getBuffers` are copied out of freed memory.
use ersap_ejfat.Base.{
  ℕ, zero, suc, ◌+◌, ◌^◌, ◌<◌, ◌≤◌, ◌≡◌, refl, ap, ◌∙◌, Bool, true, false, Option, some, List, [],
  ◌∷◌, ◌++◌, ◌==◌, ==_iff, length, get_elem?, arith,
}
use ersap_ejfat.Base.Memory.{Run, ok, fault, use_after_free, write_fits}
use ersap_ejfat.Packetize.{Settings}
use ersap_ejfat.Assemble.{received}
use ersap_ejfat.Assemble.Loop.{incr_32}
use ersap_ejfat.Assemble.Message.{Fits, re_packet}
use ersap_ejfat.Assemble.Reads.{parse_re_packet, length-re_packet, chunk_cut}
use ersap_ejfat.EtAssemble.Maps.{Entry, Held, Tables, take_held}
use ersap_ejfat.EtAssemble.Keys.{AllHeld, take_held-Found}
use ersap_ejfat.EtAssemble.Packets.{check_first_cases}
use ersap_ejfat.EtAssemble.Inner.{Freed, Place, drain, no_room, write_data, report, after_write}
use ersap_ejfat.EtAssemble.{by_order, place, data_size, step}

-- Undefined behaviour on every read of a freed block.
abbrev pub undefined : Freed
undefined bytes = fault use_after_free

drain-undefined :
    (buf_size : ℕ) (ids : List ℕ) (fuel : ℕ) (s : Tables) (p : Place) (last : Bool)
    → 0 < fuel
    → drain undefined buf_size ids fuel s p last (fault use_after_free) ≡ fault use_after_free
unfolding drain write_data
drain-undefined buf_size ids zero s p last h = absurd (omega arith)
drain-undefined buf_size ids (suc fuel) s p last h = refl

module _ (buf_size : ℕ) (ids : List ℕ) (large : buf_size < 2 ^ 63) (s : Tables) (p : Place)
    (r : Held × List Held) (bytes : List ℕ)
    (stored : take_held (incr_32 p.expected) p.data_id p.tick s.held ≡ some r)
    (sized : length (p.entry p.data_id).block ≡ buf_size)
    (room : p.total + (length bytes + length r.0.bytes) ≤ buf_size) where
  drain_erased :
      (last : Bool) (from : Run (List ℕ))
      → last ≡ false
      → from ≡ ok bytes
      → drain undefined buf_size ids (suc (length s.held)) s p last from ≡ fault use_after_free
  unfolding drain write_data report after_write take_held
  drain_erased last from not_last e =
      let fits = write_fits (p.entry p.data_id).block p.total bytes (omega (arith, room, sized)) in
      let some_held : 0 < length s.held = omega (
        arith,
        (take_held-Found (λ h. Unit {0}) (incr_32 p.expected) p.data_id p.tick s.held r
            (anything s.held) stored).smaller,
      ) in
      let has_room : no_room buf_size (p.total + length bytes) (length r.0.bytes) ≡ false =
        ground (arith, room, large) in
      rw (not_last, e, fits, stored, has_room)
        (drain-undefined buf_size ids (length s.held) _ _ _ some_held)
    where
      anything : (m : List Held) → AllHeld (λ h. Unit {0}) m
      anything [] = tt
      anything (h ∷ m) = (tt, anything m)

-- A stored packet is next in order behind chunk `k` of its message, `k` is expected, and the entry has
-- room for both. When the packet of chunk `k` comes, `getBuffers` copies the stored one out of its
-- vector after the vector was freed.
pub step_use_after_free :
    (buf_size : ℕ) (ids : List ℕ) (s : Tables) (c : Settings) (xs : List (List ℕ)) (k : ℕ)
    (chunk after : List ℕ) (flags : ℕ) (fresh : Option Entry) (entry : Entry) (r : Held × List Held)
    → Fits c xs
    → buf_size < 2 ^ 63
    → get_elem? xs k ≡ some chunk
    → suc k < length xs
    → s.buffers c.tick ≡ some entry
    → s.exp_sequence c.tick c.data_id ≡ k
    → take_held (suc k) c.data_id c.tick s.held ≡ some r
    → length (entry c.data_id).block ≡ buf_size
    → (entry c.data_id).written + (length chunk + length r.0.bytes) ≤ buf_size
    → step undefined buf_size ids s (record {
      datagram = received (re_packet c (length xs) k chunk) after flags;
      fresh = fresh;
      has_buf = true;
    })
      ≡ fault use_after_free
unfolding step place by_order
step_use_after_free buf_size ids s c xs k chunk after flags fresh entry r f large g more here
      expects stored sized room =
    let n = length xs in
    let bytes = re_packet c n k chunk in
    let counts : data_size (length bytes) ≡ length chunk =
      omega (arith, length-re_packet f k chunk, room, sized, large) in
    let cut = chunk_cut f k chunk after g in
    let fits : no_room buf_size (entry c.data_id).written (length chunk) ≡ false =
      ground (arith, room, large) in
    let same : (k == k) ≡ true = (==_iff k k).1 refl in
    let next_is : incr_32 k ≡ suc k = omega (arith, more, f.count_fits) in
    let not_last : (suc k == n) ≡ false = ground (arith, more) in
    let next_stored : take_held (incr_32 k) c.data_id c.tick s.held ≡ some r =
      ap (λ j. take_held j c.data_id c.tick s.held) next_is ∙ stored in
    let p : Place = record {
      tick = c.tick;
      data_id = c.data_id;
      entry = entry;
      expected = k;
      total = (entry c.data_id).written;
    } in
    rw (parse_re_packet f k chunk after g, counts, here, fits, expects)
      (check_first_cases undefined buf_size ids s p c n k (length chunk) (bytes ++ after)
        (λ m. m ≡ fault use_after_free)
        (rw same
          (drain_erased buf_size ids large s p r chunk next_stored sized room _ _ not_last cut))
        (rw same
          (drain_erased buf_size ids large _ p r chunk next_stored sized room _ _ not_last cut)))
