-- ===== src/Assemble/GetBuffer/Errors.antt =====
-- What `getBuffer` makes of an error of `getPacketizedBuffer`.
use ersap_ejfat.Base.{ℕ, ◌<◌, ◌≡◌, refl, Bool, true, false, List, [], ◌∷◌, ltb, ◌==◌, length, arith}
use ersap_ejfat.Base.Memory.{ok, fault, double_free}
use ersap_ejfat.Wire.{ReHeader}
use ersap_ejfat.Assemble.{code, out_of_order, Event, packet, read_by}
use ersap_ejfat.Assemble.Store.{Store, free_map}
use ersap_ejfat.Assemble.Loop.{
  Shared, Locals, shared_after_error, error, free_and_return, put_aside, take_packet, with_header,
  round, loop, returned,
}
use ersap_ejfat.Assemble.GetBuffer.{Malloc, Growing, after_outcome}

-- Every block of the map is allocated.
abbrev pub AllLive : Store → Type 0
AllLive [] = Unit {0}
AllLive ((k, v) ∷ m) = (v.live ≡ true) × AllLive m

-- The same entries, their blocks freed.
abbrev pub all_freed : Store → Store
all_freed [] = []
all_freed ((k, v) ∷ m) = (k, record v { live = false }) ∷ all_freed m

free_map-AllLive : (m : Store) → AllLive m → free_map m ≡ ok (all_freed m)
unfolding free_map
free_map-AllLive [] h = refl
free_map-AllLive ((k, v) ∷ m) h = rw (h.0, free_map-AllLive m h.1) refl

free_map-all_freed : (m : Store) → 0 < length m → free_map (all_freed m) ≡ fault double_free
unfolding free_map
free_map-all_freed [] h = absurd (omega arith)
free_map-all_freed ((k, v) ∷ m) h = refl

take_packet_old :
    (v : Bool) (s : Locals) (h : ReHeader) (n : ℕ) (malloc_ok : Bool)
    → h.sequence < s.expected_sequence
    → AllLive s.stored
    → take_packet v s h n malloc_ok
      ≡ ok (error (code out_of_order) (record (with_header s h n) { stored = all_freed s.stored }))
unfolding take_packet put_aside free_and_return
take_packet_old v s h n malloc_ok old live =
    let other : (h.sequence == s.expected_sequence) ≡ false = ground (arith, old) in
    let less : ltb h.sequence s.expected_sequence ≡ true = ground (arith, old) in
    rw (other, less, free_map-AllLive s.stored live) refl

-- Let `getPacketizedBuffer` hold packets that came early, their blocks allocated, and read a packet
-- with a sequence number below the expected one. Then it returns OUT_OF_ORDER, with all blocks of the
-- map freed and still in it, and `getBuffer` frees the first one a second time.
pub loop_double_free :
    (u v : Bool) (io : Shared) (s : Locals) (e : Event) (es : List Event) (mem : List ℕ)
    (h : ReHeader) (n : ℕ) (malloc : Malloc) (g : Growing)
    → read_by u s.mem s.put_data_at s.remaining_len e.datagram ≡ ok (mem, packet h n)
    → h.sequence < s.expected_sequence
    → AllLive s.stored
    → 0 < length s.stored
    → (out : Shared) × (loop u v io s (e ∷ es) ≡ ok (returned (code out_of_order) out es))
      × (out.stored ≡ all_freed s.stored)
      × (after_outcome malloc g (returned (code out_of_order) out es) ≡ fault double_free)
unfolding loop round after_outcome
loop_double_free u v io s e es mem h n malloc g reads old live some_held =
    let t : Locals = record (with_header (record s { mem = mem }) h n) {
      stored = all_freed s.stored;
    } in
    let refused = take_packet_old v (record s { mem = mem }) h n e.malloc_ok old live in
    (
      shared_after_error io t,
      rw (reads, refused) refl,
      refl,
      rw (free_map-all_freed s.stored some_held) refl,
    )
