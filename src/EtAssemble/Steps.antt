-- ===== src/EtAssemble/Steps.antt =====
-- `step` of `getBuffers` on every packet of the messages.
use ersap_ejfat.Base.{
  ℕ, negsuc, ◌^◌, ◌<◌, ◌≤◌, ◌≡◌, refl, sym, true, Bool-cases, inl, inr, Option, none, some, List,
  ◌++◌, ◌==◌, ==_iff, length, get_elem?, arith,
}
use ersap_ejfat.Base.Memory.{Run, ok, slice}
use ersap_ejfat.Wire.{ReHeader, header_bytes}
use ersap_ejfat.Packetize.{Settings}
use ersap_ejfat.Assemble.{received}
use ersap_ejfat.Assemble.Message.{Fits, re_packet, re_header}
use ersap_ejfat.Assemble.Reads.{parse_re_packet, length-re_packet, chunk_cut}
use ersap_ejfat.EtAssemble.Maps.{Entry, Tables}
use ersap_ejfat.EtAssemble.Invariant.{Inv}
use ersap_ejfat.EtAssemble.Inner.{Freed, Step, returns, throws, no_room}
use ersap_ejfat.EtAssemble.{Event, first_of_tick, place, data_size, step}
use ersap_ejfat.EtAssemble.Drains.{ReadAs, Ends}
use ersap_ejfat.EtAssemble.Packets.{Empty, Arrives, lost, arrived, check_first-Ends}
use ersap_ejfat.EtAssemble.Opened.{opened, Inv-opened}

module _ (buf_size : ℕ) (xs : ℕ → ℕ → List (List ℕ)) (Src : ℕ → ℕ → Type 0)
    (large : buf_size < 2 ^ 63) (room_for_one : 9984 ≤ buf_size) (ids : List ℕ) (U : Type 0)
    (freed : Freed) (honest : (bytes : List ℕ) → ReadAs U (freed bytes) bytes) where
  abbrev EndsStep : Run Step → Type 0
  EndsStep m = Ends buf_size xs Src large ids U freed honest m

  module _ (c : Settings) (k : ℕ) (chunk packet : List ℕ) (f : Fits c (xs c.tick c.data_id))
      (src : Src c.tick c.data_id) (g : get_elem? (xs c.tick c.data_id) k ≡ some chunk)
      (small : length chunk ≤ 9984)
      (cut : slice packet header_bytes (length chunk) ≡ ok chunk) where
    abbrev header : ReHeader
    header = re_header c (length (xs c.tick c.data_id)) k

    first_of_tick-Ends :
        (s : Tables) (e : Event) (fresh : Option Entry)
        → Inv buf_size xs Src s
        → s.buffers c.tick ≡ none
        → Empty buf_size fresh
        → EndsStep (first_of_tick freed buf_size ids s e header (length chunk) packet fresh)
    unfolding first_of_tick
    first_of_tick-Ends s e none v none_yet new = inr (throws, refl, tt)
    first_of_tick-Ends s e (some entry) v none_yet new = elim (Bool-cases e.has_buf) [
      | inr lacks ↦ rw lacks (inr (throws, refl, tt))
      | inl has ↦ rw has (
          check_first-Ends buf_size xs Src large ids U freed honest c k chunk packet f src g small
            cut (opened buf_size xs Src c k chunk g s entry) entry 0 0
            (Inv-opened buf_size xs Src c k chunk g s entry v none_yet (new entry refl))
            (record {
              buffer_is = rw (same c.tick) refl;
              expected_is = rw (same c.tick, same c.data_id) refl;
              total_is = sym (new entry refl c.data_id).0;
            })
            (omega (arith, small, room_for_one)))
    ]
      where
        same : (n : ℕ) → (n == n) ≡ true
        same n = (==_iff n n).1 refl

    place-Ends :
        (s : Tables) (e : Event) (there : Option Entry)
        → Inv buf_size xs Src s
        → s.buffers c.tick ≡ there
        → Empty buf_size e.fresh
        → EndsStep (place freed buf_size ids s e header (length chunk) packet there)
    unfolding place
    place-Ends s e none v q new = first_of_tick-Ends s e e.fresh v q new
    place-Ends s e (some entry) v q new = elim (Bool-cases e.has_buf) [
      | inr lacks ↦ rw lacks (inr (throws, refl, tt))
      | inl has ↦
          rw has (elim (Bool-cases (no_room buf_size (entry c.data_id).written (length chunk))) [
            | inl full ↦ rw full (inr (throws, refl, tt))
            | inr room ↦
                let inside = v.content c.tick entry q c.data_id in
                rw room (
                  check_first-Ends buf_size xs Src large ids U freed honest c k chunk packet f src g
                    small cut s entry (s.exp_sequence c.tick c.data_id) (entry c.data_id).written v
                    (record { buffer_is = q; expected_is = refl; total_is = refl })
                    (ground (arith, room, small, inside.inside, inside.sized, large)))
          ])
    ]

  pub step-Ends :
      (s : Tables) (e : Event)
      → Inv buf_size xs Src s
      → Arrives buf_size xs Src e
      → EndsStep (step freed buf_size ids s e)
  unfolding step
  step-Ends s _ v (lost fresh has_buf) = inr (returns (negsuc 0), refl, tt)
  step-Ends s _ v (arrived c k chunk after flags fresh has_buf f src g small new) =
      let n = length (xs c.tick c.data_id) in
      let bytes = re_packet c n k chunk in
      let sized : data_size (length bytes) ≡ length chunk =
        omega (arith, length-re_packet f k chunk, small) in
      let cut = chunk_cut f k chunk after g in
      rw (parse_re_packet f k chunk after g, sized)
        (place-Ends c k chunk (bytes ++ after) f src g small cut s
          (record { datagram = received bytes after flags; fresh = fresh; has_buf = has_buf })
          (s.buffers c.tick) v refl new)
