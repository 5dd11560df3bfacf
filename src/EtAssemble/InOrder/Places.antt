-- ===== src/EtAssemble/InOrder/Places.antt =====
-- A packet in order finds its place in `getBuffers`.
use ersap_ejfat.Base.{
  ℕ, zero, suc, ◌+◌, ◌^◌, ◌<◌, ◌≤◌, ◌≡◌, refl, sym, ap, ap₂, subst, ◌∙◌, true, false, ◌&&◌,
  Bool-cases, inl, inr, Option, none, some, List, [], ◌∷◌, ◌++◌, ◌==◌, ==_iff, length, take,
  get_elem?, get_elem?-lt, length-append, take-suc, flatten, flatten-concat, arith,
}
use ersap_ejfat.Base.Memory.{ok, slice}
use ersap_ejfat.Wire.{header_bytes}
use ersap_ejfat.Packetize.{Settings}
use ersap_ejfat.Assemble.{received}
use ersap_ejfat.Assemble.Message.{Fits, re_packet, re_header}
use ersap_ejfat.Assemble.Reads.{parse_re_packet, length-re_packet, chunk_cut}
use ersap_ejfat.EtAssemble.Maps.{Entry, Tables, set_at_2}
use ersap_ejfat.EtAssemble.Inner.{Freed, no_room}
use ersap_ejfat.EtAssemble.Invariant.{Inv}
use ersap_ejfat.EtAssemble.Packets.{Empty}
use ersap_ejfat.EtAssemble.{Event, first_of_tick, place, data_size, step}
use ersap_ejfat.EtAssemble.InOrder.{Reports, Advances, check_first-Advances, moves_on}

length-flatten-take :
    (k : ℕ) (xs : List (List ℕ)) → length (flatten (take k xs)) ≤ length (flatten xs)
length-flatten-take zero xs = omega arith
length-flatten-take (suc k) [] = omega arith
length-flatten-take (suc k) (x ∷ xs) = omega (
  arith,
  length-append {0} x (flatten (take k xs)),
  length-append {0} x (flatten xs),
  length-flatten-take k xs,
)

-- The first `k` chunks and the next one are no longer than the message.
next_fits :
    (xs : List (List ℕ)) (k : ℕ) (chunk : List ℕ)
    → get_elem? xs k ≡ some chunk
    → length (flatten (take k xs)) + length chunk ≤ length (flatten xs)
next_fits xs k chunk g = omega (
  arith,
  length-flatten-take (k + 1) xs,
  ap (λ (m : List ℕ). length m)
      (ap flatten (take-suc k xs chunk g) ∙ flatten-concat (take k xs) chunk),
  length-append {0} (flatten (take k xs)) chunk,
)

module _ (freed : Freed) (buf_size : ℕ) (xs : ℕ → ℕ → List (List ℕ)) (Src : ℕ → ℕ → Type 0)
    (large : buf_size < 2 ^ 63) (ids : List ℕ) (Q : Tables → Type 0)
    (D : (ℕ → ℕ → ℕ) → Type 0) where
  module _ (c : Settings) (k : ℕ) (chunk packet : List ℕ) (f : Fits c (xs c.tick c.data_id))
      (g : get_elem? (xs c.tick c.data_id) k ≡ some chunk)
      (cut : slice packet header_bytes (length chunk) ≡ ok chunk)
      (room : length (flatten (xs c.tick c.data_id)) ≤ buf_size) (numbers : ℕ → ℕ → ℕ) where
    small : suc k < 2 ^ 32
    small = omega (arith, get_elem?-lt (xs c.tick c.data_id) k g, f.count_fits)

    zero_first :
        (old : ℕ → ℕ → ℕ)
        → 0 ≡ numbers c.tick c.data_id
        → ((t i : ℕ) → old t i ≡ numbers t i)
        → (t i : ℕ) → set_at_2 old c.tick c.data_id 0 t i ≡ numbers t i
    zero_first old z n t i = elim (Bool-cases (c.tick == t && c.data_id == i)) [
      | inr other ↦ rw other (n t i)
      | inl same ↦
          let here : c.tick ≡ t = (==_iff _ _).0 (ground (arith, same)) in
          let own : c.data_id ≡ i = (==_iff _ _).0 (ground (arith, same)) in
          rw same (z ∙ ap₂ numbers here own)
    ]

    place-Advances :
        (s : Tables) (e : Event) (new : Entry) (there : Option Entry)
        → Inv buf_size xs Src s
        → s.held ≡ []
        → ((t i : ℕ) → s.exp_sequence t i ≡ numbers t i)
        → numbers c.tick c.data_id ≡ k
        → e.fresh ≡ some new
        → e.has_buf ≡ true
        → Empty buf_size (some new)
        → s.buffers c.tick ≡ there
        → Reports ids Q D
            (set_at_2 numbers c.tick c.data_id (k + 1))
            s.end_condition
            c.tick
            c.data_id
            (suc k == length (xs c.tick c.data_id))
        → Advances Q D (set_at_2 numbers c.tick c.data_id (k + 1)) (
            place freed buf_size ids s e
              (re_header c (length (xs c.tick c.data_id)) k)
              (length chunk)
              packet
              there)
    unfolding place first_of_tick
    place-Advances s e new none v nothing n at_k has_new has empty q h =
        let z : 0 ≡ k = sym (v.unused c.tick q c.data_id) ∙ (n c.tick c.data_id ∙ at_k) in
        let count = length (xs c.tick c.data_id) in
        let opened = set_at_2 s.exp_sequence c.tick c.data_id 0 in
        let same : (t i : ℕ) → opened t i ≡ numbers t i =
          λ t i. zero_first s.exp_sequence (z ∙ sym at_k) n t i in
        subst
          (λ j. Advances Q D (set_at_2 numbers c.tick c.data_id (j + 1)) (
            first_of_tick freed buf_size ids s e (re_header c count j) (length chunk) packet
              e.fresh))
          z
          (rw (has_new, has)
            (check_first-Advances freed buf_size ids Q D c count 0 chunk packet (omega arith) cut
              (set_at_2 numbers c.tick c.data_id (0 + 1)) _ new 0 nothing
              (omega (
                arith,
                (empty new refl c.data_id).1,
                next_fits (xs c.tick c.data_id) k chunk g,
                room,
              ))
              (moves_on freed buf_size ids Q D c count 0 chunk packet (omega arith) cut numbers
                opened same)
              (subst
                (λ j.
                  Reports ids Q D (set_at_2 numbers c.tick c.data_id (j + 1)) s.end_condition c.tick
                    c.data_id (suc j == count))
                (sym z) h)))
    place-Advances s e new (some entry) v nothing n at_k has_new has empty q h =
        let inside = v.content c.tick entry q c.data_id in
        let is_k : s.exp_sequence c.tick c.data_id ≡ k = n c.tick c.data_id ∙ at_k in
        let fits = next_fits (xs c.tick c.data_id) k chunk g in
        let written : (entry c.data_id).written ≡ length (flatten (take k (xs c.tick c.data_id))) =
          inside.counted ∙ ap (λ j. length (flatten (take j (xs c.tick c.data_id)))) is_k in
        let free : no_room buf_size (entry c.data_id).written (length chunk) ≡ false =
          ground (arith, written, fits, room, large) in
        rw (has, free, is_k)
          (check_first-Advances freed buf_size ids Q D c (length (xs c.tick c.data_id)) k chunk
            packet small cut (set_at_2 numbers c.tick c.data_id (k + 1)) s entry
            (entry c.data_id).written nothing (omega (arith, written, fits, room, inside.sized))
            (moves_on freed buf_size ids Q D c (length (xs c.tick c.data_id)) k chunk packet small
              cut numbers s.exp_sequence n)
            h)

  pub step-Advances :
      (s : Tables) (numbers : ℕ → ℕ → ℕ) (c : Settings) (chunk after : List ℕ) (flags : ℕ)
      (new : Entry)
      → Inv buf_size xs Src s
      → s.held ≡ []
      → ((t i : ℕ) → s.exp_sequence t i ≡ numbers t i)
      → Fits c (xs c.tick c.data_id)
      → get_elem? (xs c.tick c.data_id) (numbers c.tick c.data_id) ≡ some chunk
      → length chunk ≤ 9984
      → Empty buf_size (some new)
      → length (flatten (xs c.tick c.data_id)) ≤ buf_size
      → Reports ids Q D
          (set_at_2 numbers c.tick c.data_id (numbers c.tick c.data_id + 1))
          s.end_condition
          c.tick
          c.data_id
          (suc (numbers c.tick c.data_id) == length (xs c.tick c.data_id))
      → Advances Q D (set_at_2 numbers c.tick c.data_id (numbers c.tick c.data_id + 1)) (
          step freed buf_size ids s (record {
            datagram =
                received
                  (re_packet c (length (xs c.tick c.data_id)) (numbers c.tick c.data_id) chunk)
                  after
                  flags;
            fresh = some new;
            has_buf = true;
          }))
  unfolding step
  step-Advances s numbers c chunk after flags new v nothing n f g small empty room h =
      let k = numbers c.tick c.data_id in
      let bytes = re_packet c (length (xs c.tick c.data_id)) k chunk in
      let sized : data_size (length bytes) ≡ length chunk =
        omega (arith, length-re_packet f k chunk, small) in
      rw (parse_re_packet f k chunk after g, sized)
        (place-Advances c k chunk (bytes ++ after) f g (chunk_cut f k chunk after g) room numbers s
          (record { datagram = received bytes after flags; fresh = some new; has_buf = true }) new
          (s.buffers c.tick) v nothing n refl refl refl empty refl h)
