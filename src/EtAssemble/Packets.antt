-- ===== src/EtAssemble/Packets.antt =====
-- One packet of `getBuffers`: on every packet of the messages the step ends without undefined behaviour,
-- and keeps the invariant.
use ersap_ejfat.Base.{
  ℕ, suc, ◌+◌, ◌%◌, ◌^◌, ◌<◌, ◌≤◌, ◌≡◌, refl, sym, ap, ◌∙◌, Bool, true, false, not, Bool-cases, inl,
  inr, Option, some, List, ◌==◌, ==_iff, ltb, leb, if◌then◌else◌, length, get_elem?, arith,
}
use ersap_ejfat.Base.Memory.{Run, ok, slice}
use ersap_ejfat.Wire.{ReHeader, header_bytes}
use ersap_ejfat.Packetize.{Settings}
use ersap_ejfat.Assemble.{code, bad_first_last_bit, recv_failed, received}
use ersap_ejfat.Assemble.Message.{Fits, re_packet, re_header}
use ersap_ejfat.EtAssemble.Maps.{Entry, Tables, set_at}
use ersap_ejfat.EtAssemble.Keys.{hold-AllHeld}
use ersap_ejfat.EtAssemble.Invariant.{IsHeld, Inv, At}
use ersap_ejfat.EtAssemble.Inner.{Freed, Place, Step, returns, throws}
use ersap_ejfat.EtAssemble.{Event, vector_limit, max_held, store_early, by_order, check_first}
use ersap_ejfat.EtAssemble.Drains.{ReadAs, Ends, drain-Ends}

-- The ET system gives entries of `buf_size` bytes, nothing of which counts as written.
abbrev pub Empty : ℕ → Option Entry → Type 0
Empty buf_size fresh =
    (e : Entry) → fresh ≡ some e → (i : ℕ) → ((e i).written ≡ 0) × (length (e i).block ≡ buf_size)

-- What may come while only the messages `xs` are on their way: any packet of any of them, any number
-- of times, or an error.
pub data Arrives (buf_size : ℕ) (xs : ℕ → ℕ → List (List ℕ)) (Src : ℕ → ℕ → Type 0)
    : Event → Type 0 where
  lost :
      (fresh : Option Entry) (has_buf : Bool)
      → Arrives buf_size xs Src
          (record { datagram = recv_failed; fresh = fresh; has_buf = has_buf })
  arrived :
      (c : Settings) (k : ℕ) (chunk after : List ℕ) (flags : ℕ) (fresh : Option Entry)
      (has_buf : Bool)
      → Fits c (xs c.tick c.data_id)
      → Src c.tick c.data_id
      → get_elem? (xs c.tick c.data_id) k ≡ some chunk
      → length chunk ≤ 9984
      → Empty buf_size fresh
      → Arrives buf_size xs Src (record {
        datagram = received (re_packet c (length (xs c.tick c.data_id)) k chunk) after flags;
        fresh = fresh;
        has_buf = has_buf;
      })

-- The first bit of a packet of a message is right.
pub check_first_cases :
    (freed : Freed) (buf_size : ℕ) (ids : List ℕ) (s : Tables) (p : Place) (c : Settings)
    (count k n : ℕ) (packet : List ℕ) (P : Run Step → Type 0)
    → P (by_order freed buf_size ids s p (re_header c count k) n packet)
    → P (
        by_order freed buf_size ids
          (record s { bytes_per_packet = set_at s.bytes_per_packet c.data_id (n % 2 ^ 32) })
          p
          (re_header c count k)
          n
          packet)
    → P (check_first freed buf_size ids s p (re_header c count k) n packet)
unfolding check_first
check_first_cases freed buf_size ids s p c count k n packet P same counted = by_number (k == 0) refl
  where
    by_number :
        (b : Bool)
        → (k == 0) ≡ b
        → P (elim b [
          | true ↦
              if not (k == 0)
              then ok (returns (code bad_first_last_bit))
              else by_order freed buf_size ids
                  (record s { bytes_per_packet = set_at s.bytes_per_packet c.data_id (n % 2 ^ 32) })
                  p
                  (re_header c count k)
                  n
                  packet
          | false ↦
              if k == 0
              then ok (returns (code bad_first_last_bit))
              else by_order freed buf_size ids s p (re_header c count k) n packet
        ])
    by_number false q = rw q (rw q at same)
    by_number true q = rw q (rw q at counted)

module _ (buf_size : ℕ) (xs : ℕ → ℕ → List (List ℕ)) (Src : ℕ → ℕ → Type 0)
    (large : buf_size < 2 ^ 63) (ids : List ℕ) (U : Type 0) (freed : Freed)
    (honest : (bytes : List ℕ) → ReadAs U (freed bytes) bytes) where
  abbrev EndsStep : Run Step → Type 0
  EndsStep m = Ends buf_size xs Src large ids U freed honest m

  returns-Ends : (m : Run Step) (value : _) → m ≡ ok (returns value) → EndsStep m
  returns-Ends m value e = inr (returns value, e, tt)

  throws-Ends : (m : Run Step) → m ≡ ok throws → EndsStep m
  throws-Ends m e = inr (throws, e, tt)

  -- One packet: chunk `k` of its message.
  module _ (c : Settings) (k : ℕ) (chunk packet : List ℕ) (f : Fits c (xs c.tick c.data_id))
      (src : Src c.tick c.data_id) (g : get_elem? (xs c.tick c.data_id) k ≡ some chunk)
      (small : length chunk ≤ 9984)
      (cut : slice packet header_bytes (length chunk) ≡ ok chunk) where
    abbrev header : ReHeader
    header = re_header c (length (xs c.tick c.data_id)) k

    store_early-Ends :
        (s : Tables) → Inv buf_size xs Src s → EndsStep (store_early s header (length chunk) packet)
    unfolding store_early
    store_early-Ends s v = elim (Bool-cases (leb max_held (length s.held))) [
      | inl full ↦ rw full (returns-Ends _ _ refl)
      | inr free ↦
          let less : leb vector_limit (length chunk) ≡ false = ground (arith, small) in
          rw (free, less, cut)
            (inr (
              _,
              refl,
              record {
                content = v.content;
                unused = v.unused;
                held_are =
                    hold-AllHeld (IsHeld buf_size xs Src) _ s.held
                      (record {
                        chunk_is = g;
                        last_is = refl;
                        src = src;
                        few = f.count_fits;
                        short = omega (arith, small);
                      })
                      v.held_are;
                ends = v.ends;
                keys = v.keys;
              },
            ))
    ]

    abbrev here : Entry → ℕ → ℕ → Place
    here entry expected total = record {
      tick = c.tick;
      data_id = c.data_id;
      entry = entry;
      expected = expected;
      total = total;
    }

    by_order-Ends :
        (s : Tables) (entry : Entry) (expected total : ℕ)
        → Inv buf_size xs Src s
        → At buf_size xs Src s (here entry expected total)
        → total + length chunk ≤ buf_size
        → EndsStep
            (by_order freed buf_size ids s (here entry expected total) header (length chunk) packet)
    unfolding by_order
    by_order-Ends s entry expected total v a room = elim (Bool-cases (k == expected)) [
      | inl next_one ↦ rw next_one (
          drain-Ends buf_size xs Src large ids U freed honest (suc (length s.held)) s
            (here entry expected total) _ _ chunk (inr cut) v a
            (record {
              chunk_is = ap (get_elem? (xs c.tick c.data_id)) (sym ((==_iff _ _).0 next_one)) ∙ g;
              last_is = ap (λ j. suc j == length (xs c.tick c.data_id)) ((==_iff _ _).0 next_one);
              src = src;
              few = f.count_fits;
            })
            room (omega arith))
      | inr other ↦ rw other (elim (Bool-cases (ltb k expected)) [
        | inl late ↦ rw late (returns-Ends _ _ refl)
        | inr early ↦ rw early (store_early-Ends s v)
      ])
    ]

    pub check_first-Ends :
        (s : Tables) (entry : Entry) (expected total : ℕ)
        → Inv buf_size xs Src s
        → At buf_size xs Src s (here entry expected total)
        → total + length chunk ≤ buf_size
        → EndsStep (
            check_first freed buf_size ids s
              (here entry expected total)
              header
              (length chunk)
              packet)
    check_first-Ends s entry expected total v a room =
        check_first_cases freed buf_size ids s (here entry expected total) c
          (length (xs c.tick c.data_id)) k (length chunk) packet EndsStep
          (by_order-Ends s entry expected total v a room)
          (by_order-Ends _ entry expected total
            (record {
              content = v.content;
              unused = v.unused;
              held_are = v.held_are;
              ends = v.ends;
              keys = v.keys;
            })
            (record { buffer_is = a.buffer_is; expected_is = a.expected_is; total_is = a.total_is })
            room)
