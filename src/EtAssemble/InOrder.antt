-- ===== src/EtAssemble/InOrder.antt =====
-- `getBuffers` when the packets of every source come in their order: it never fails.
mod Places
pub mod Pending
pub mod Delivers
pub mod Whole
use ersap_ejfat.Base.{
  ℕ, negsuc, zero, suc, ◌+◌, ◌-◌, ◌%◌, ◌^◌, ◌<◌, ◌≤◌, ◌≡◌, ◌⊎◌, refl, sym, ap, ap₂, subst, ◌∙◌,
  Bool, true, false, not, ◌&&◌, Bool-cases, inl, inr, Option, none, some, List, [], ◌∷◌, ◌++◌, ◌==◌,
  ==_iff, ltb, if◌then◌else◌, length, take, drop, get_elem?, get_elem?-lt, length-append, take-suc,
  flatten, flatten-concat, ℤ, pos, arith,
}
use ersap_ejfat.Base.Memory.{Run, ok, fault, use_after_free, ◌>>=◌, write, write_fits, slice}
use ersap_ejfat.Wire.{ReHeader, parse_re_header, header_bytes}
use ersap_ejfat.Packetize.{Settings}
use ersap_ejfat.Assemble.{received}
use ersap_ejfat.Assemble.Loop.{incr_32}
use ersap_ejfat.Assemble.Message.{Fits, re_packet, re_header}
use ersap_ejfat.Assemble.Reads.{parse_re_packet, length-re_packet, chunk_cut}
use ersap_ejfat.LastBits.{all_last_bits_received}
use ersap_ejfat.LastBits.{EndCondition}
use ersap_ejfat.EtAssemble.Maps.{Entry, Held, Tables, set_at, set_at_2, take_held}
use ersap_ejfat.EtAssemble.Inner.{
  Freed, Place, Step, next, handed, returns, throws, no_room, write_data, report, after_write,
  drain,
}
use ersap_ejfat.EtAssemble.Invariant.{Inv}
use ersap_ejfat.EtAssemble.Packets.{Empty, Arrives, arrived, check_first_cases}
use ersap_ejfat.EtAssemble.{Event, by_order, check_first, first_of_tick, place, data_size, step}

-- The work on the packet went well: the next numbers are those, and nothing is stored; if no tick is
-- complete, the tables have `Q`, and otherwise the numbers have `D`.
abbrev pub Advanced : (Tables → Type 0) → ((ℕ → ℕ → ℕ) → Type 0) → (ℕ → ℕ → ℕ) → Step → Type 0
Advanced Q D numbers (next s) =
    (s.held ≡ []) × (((t i : ℕ) → s.exp_sequence t i ≡ numbers t i) × Q s)
Advanced Q D numbers (handed tick entry s) =
    (s.held ≡ []) × (((t i : ℕ) → s.exp_sequence t i ≡ numbers t i) × D numbers)
Advanced Q D numbers (returns value) = ⊥
Advanced Q D numbers throws = ⊥

abbrev pub Advances : (Tables → Type 0) → ((ℕ → ℕ → ℕ) → Type 0) → (ℕ → ℕ → ℕ) → Run Step → Type 0
Advances Q D numbers m = (r : Step) × (m ≡ ok r) × Advanced Q D numbers r

-- What is asked of a report, with these numbers and last bits.
abbrev pub Reports :
    List ℕ
    → (Tables → Type 0)
    → ((ℕ → ℕ → ℕ) → Type 0)
    → (ℕ → ℕ → ℕ)
    → EndCondition
    → ℕ
    → ℕ
    → Bool
    → Type 0
Reports ids Q D numbers ends tick id last =
    (u : Tables) (p : Place)
    → p.tick ≡ tick
    → p.data_id ≡ id
    → ((t i : ℕ) → u.exp_sequence t i ≡ numbers t i)
    → u.end_condition ≡ ends
    → ((report ids u p last).0 ≡ false → Q (report ids u p last).1)
      × ((report ids u p last).0 ≡ true → D numbers)

module _ (freed : Freed) (buf_size : ℕ) (ids : List ℕ) (Q : Tables → Type 0)
    (D : (ℕ → ℕ → ℕ) → Type 0) (numbers : ℕ → ℕ → ℕ) where
  after_write-Advances :
      (again : Tables → Held → Run Step) (p : Place) (q : Bool × Tables)
      → q.1.held ≡ []
      → ((t i : ℕ) → q.1.exp_sequence t i ≡ numbers t i)
      → (q.0 ≡ false → Q q.1) × (q.0 ≡ true → D numbers)
      → Advances Q D numbers (after_write buf_size again p q)
  unfolding after_write take_held
  after_write-Advances again p (true, s) e n h = (handed p.tick p.entry s, refl, (e, (n, h.1 refl)))
  after_write-Advances again p (false, s) e n h = (
    next s,
    ap
        (λ m. elim (take_held p.expected p.data_id p.tick m) [
          | none ↦ ok (next s)
          | some r ↦
              if no_room buf_size p.total (length r.0.bytes)
              then ok throws
              else again (record s { held = r.1 }) r.0
        ])
        e,
    (e, (n, h.0 refl)),
  )

  report_keeps :
      (s : Tables) (p : Place) (last : Bool)
      → s.held ≡ []
      → ((t i : ℕ) → s.exp_sequence t i ≡ numbers t i)
      → ((report ids s p last).1.held ≡ [])
        × ((t i : ℕ) → (report ids s p last).1.exp_sequence t i ≡ numbers t i)
  unfolding report
  report_keeps s p false e n = (e, n)
  report_keeps s p true e n = (e, n)

  drain-Advances :
      (fuel : ℕ) (s : Tables) (p : Place) (last : Bool) (from : Run (List ℕ)) (bytes : List ℕ)
      → from ≡ ok bytes
      → s.held ≡ []
      → p.total + length bytes ≤ length (p.entry p.data_id).block
      → ((t i : ℕ)
          → set_at_2 s.exp_sequence p.tick p.data_id (incr_32 p.expected) t i ≡ numbers t i)
      → Reports ids Q D numbers s.end_condition p.tick p.data_id last
      → Advances Q D numbers (drain freed buf_size ids (suc fuel) s p last from)
  unfolding drain write_data
  drain-Advances fuel s p last from bytes reads e room n h =
      let fits = write_fits (p.entry p.data_id).block p.total bytes room in
      rw (reads, fits)
        (after_write-Advances _ _ (report ids _ _ last) (report_keeps _ _ last e n).0
          (report_keeps _ _ last e n).1 (h _ _ refl refl n refl))

module _ (freed : Freed) (buf_size : ℕ) (ids : List ℕ) (Q : Tables → Type 0)
    (D : (ℕ → ℕ → ℕ) → Type 0) (c : Settings) (count k : ℕ) (chunk packet : List ℕ)
    (small : suc k < 2 ^ 32) (cut : slice packet header_bytes (length chunk) ≡ ok chunk) where
  abbrev at_place : Entry → ℕ → Place
  at_place entry total = record {
    tick = c.tick;
    data_id = c.data_id;
    entry = entry;
    expected = k;
    total = total;
  }

  pub check_first-Advances :
      (numbers : ℕ → ℕ → ℕ) (s : Tables) (entry : Entry) (total : ℕ)
      → s.held ≡ []
      → total + length chunk ≤ length (entry c.data_id).block
      → ((t i : ℕ) → set_at_2 s.exp_sequence c.tick c.data_id (incr_32 k) t i ≡ numbers t i)
      → Reports ids Q D numbers s.end_condition c.tick c.data_id (suc k == count)
      → Advances Q D numbers (
          check_first freed buf_size ids s
            (at_place entry total)
            (re_header c count k)
            (length chunk)
            packet)
  unfolding by_order
  check_first-Advances numbers s entry total e room n h =
      check_first_cases freed buf_size ids s (at_place entry total) c count k (length chunk) packet
        (Advances Q D numbers) (in_turn s e n h) (in_turn _ e n h)
    where
      same : (k == k) ≡ true
      same = (==_iff k k).1 refl

      in_turn :
          (s : Tables)
          → s.held ≡ []
          → ((t i : ℕ) → set_at_2 s.exp_sequence c.tick c.data_id (incr_32 k) t i ≡ numbers t i)
          → Reports ids Q D numbers s.end_condition c.tick c.data_id (suc k == count)
          → Advances Q D numbers (
              by_order freed buf_size ids s
                (at_place entry total)
                (re_header c count k)
                (length chunk)
                packet)
      in_turn s e n h = rw same (
          drain-Advances freed buf_size ids Q D numbers (length s.held) s (at_place entry total) _ _
            chunk cut e room n h)

  pub moves_on :
      (numbers old : ℕ → ℕ → ℕ)
      → ((t i : ℕ) → old t i ≡ numbers t i)
      → (t i : ℕ)
      → set_at_2 old c.tick c.data_id (incr_32 k) t i
        ≡ set_at_2 numbers c.tick c.data_id (k + 1) t i
  moves_on numbers old n t i = elim (Bool-cases (c.tick == t && c.data_id == i)) [
    | inl same ↦ rw same (omega (arith, small))
    | inr other ↦ rw other (n t i)
  ]
