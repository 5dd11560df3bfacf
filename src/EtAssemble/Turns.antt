-- ===== src/EtAssemble/Turns.antt =====
-- The inner loop of `getBuffers` keeps the invariant, and hands over an entry with the chunks of every
-- source.
use ersap_ejfat.Base.{
  ℕ, ◌≡◌, refl, sym, ap, ap₂, subst, ◌∙◌, Bool, true, false, ◌&&◌, Bool-cases, inl, inr, none, some,
  List, ◌==◌, ==_iff, length, take, take_all, flatten, arith,
}
use ersap_ejfat.LastBits.{
  EndCondition, find, AnsweredOr, all_last_bits_received, all_last_bits_received-AnsweredOr,
  check_tick,
}
use ersap_ejfat.EtAssemble.Maps.{Entry, Tables, set_end}
use ersap_ejfat.EtAssemble.Keys.{KeysOnce, find-set_end, set_end-KeysOnce, erase_tick-KeysOnce}
use ersap_ejfat.EtAssemble.Invariant.{Content, Inv, At}
use ersap_ejfat.EtAssemble.Inner.{Place, Step, next, handed, returns, throws, report}

module _ (buf_size : ℕ) (xs : ℕ → ℕ → List (List ℕ)) (Src : ℕ → ℕ → Type 0) where
  -- What is known of an entry that is handed over with the map `m`: every buffer holds the first
  -- chunks of its source, and all of them if the map has its last bit. The map has as many entries
  -- as there are ids, each key once and from a source, and at least one of the tick.
  pub record Complete (ids : List ℕ) (tick : ℕ) (entry : Entry) (m : EndCondition) : Type 0 where
    pub prefix : (i : ℕ) → (k : ℕ) × Content buf_size xs Src tick i k (entry i)
    pub whole :
        (i : ℕ) (last : Bool)
        → find tick i m ≡ some last
        → take (entry i).written (entry i).block ≡ flatten (xs tick i)
    pub counted : length m ≡ length ids
    pub keys : KeysOnce Src m
    pub source : (i : ℕ) × Src tick i × (find tick i m ≡ some true)

  abbrev pub HandedOver : List ℕ → ℕ → Entry → Type 0
  HandedOver ids tick entry = (m : EndCondition) × Complete ids tick entry m

  abbrev pub StepOk : List ℕ → Step → Type 0
  StepOk ids (next s) = Inv buf_size xs Src s
  StepOk ids (handed tick entry s) = Inv buf_size xs Src s × HandedOver ids tick entry
  StepOk ids (returns value) = Unit {0}
  StepOk ids throws = Unit {0}

  -- The map once the source at hand is marked, and after the check.
  module _ (ids : List ℕ) (s : Tables) (p : Place) (v : Inv buf_size xs Src s)
      (a : At buf_size xs Src s p) (src : Src p.tick p.data_id)
      (at_end : s.exp_sequence p.tick p.data_id ≡ length (xs p.tick p.data_id)) where
    abbrev marked : EndCondition
    marked = set_end p.tick p.data_id s.end_condition

    ends_marked :
        (t i : ℕ) (b : Bool) → find t i marked ≡ some b → s.exp_sequence t i ≡ length (xs t i)
    ends_marked t i b q = elim (Bool-cases (p.tick == t && p.data_id == i)) [
      | inl same ↦
          let here : p.tick ≡ t = (==_iff _ _).0 (ground (arith, same)) in
          let own : p.data_id ≡ i = (==_iff _ _).0 (ground (arith, same)) in
          sym (ap₂ s.exp_sequence here own) ∙ at_end ∙ ap₂ (λ t i. length (xs t i)) here own
      | inr other ↦
          v.ends t i b (sym (rw other at (find-set_end p.tick p.data_id t i s.end_condition)) ∙ q)
    ]

    own_bit : find p.tick p.data_id marked ≡ some true
    own_bit =
        let own : (p.tick == p.tick && p.data_id == p.data_id) ≡ true =
          rw ((==_iff p.tick p.tick).1 refl, (==_iff p.data_id p.data_id).1 refl) refl in
        rw own at (find-set_end p.tick p.data_id p.tick p.data_id s.end_condition)

    Complete-marked : length marked ≡ length ids → Complete ids p.tick p.entry marked
    Complete-marked e = record {
      prefix = λ i. (s.exp_sequence p.tick i, v.content p.tick p.entry a.buffer_is i);
      whole = λ i b q.
          let held = (v.content p.tick p.entry a.buffer_is i).holds in
          held ∙ ap flatten (take_all _ (xs p.tick i) (omega (arith, ends_marked p.tick i b q)));
      counted = e;
      keys = set_end-KeysOnce Src p.tick p.data_id s.end_condition src v.keys;
      source = (p.data_id, src, own_bit);
    }

    ends_after :
        (r : Bool × EndCondition)
        → AnsweredOr p.tick ids marked r
        → (t i : ℕ) (b : Bool) → find t i r.1 ≡ some b
        → s.exp_sequence t i ≡ length (xs t i)
    ends_after (false, m) same t i b q = ends_marked t i b (subst (λ k. find t i k ≡ some b) same q)
    ends_after (true, m) (e, h) t i b q = elim (Bool-cases (t == p.tick)) [
      | inl here ↦ let gone : none ≡ some b = sym (rw here at (h.erased t i)) ∙ q in absurd (cc)
      | inr there ↦ ends_marked t i b (sym (rw there at (h.erased t i)) ∙ q)
    ]

    after_check :
        (r : Bool × EndCondition)
        → AnsweredOr p.tick ids marked r
        → KeysOnce Src r.1
        → Inv buf_size xs Src (record s { end_condition = r.1 })
    after_check r h k = record {
      content = v.content;
      unused = v.unused;
      held_are = v.held_are;
      ends = ends_after r h;
      keys = k;
    }

    handed_after :
        (m : EndCondition) → AnsweredOr p.tick ids marked (true, m) → HandedOver ids p.tick p.entry
    handed_after m h = (marked, Complete-marked h.0)

  all_last_bits_received-KeysOnce :
      (tick : ℕ) (ids : List ℕ) (m : EndCondition)
      → KeysOnce Src m
      → KeysOnce Src (all_last_bits_received tick ids m).1
  unfolding all_last_bits_received
  all_last_bits_received-KeysOnce tick ids m k = elim (Bool-cases (length m == length ids)) [
    | inr few ↦ rw few k
    | inl enough ↦ rw enough (elim (Bool-cases (check_tick tick ids m)) [
      | inr unset ↦ rw unset k
      | inl all ↦ rw all (erase_tick-KeysOnce Src tick m k)
    ])
  ]

  -- Behind a copy: a completed tick goes out, or the maps are as before.
  abbrev pub Reported : List ℕ → Place → Bool × Tables → Type 0
  Reported ids p (true, s) = Inv buf_size xs Src s × HandedOver ids p.tick p.entry
  Reported ids p (false, s) = Inv buf_size xs Src s × At buf_size xs Src s p

  pub report-Reported :
      (ids : List ℕ) (s : Tables) (p : Place) (last : Bool)
      → Inv buf_size xs Src s
      → At buf_size xs Src s p
      → Src p.tick p.data_id
      → last ≡ (s.exp_sequence p.tick p.data_id == length (xs p.tick p.data_id))
      → Reported ids p (report ids s p last) × ((report ids s p last).1.held ≡ s.held)
  unfolding report
  report-Reported ids s p false v a src e = ((v, a), refl)
  report-Reported ids s p true v a src e = (
    by_answer (all_last_bits_received p.tick ids (marked ids s p v a src at_end))
        (all_last_bits_received-AnsweredOr p.tick ids (marked ids s p v a src at_end))
        (all_last_bits_received-KeysOnce p.tick ids (marked ids s p v a src at_end)
          (set_end-KeysOnce Src p.tick p.data_id s.end_condition src v.keys)),
    refl,
  )
    where
      at_end : s.exp_sequence p.tick p.data_id ≡ length (xs p.tick p.data_id)
      at_end = (==_iff _ _).0 (sym e)

      by_answer :
          (r : Bool × EndCondition)
          → AnsweredOr p.tick ids (marked ids s p v a src at_end) r
          → KeysOnce Src r.1
          → Reported ids p (r.0, record s { end_condition = r.1 })
      by_answer (false, m) h k = (
        after_check ids s p v a src at_end (false, m) h k,
        record { buffer_is = a.buffer_is; expected_is = a.expected_is; total_is = a.total_is },
      )
      by_answer (true, m) h k = (
        after_check ids s p v a src at_end (true, m) h k,
        handed_after ids s p v a src at_end m h,
      )
