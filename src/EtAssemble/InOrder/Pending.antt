-- ===== src/EtAssemble/InOrder/Pending.antt =====
-- While some source of a tick has not sent its last packet, and after its last bit when all have.
use ersap_ejfat.Base.{
  ℕ, suc, ◌+◌, ◌≡◌, refl, sym, subst, ◌∙◌, Bool, true, false, Bool-cases, inl, inr, some, List,
  ◌==◌, ==_iff, length, arith,
}
use ersap_ejfat.LastBits.{
  EndCondition, contains, find, AnsweredOr, all_last_bits_received,
  all_last_bits_received-AnsweredOr,
}
use ersap_ejfat.EtAssemble.Maps.{Tables, set_at_2, set_end}
use ersap_ejfat.EtAssemble.Inner.{report}
use ersap_ejfat.EtAssemble.Keys.{KeysOnce, OneTick, find_all, find-set_end, set_end-KeysOnce}
use ersap_ejfat.EtAssemble.Finishes.{Once, AllSet, set_end-AllSet, all_last_bits_received-true}
use ersap_ejfat.EtAssemble.InOrder.{Reports}

module _ (tick : ℕ) (ids : List ℕ) (xs : ℕ → ℕ → List (List ℕ)) where
  -- Every source has sent all chunks.
  abbrev pub Complete : (ℕ → ℕ → ℕ) → Type 0
  Complete numbers = (id : ℕ) → contains id ids ≡ true → numbers tick id ≡ length (xs tick id)

  -- The sources that have sent all chunks are in the map, and some source has not.
  abbrev pub PendingAt : (ℕ → ℕ → ℕ) → EndCondition → Type 0
  PendingAt numbers m =
      AllSet m
      × (((id : ℕ)
            → contains id ids ≡ true
            → numbers tick id ≡ length (xs tick id)
            → (b : Bool) × (find tick id m ≡ some b))
          × (Complete numbers → ⊥))

  abbrev pub Pending : Tables → Type 0
  Pending s = PendingAt s.exp_sequence s.end_condition

  PendingAt-same :
      (a b : ℕ → ℕ → ℕ) (m : EndCondition)
      → ((t i : ℕ) → a t i ≡ b t i)
      → PendingAt b m
      → PendingAt a m
  PendingAt-same a b m n h = (
    h.0,
    (
      (λ id c e. h.1.0 id c (sym (n tick id) ∙ e)),
      (λ all. h.1.1 (λ id c. sym (n tick id) ∙ all id c)),
    ),
  )

  by_answer :
      (m : EndCondition) (r : Bool × EndCondition) → AnsweredOr tick ids m r → r.0 ≡ false → r.1 ≡ m
  by_answer m (true, m') h e = let clash : true ≡ false = e in absurd (cc)
  by_answer m (false, m') h e = h

  by_true :
      (m : EndCondition) (r : Bool × EndCondition)
      → AnsweredOr tick ids m r
      → r.0 ≡ true
      → length m ≡ length ids
  by_true m (true, m') h e = h.0
  by_true m (false, m') h e = let clash : false ≡ true = e in absurd (cc)

  module _ (once : Once ids) (no_zero : contains 0 ids ≡ false) where
    module _ (numbers : ℕ → ℕ → ℕ) (id : ℕ) (m : EndCondition) (c : contains id ids ≡ true)
        (keys : KeysOnce (OneTick tick ids) m) (h : PendingAt numbers m)
        (ends : (j : ℕ) (b : Bool)
          → find tick j m ≡ some b
          → numbers tick j ≡ length (xs tick j)) where
      abbrev moved : ℕ → ℕ → ℕ
      moved = set_at_2 numbers tick id (numbers tick id + 1)

      moved_self : moved tick id ≡ suc (numbers tick id)
      moved_self =
          let here : (tick == tick) ≡ true = (==_iff tick tick).1 refl in
          let own : (id == id) ≡ true = (==_iff id id).1 refl in rw (here, own) (omega arith)

      moved_other : (j : ℕ) → (id == j) ≡ false → moved tick j ≡ numbers tick j
      moved_other j other =
          let here : (tick == tick) ≡ true = (==_iff tick tick).1 refl in rw (here, other) refl

      not_last : (suc (numbers tick id) == length (xs tick id)) ≡ false → PendingAt moved m
      not_last more = (h.0, (found, λ all. clash (sym moved_self ∙ all id c)))
        where
          clash : suc (numbers tick id) ≡ length (xs tick id) → ⊥
          clash e = let yes = (==_iff _ _).1 e in absurd (cc)

          found :
              (j : ℕ)
              → contains j ids ≡ true
              → moved tick j ≡ length (xs tick j)
              → (b : Bool) × (find tick j m ≡ some b)
          found j cj e = elim (Bool-cases (id == j)) [
            | inr other ↦ h.1.0 j cj (sym (moved_other j other) ∙ e)
            | inl same ↦
                let is_j : id ≡ j = (==_iff id j).0 same in
                absurd (
                  clash
                    (sym moved_self ∙ subst (λ i. moved tick i ≡ length (xs tick i)) (sym is_j) e))
          ]

      marked :
          (j : ℕ)
          → contains j ids ≡ true
          → moved tick j ≡ length (xs tick j)
          → (b : Bool) × (find tick j (set_end tick id m) ≡ some b)
      marked j cj e =
          let here : (tick == tick) ≡ true = (==_iff tick tick).1 refl in
          elim (Bool-cases (id == j)) [
            | inl same ↦ (true, find-set_end tick id tick j m ∙ rw (here, same) refl)
            | inr other ↦
                let (b, found) = h.1.0 j cj (sym (moved_other j other) ∙ e) in
                (b, find-set_end tick id tick j m ∙ rw (here, other) found)
          ]

      last_of_all : Complete moved → (all_last_bits_received tick ids (set_end tick id m)).0 ≡ true
      last_of_all all =
          all_last_bits_received-true tick ids (set_end tick id m) once no_zero
            (set_end-KeysOnce (OneTick tick ids) tick id m (refl, c) keys)
            (set_end-AllSet tick id m h.0) (λ j cj. marked j cj (all j cj))

      not_all :
          (all_last_bits_received tick ids (set_end tick id m)).0 ≡ false
          → PendingAt moved (all_last_bits_received tick ids (set_end tick id m)).1
      not_all e =
          subst (PendingAt moved)
            (sym (
              by_answer (set_end tick id m) _
                (all_last_bits_received-AnsweredOr tick ids (set_end tick id m)) e))
            (set_end-AllSet tick id m h.0, (marked, unfinished))
        where
          unfinished : Complete moved → ⊥
          unfinished all = let clash : true ≡ false = sym (last_of_all all) ∙ e in absurd (cc)

      -- A tick that is complete has a last bit of every source, so that all chunks are in.
      all_in :
          (suc (numbers tick id) == length (xs tick id)) ≡ true
          → (all_last_bits_received tick ids (set_end tick id m)).0 ≡ true
          → Complete moved
      all_in done e j cj =
          let full =
            by_true (set_end tick id m) _
              (all_last_bits_received-AnsweredOr tick ids (set_end tick id m)) e in
          let (b, found) =
            find_all tick ids (set_end tick id m)
              (set_end-KeysOnce (OneTick tick ids) tick id m (refl, c) keys) full j cj in
          let here : (tick == tick) ≡ true = (==_iff tick tick).1 refl in
          elim (Bool-cases (id == j)) [
            | inl same ↦
                let is_j : id ≡ j = (==_iff id j).0 same in
                subst (λ i. moved tick i ≡ length (xs tick i)) is_j
                  (moved_self ∙ (==_iff _ _).0 done)
            | inr other ↦
                moved_other j other
                ∙ ends j b (sym (rw (here, other) at (find-set_end tick id tick j m)) ∙ found)
          ]

      by_last :
          (last : Bool)
          → (suc (numbers tick id) == length (xs tick id)) ≡ last
          → Reports ids Pending Complete moved m tick id last
      unfolding report
      by_last false more u p a b n e = (
        (λ q. PendingAt-same u.exp_sequence moved _ n (rw e (not_last more))),
        (λ q. absurd (cc)),
      )
      by_last true done u p a b n e = (
        (λ q. PendingAt-same u.exp_sequence moved _ n (rw (a, b, e) (not_all (rw (a, b, e) at q)))),
        (λ q. all_in done (rw (a, b, e) at q)),
      )

    -- What is asked of the report of the next packet of a source.
    pub Pending-Reports :
        (numbers : ℕ → ℕ → ℕ) (s : Tables) (t id : ℕ)
        → ((t i : ℕ) → s.exp_sequence t i ≡ numbers t i)
        → KeysOnce (OneTick tick ids) s.end_condition
        → ((t i : ℕ) (b : Bool)
            → find t i s.end_condition ≡ some b
            → s.exp_sequence t i ≡ length (xs t i))
        → Pending s
        → OneTick tick ids t id
        → Reports ids Pending Complete
            (set_at_2 numbers t id (numbers t id + 1))
            s.end_condition
            t
            id
            (suc (numbers t id) == length (xs t id))
    Pending-Reports numbers s t id n keys ends h src =
        subst
          (λ u.
            Reports ids Pending Complete (set_at_2 numbers u id (numbers u id + 1)) s.end_condition
              u id (suc (numbers u id) == length (xs u id)))
          (sym src.0)
          (by_last numbers id s.end_condition src.1 keys
            (PendingAt-same numbers s.exp_sequence _ (λ u i. sym (n u i)) h)
            (λ j b found. sym (n tick j) ∙ ends tick j b found) _ refl)
