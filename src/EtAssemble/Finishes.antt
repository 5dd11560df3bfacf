-- ===== src/EtAssemble/Finishes.antt =====
-- When `allLastBitsReceived` returns true: every source of the tick has reported, and none has id 0.
use ersap_ejfat.Base.{
  ℕ, ◌≡◌, refl, sym, ap, subst, ◌∙◌, Bool, true, false, ◌&&◌, Bool-cases, inl, inr, Option, none,
  some, List, [], ◌∷◌, ◌==◌, ==_iff, length, arith,
}
use ersap_ejfat.LastBits.{EndCondition, contains, find, check_tick, all_last_bits_received}
use ersap_ejfat.EtAssemble.Maps.{set_end}
use ersap_ejfat.EtAssemble.Keys.{KeysOnce, OneTick, without, length-without, KeysOnce-without}

-- No id is there twice, as in a set.
abbrev pub Once : List ℕ → Type 0
Once [] = Unit {0}
Once (x ∷ xs) = (contains x xs ≡ false) × Once xs

contains-without_old :
    (k j : ℕ) (xs : List ℕ) → contains j (without k xs) ≡ true → contains j xs ≡ true
contains-without_old k j [] h = h
contains-without_old k j (x ∷ xs) h = ground (arith, contains-without_old k j xs)

contains_self : (k : ℕ) (xs : List ℕ) → Once xs → contains k (without k xs) ≡ false
contains_self k [] h = refl
contains_self k (x ∷ xs) h = elim (Bool-cases (k == x)) [
  | inl same ↦
      let here : k ≡ x = (==_iff k x).0 same in
      rw same (subst (λ j. contains j xs ≡ false) (sym here) h.0)
  | inr other ↦ let rest = contains_self k xs h.1 in rw (other, other, rest) refl
]

without-Once : (k : ℕ) (xs : List ℕ) → Once xs → Once (without k xs)
without-Once k [] h = tt
without-Once k (x ∷ xs) h = elim (Bool-cases (k == x)) [
  | inl same ↦ rw same h.1
  | inr other ↦ rw other (absent x, without-Once k xs h.1)
]
  where
    absent : (j : ℕ) → contains x (without k xs) ≡ false
    absent j = elim (Bool-cases (contains x (without k xs))) [
      | inr out ↦ out
      | inl within ↦
          let old : contains x xs ≡ true = contains-without_old k x xs within in
          let clash : true ≡ false = sym old ∙ h.0 in absurd (cc)
    ]

-- Every entry is set.
abbrev pub AllSet : EndCondition → Type 0
AllSet [] = Unit {0}
AllSet ((key, last) ∷ m) = (last ≡ true) × AllSet m

pub set_end-AllSet : (tick id : ℕ) (m : EndCondition) → AllSet m → AllSet (set_end tick id m)
unfolding set_end
set_end-AllSet tick id [] h = (refl, tt)
set_end-AllSet tick id (((t, i), last) ∷ m) h = elim (Bool-cases (tick == t && id == i)) [
  | inl same ↦ rw same (refl, h.1)
  | inr other ↦ rw other (h.0, set_end-AllSet tick id m h.1)
]

check_tick-true :
    (tick : ℕ) (ids : List ℕ) (m : EndCondition)
    → contains 0 ids ≡ false
    → KeysOnce (OneTick tick ids) m
    → AllSet m
    → check_tick tick ids m ≡ true
unfolding check_tick
check_tick-true tick ids [] z k a = refl
check_tick-true tick ids (((t, i), last) ∷ m) z k a =
    let rest = check_tick-true tick ids m z k.2 a.1 in
    let here : (t == tick) ≡ true = (==_iff _ _).1 k.1.0 in
    let not_zero : (i == 0) ≡ false = elim (Bool-cases (i == 0)) [
      | inr other ↦ other
      | inl is_zero ↦
          let e : i ≡ 0 = (==_iff _ _).0 is_zero in
          let clash : true ≡ false = sym k.1.1 ∙ (ap (λ j. contains j ids) e ∙ z) in absurd (cc)
    ] in
    rw (here, not_zero, z, a.0) rest

-- As many entries as ids, if there is one for each of them.
length-all :
    (tick : ℕ) (ids : List ℕ) (m : EndCondition)
    → Once ids
    → KeysOnce (OneTick tick ids) m
    → ((id : ℕ) → contains id ids ≡ true → (b : Bool) × (find tick id m ≡ some b))
    → length m ≡ length ids
length-all tick [] [] o k h = omega arith
length-all tick (x ∷ xs) [] o k h =
    let same : (x == x) ≡ true = (==_iff x x).1 refl in
    let (b, found) = h x (rw same refl) in
    let clash : ◌≡◌ {A = Option Bool} none (some b) = found in absurd (cc)
length-all tick ids (((t, i), last) ∷ m) o k h =
    let sure : find tick i m ≡ none = subst (λ u. find u i m ≡ none) k.1.0 k.0 in
    let rest =
      length-all tick (without i ids) m (without-Once i ids o)
        (KeysOnce-without tick i ids m sure k.2) (λ id c. later id c) in
    omega (arith, rest, length-without i ids k.1.1)
  where
    later : (id : ℕ) → contains id (without i ids) ≡ true → (b : Bool) × (find tick id m ≡ some b)
    later id c =
        let (b, found) = h id (contains-without_old i id ids c) in
        elim (Bool-cases (i == id)) [
          | inr other ↦ (b, ground (arith, found, other))
          | inl same ↦
              let e : i ≡ id = (==_iff _ _).0 same in
              let out : contains id (without i ids) ≡ false =
                subst (λ j. contains j (without i ids) ≡ false) e (contains_self i ids o) in
              let clash : true ≡ false = sym c ∙ out in absurd (cc)
        ]

-- All sources have reported, and none of them has id 0: the call returns true.
pub all_last_bits_received-true :
    (tick : ℕ) (ids : List ℕ) (m : EndCondition)
    → Once ids
    → contains 0 ids ≡ false
    → KeysOnce (OneTick tick ids) m
    → AllSet m
    → ((id : ℕ) → contains id ids ≡ true → (b : Bool) × (find tick id m ≡ some b))
    → (all_last_bits_received tick ids m).0 ≡ true
unfolding all_last_bits_received
all_last_bits_received-true tick ids m o z k a h =
    let enough : (length m == length ids) ≡ true = (==_iff _ _).1 (length-all tick ids m o k h) in
    rw (enough, check_tick-true tick ids m z k a) refl
