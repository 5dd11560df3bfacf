-- ===== src/EtAssemble/Keys.antt =====
-- Laws of the maps: `endCondition` and the packets that came too early.
use ersap_ejfat.Base.{
  ℕ, suc, ◌+◌, ◌≡◌, refl, ap, subst, ◌∙◌, Bool, true, false, ◌&&◌, Bool-cases, inl, inr, Option,
  none, some, List, [], ◌∷◌, ◌==◌, ==_iff, if◌then◌else◌, length, arith,
}
use ersap_ejfat.LastBits.{EndCondition, contains, find, erase_tick, find-erase_tick}
use ersap_ejfat.EtAssemble.Maps.{Held, set_end, has_key, hold, take_held}

pub find-set_end :
    (tick id t i : ℕ) (m : EndCondition)
    → find t i (set_end tick id m) ≡ (if tick == t && id == i then some true else find t i m)
unfolding set_end
find-set_end tick id t i [] = ground arith
find-set_end tick id t i (((u, j), last) ∷ m) = ground (arith, find-set_end tick id t i m)

-- Every key is there once, and satisfies `P`.
abbrev pub KeysOnce : (ℕ → ℕ → Type 0) → EndCondition → Type 0
KeysOnce P [] = Unit {0}
KeysOnce P (((t, i), last) ∷ m) = (find t i m ≡ none) × P t i × KeysOnce P m

module _ (P : ℕ → ℕ → Type 0) where
  pub set_end-KeysOnce :
      (tick id : ℕ) (m : EndCondition) → P tick id → KeysOnce P m → KeysOnce P (set_end tick id m)
  unfolding set_end
  set_end-KeysOnce tick id [] p h = (refl, p, tt)
  set_end-KeysOnce tick id (((t, i), last) ∷ m) p h = elim (Bool-cases (tick == t && id == i)) [
    | inl same ↦ rw same h
    | inr other ↦
        rw other (find-set_end tick id t i m ∙ rw other h.0, h.1, set_end-KeysOnce tick id m p h.2)
  ]

  pub erase_tick-KeysOnce :
      (tick : ℕ) (m : EndCondition) → KeysOnce P m → KeysOnce P (erase_tick tick m)
  unfolding erase_tick
  erase_tick-KeysOnce tick [] h = tt
  erase_tick-KeysOnce tick (((t, i), last) ∷ m) h = elim (Bool-cases (t == tick)) [
    | inl same ↦ rw same (erase_tick-KeysOnce tick m h.2)
    | inr other ↦
        rw other (find-erase_tick tick t i m ∙ rw other h.0, h.1, erase_tick-KeysOnce tick m h.2)
  ]

-- One occurrence of `k` less.
abbrev pub without : ℕ → List ℕ → List ℕ
without k [] = []
without k (x ∷ xs) = let rest = without k xs in if k == x then xs else x ∷ rest

pub length-without :
    (k : ℕ) (xs : List ℕ) → contains k xs ≡ true → length (without k xs) + 1 ≡ length xs
length-without k [] h = absurd (cc)
length-without k (x ∷ xs) h = ground (arith, length-without k xs)

pub contains-without :
    (k j : ℕ) (xs : List ℕ)
    → (k == j) ≡ false
    → contains j xs ≡ true
    → contains j (without k xs) ≡ true
contains-without k j [] ne h = absurd (cc)
contains-without k j (x ∷ xs) ne h = ground (arith, contains-without k j xs)

abbrev pub OneTick : ℕ → List ℕ → ℕ → ℕ → Type 0
OneTick tick ids t i = (t ≡ tick) × (contains i ids ≡ true)

pub KeysOnce-without :
    (tick k : ℕ) (ids : List ℕ) (m : EndCondition)
    → find tick k m ≡ none
    → KeysOnce (OneTick tick ids) m
    → KeysOnce (OneTick tick (without k ids)) m
KeysOnce-without tick k ids [] e h = tt
KeysOnce-without tick k ids (((t, i), last) ∷ m) e h =
    let here : (t == tick) ≡ true = (==_iff _ _).1 h.1.0 in
    let other : (k == i) ≡ false = ground (arith, e, here) in
    let rest : find tick k m ≡ none = ground (arith, e) in
    (h.0, (h.1.0, contains-without k i ids other h.1.1), KeysOnce-without tick k ids m rest h.2)

none_in : (ids : List ℕ) (id : ℕ) → 0 ≡ length ids → contains id ids ≡ true → ⊥
none_in [] id e c = cc
none_in (x ∷ xs) id e c = absurd (omega arith)

-- A map whose keys all have one tick and ids of a list, and that has as many entries as that list,
-- has one for each id of it.
pub find_all :
    (tick : ℕ) (ids : List ℕ) (m : EndCondition)
    → KeysOnce (OneTick tick ids) m
    → length m ≡ length ids
    → (id : ℕ) → contains id ids ≡ true
    → (last : Bool) × (find tick id m ≡ some last)
find_all tick ids [] h e id c = absurd (ground (arith, none_in ids id))
find_all tick ids (((t, i), last) ∷ m) h e id c = elim (Bool-cases (i == id)) [
  | inl same ↦ let here : (t == tick) ≡ true = (==_iff _ _).1 h.1.0 in (last, rw (here, same) refl)
  | inr other ↦
      let sure : find tick i m ≡ none = subst (λ u. find u i m ≡ none) h.1.0 h.0 in
      let (b, found) =
        find_all tick (without i ids) m (KeysOnce-without tick i ids m sure h.2)
          (omega (arith, e, length-without i ids h.1.1)) id (contains-without i id ids other c) in
      (b, ground (arith, found, other))
]

-- A property of all early packets.
abbrev pub AllHeld : (Held → Type 0) → List Held → Type 0
AllHeld P [] = Unit {0}
AllHeld P (h ∷ m) = P h × AllHeld P m

pub hold-AllHeld :
    (P : Held → Type 0) (h : Held) (m : List Held) → P h → AllHeld P m → AllHeld P (hold h m)
unfolding hold
hold-AllHeld P h [] p a = (p, tt)
hold-AllHeld P h (g ∷ m) p a = elim (Bool-cases (has_key h.sequence h.data_id h.tick g)) [
  | inl old ↦ rw old a
  | inr new ↦ rw new (a.0, hold-AllHeld P h m p a.1)
]

-- A packet that was found has the key, and the map without it is smaller.
pub record Found (P : Held → Type 0) (sequence id tick : ℕ) (m : List Held) (r : Held × List Held)
    : Type 0 where
  pub sequence_is : r.0.sequence ≡ sequence
  pub id_is : r.0.data_id ≡ id
  pub tick_is : r.0.tick ≡ tick
  pub holds : P r.0
  pub rest_hold : AllHeld P r.1
  pub smaller : suc (length r.1) ≡ length m

pub take_held-Found :
    (P : Held → Type 0) (sequence id tick : ℕ) (m : List Held) (r : Held × List Held)
    → AllHeld P m
    → take_held sequence id tick m ≡ some r
    → Found P sequence id tick m r
unfolding take_held
take_held-Found P sequence id tick [] r a e = absurd (ground arith)
take_held-Found P sequence id tick (h ∷ m) r a e = elim (Bool-cases (has_key sequence id tick h)) [
  | inl here ↦
      let p : some (h, m) ≡ some r = rw here at e in
      let same : (h, m) ≡ r = ground arith in
      subst (Found P sequence id tick (h ∷ m)) same (record {
        sequence_is = ground (arith, here);
        id_is = ground (arith, here);
        tick_is = ground (arith, here);
        holds = a.0;
        rest_hold = a.1;
        smaller = refl;
      })
  | inr other ↦
      by_rest (take_held sequence id tick m) (λ q. take_held-Found P sequence id tick m q a.1)
        (rw other at e)
]
  where
    by_rest :
        (o : Option (Held × List Held))
        → ((q : Held × List Held) → o ≡ some q → Found P sequence id tick m q)
        → (elim o [ none ↦ none | some q ↦ some (q.0, h ∷ q.1) ]) ≡ some r
        → Found P sequence id tick (h ∷ m) r
    by_rest none found e = absurd (ground arith)
    by_rest (some q) found e =
        let f = found q refl in
        let same : (q.0, h ∷ q.1) ≡ r = ground arith in
        subst (Found P sequence id tick (h ∷ m)) same (record {
          sequence_is = f.sequence_is;
          id_is = f.id_is;
          tick_is = f.tick_is;
          holds = f.holds;
          rest_hold = (a.0, f.rest_hold);
          smaller = ap suc f.smaller;
        })
