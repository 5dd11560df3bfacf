-- ===== src/LastBits.antt =====
-- `allLastBitsReceived` of ejfat/legacy/src/main/cpp/ejfat_assemble_ersap_et.hpp. The map
-- `endCondition` is a list of entries, and the set of ids a list.
mod Tests
use ersap_ejfat.Base.{
  ℕ, ◌<◌, ◌≡◌, refl, sym, ap, subst, ◌∙◌, Bool, true, false, not, ◌&&◌, ◌||◌, Bool-cases, ◌⊎◌, inl,
  inr, Option, none, some, List, [], ◌∷◌, ◌==◌, ==_iff, if◌then◌else◌, length, arith,
}

-- From {tick, dataId} to whether the last bit came.
abbrev pub EndCondition : Type 0
EndCondition = List ((ℕ × ℕ) × Bool)

-- `count` of a set, which is 0 or 1, as a condition.
abbrev pub contains : ℕ → List ℕ → Bool
contains x [] = false
contains x (y ∷ ys) = x == y || contains x ys

-- The key that is looked up in the set is the number of `dataId == 0`.
abbrev pub looked_up : ℕ → ℕ
looked_up id = if id == 0 then 1 else 0

-- The loop that looks at the entries of the tick.
unfoldable pub check_tick : ℕ → List ℕ → EndCondition → Bool
check_tick tick ids [] = true
check_tick tick ids (((t, id), last) ∷ m) =
    let rest = check_tick tick ids m in
    if not (t == tick)
    then rest
    else if contains (looked_up id) ids
    then false
    else if not last
    then false
    else rest

-- The loop that erases the entries of the tick.
unfoldable pub erase_tick : ℕ → EndCondition → EndCondition
erase_tick tick [] = []
erase_tick tick (((t, id), last) ∷ m) =
    let rest = erase_tick tick m in if t == tick then rest else ((t, id), last) ∷ rest

unfoldable pub all_last_bits_received : ℕ → List ℕ → EndCondition → Bool × EndCondition
all_last_bits_received tick ids m =
    if not (length m == length ids)
    then (false, m)
    else if check_tick tick ids m
    then (true, erase_tick tick m)
    else (false, m)

-- The value under a key.
abbrev pub find : ℕ → ℕ → EndCondition → Option Bool
find tick id [] = none
find tick id (((t, i), last) ∷ m) =
    let rest = find tick id m in if t == tick && i == id then some last else rest

check_tick-find :
    (tick : ℕ) (ids : List ℕ) (m : EndCondition) (id : ℕ) (last : Bool)
    → check_tick tick ids m ≡ true
    → find tick id m ≡ some last
    → last ≡ true
unfolding check_tick
check_tick-find tick ids [] id last h e = absurd (ground arith)
check_tick-find tick ids (((t, i), b) ∷ m) id last h e =
    ground (arith, check_tick-find tick ids m id last)

pub find-erase_tick :
    (tick t id : ℕ) (m : EndCondition)
    → find t id (erase_tick tick m) ≡ (if t == tick then none else find t id m)
unfolding erase_tick
find-erase_tick tick t id [] = ground arith
find-erase_tick tick t id (((u, i), b) ∷ m) = ground (arith, find-erase_tick tick t id m)

-- What a call that returns `answer` and leaves `m'` in the place of `m` has found.
pub record Answered (tick : ℕ) (m m' : EndCondition) : Type 0 where
  pub all_set : (id : ℕ) (last : Bool) → find tick id m ≡ some last → last ≡ true
  pub erased : (t id : ℕ) → find t id m' ≡ (if t == tick then none else find t id m)

abbrev pub AnsweredOr : ℕ → List ℕ → EndCondition → Bool × EndCondition → Type 0
AnsweredOr tick ids m (true, m') = (length m ≡ length ids) × Answered tick m m'
AnsweredOr tick ids m (false, m') = m' ≡ m

-- `allLastBitsReceived` either returns false and leaves the map as it was; or it returns true, and
-- then the map had as many entries as there are ids, every entry of the tick was set, and the
-- entries of the tick are gone, while all the others are there.
pub all_last_bits_received-AnsweredOr :
    (tick : ℕ) (ids : List ℕ) (m : EndCondition)
    → AnsweredOr tick ids m (all_last_bits_received tick ids m)
unfolding all_last_bits_received
all_last_bits_received-AnsweredOr tick ids m = elim (Bool-cases (length m == length ids)) [
  | inr few ↦ rw few refl
  | inl enough ↦ rw enough (elim (Bool-cases (check_tick tick ids m)) [
    | inr unset ↦ rw unset refl
    | inl all ↦ rw all (
      (==_iff _ _).0 enough,
      record {
        all_set = λ id last. check_tick-find tick ids m id last all;
        erased = λ t id. find-erase_tick tick t id m;
      },
    )
  ])
]

-- Of two sources, `a` has reported its end for two ticks and `b` for none: the call for the first
-- tick returns true, although `b` has not reported. No id is 0 here.
pub all_last_bits_received_early :
    (t u a b : ℕ)
    → 0 < a
    → 0 < b
    → ¬ (t ≡ u)
    → all_last_bits_received t (a ∷ b ∷ []) (((t, a), true) ∷ ((u, a), true) ∷ [])
      ≡ (true, ((u, a), true) ∷ [])
unfolding all_last_bits_received check_tick erase_tick
all_last_bits_received_early t u a b ha hb h = ground arith

check_tick_zero :
    (tick id : ℕ) (last : Bool) (ids : List ℕ) (m : EndCondition)
    → 0 < id
    → contains 0 ids ≡ true
    → find tick id m ≡ some last
    → check_tick tick ids m ≡ false
unfolding check_tick
check_tick_zero tick id last ids [] h z e = absurd (ground arith)
check_tick_zero tick id last ids (((t, i), b) ∷ m) h z e =
    ground (arith, check_tick_zero tick id last ids m)

-- If 0 is an id, a tick that has an entry under another id is never complete.
pub all_last_bits_received_zero :
    (tick id : ℕ) (last : Bool) (ids : List ℕ) (m : EndCondition)
    → 0 < id
    → contains 0 ids ≡ true
    → find tick id m ≡ some last
    → all_last_bits_received tick ids m ≡ (false, m)
unfolding all_last_bits_received
all_last_bits_received_zero tick id last ids m h z e =
    let no = check_tick_zero tick id last ids m h z e in rw no (ground arith)
