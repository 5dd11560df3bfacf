-- ===== src/Config/Sources/Ids.antt =====
-- The ids of the configuration against the array for 1024 of them.
use ersap_ejfat.Base.{
  ℕ, suc, ◌+◌, ◌<◌, ◌≤◌, ◌≡◌, refl, sym, ap, ◌∙◌, true, ltb, leb, Bool-cases, inl, inr, List, [],
  ◌∷◌, ◌++◌, append_assoc, length, length-append, drop, if◌then◌else◌, ℤ, arith,
}
use ersap_ejfat.Base.Memory.{ok, fault, overrun}
use ersap_ejfat.Config.{split}
use ersap_ejfat.Config.Sources.{max_source_ids, set_nth, store_ids, Engine, read_ids}

abbrev pub map_ids : (List ℕ → ℤ) → List (List ℕ) → List ℤ
map_ids atoi [] = []
map_ids atoi (part ∷ parts) = atoi part ∷ map_ids atoi parts

set_nth-append :
    (front : List ℤ) (r a : ℤ) (rest : List ℤ)
    → set_nth (front ++ (r ∷ rest)) (length front) a ≡ front ++ (a ∷ rest)
set_nth-append [] r a rest = refl
set_nth-append (x ∷ front) r a rest = ap (◌∷◌ x) (set_nth-append front r a rest)

-- The array has `front` filled, and `rest` behind it.
store_ids_fits :
    (atoi : List ℕ → ℤ) (parts : List (List ℕ)) (front rest : List ℤ)
    → length front + length rest ≡ max_source_ids
    → length parts ≤ length rest
    → store_ids atoi (length front) parts (front ++ rest)
      ≡ ok (front ++ (map_ids atoi parts ++ drop (length parts) rest))
unfolding store_ids
store_ids_fits atoi [] front rest all few = refl
store_ids_fits atoi (part ∷ parts) front [] all few = absurd (omega arith)
store_ids_fits atoi (part ∷ parts) front (r ∷ rest) all few =
    let room : ltb (length front) max_source_ids ≡ true = ground (arith, all) in
    let one_more : suc (length front) ≡ length (front ++ (atoi part ∷ [])) =
      omega (arith, length-append {0} front (atoi part ∷ [])) in
    rw room (
      ap (store_ids atoi (suc (length front)) parts)
        (set_nth-append front r (atoi part) rest ∙ sym (append_assoc front (atoi part ∷ []) rest))
      ∙ ap (λ n. store_ids atoi n parts ((front ++ (atoi part ∷ [])) ++ rest)) one_more
      ∙ store_ids_fits atoi parts (front ++ (atoi part ∷ [])) rest (omega (arith, one_more, all))
          (omega (arith, few))
      ∙ ap ok (append_assoc front (atoi part ∷ []) _))

store_ids_overruns :
    (atoi : List ℕ → ℤ) (i : ℕ) (parts : List (List ℕ)) (ids : List ℤ)
    → i ≤ max_source_ids
    → max_source_ids < i + length parts
    → store_ids atoi i parts ids ≡ fault overrun
unfolding store_ids
store_ids_overruns atoi i [] ids h many = absurd (omega (arith, h, many))
store_ids_overruns atoi i (part ∷ parts) ids h many = elim (Bool-cases (ltb i max_source_ids)) [
  | inr full ↦ rw full refl
  | inl room ↦ rw room (
      store_ids_overruns atoi (suc i) parts (set_nth ids i (atoi part)) (ground (arith, room))
        (omega (arith, many)))
]

-- The loop on the whole array, as a test of the number of ids.
pub store_ids-bounded :
    (atoi : List ℕ → ℤ) (parts : List (List ℕ)) (ids : List ℤ)
    → length ids ≡ max_source_ids
    → store_ids atoi 0 parts ids ≡ (
        if leb (length parts) max_source_ids
        then ok (map_ids atoi parts ++ drop (length parts) ids)
        else fault overrun)
store_ids-bounded atoi parts ids all = elim (Bool-cases (leb (length parts) max_source_ids)) [
  | inl few ↦
      rw few (store_ids_fits atoi parts [] ids (omega (arith, all)) (ground (arith, few, all)))
  | inr many ↦ rw many (store_ids_overruns atoi 0 parts ids (omega arith) (ground (arith, many)))
]

-- Up to 1024 ids between commas stand at the begin of the array, in their order, and their number is
-- kept. With more of them the array is overrun.
pub read_ids-bounded :
    (atoi : List ℕ → ℤ) (val : List ℕ) (e : Engine)
    → length e.ids ≡ max_source_ids
    → read_ids atoi val e ≡ (
        if leb (length (split val 44)) max_source_ids
        then ok (record e {
          ids = map_ids atoi (split val 44) ++ drop (length (split val 44)) e.ids;
          id_count = length (split val 44);
        })
        else fault overrun)
unfolding read_ids
read_ids-bounded atoi val e all =
    rw (store_ids-bounded atoi (split val 44) e.ids all) (ground arith)
