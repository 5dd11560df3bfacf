-- ===== src/Assemble/Store.antt =====
-- The map of out-of-order packets, `std::map` from sequence numbers, kept in ascending order. A
-- stored packet owns a block of `malloc`, which is freed at most once.
use ersap_ejfat.Base.{ℕ, Bool, false, List, [], ◌∷◌, ltb, ◌==◌, if◌then◌else◌}
use ersap_ejfat.Base.Memory.{double_free, Run, ok, fault, ◌>>=◌}

-- The value of the map: the block and its length, the two bits, and whether the block is allocated.
pub record Stored : Type 0 where
  pub block : List ℕ
  pub n_bytes : ℕ
  pub last : Bool
  pub first : Bool
  pub live : Bool

abbrev pub Store : Type 0
Store = List (ℕ × Stored)

-- `emplace`: a key that is there keeps its value, and the new block is leaked.
unfoldable pub emplace : ℕ → Stored → Store → Store
emplace k v [] = (k, v) ∷ []
emplace k v ((j, w) ∷ m) =
    if ltb k j then (k, v) ∷ (j, w) ∷ m else if k == j then (j, w) ∷ m else (j, w) ∷ emplace k v m

-- `freeMap` frees every block and leaves the entries in the map.
unfoldable pub free_map : Store → Run Store
free_map [] = ok []
free_map ((k, v) ∷ m) =
    if v.live
    then (free_map m >>= λ m'. ok ((k, record v { live = false }) ∷ m'))
    else fault double_free
