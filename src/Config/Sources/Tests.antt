-- ===== src/Config/Sources/Tests.antt =====
-- The ids 1 and 2, and a fifo without ids.
use ersap_ejfat.Base.{
  ℕ, zero, suc, ◌-◌, ◌≡◌, ◌≢◌, refl, false, some, List, [], ◌∷◌, ◌++◌, length, replicate, drop, leb,
  if◌then◌else◌, ℤ, pos, negsuc, arith,
}
use ersap_ejfat.Base.Memory.{ok, fault, overrun}
use ersap_ejfat.Config.{split_from, split}
use ersap_ejfat.EtAssemble.Erased.{undefined}
use ersap_ejfat.EtAssemble.{returned, get_buffers}
use ersap_ejfat.Config.Sources.{max_source_ids, Engine, read_ids, finished, process}
use ersap_ejfat.Config.Sources.Ids.{map_ids, read_ids-bounded}
use ersap_ejfat.Config.Sources.Never.{process_never_returns}

abbrev pub atoi : List ℕ → ℤ
atoi [] = pos 0
atoi (c ∷ cs) = pos (c - 48)

abbrev pub no_ids : Engine
no_ids = record {
  port = 7777;
  et_name = [];
  ids = replicate 1024 (pos 0);
  id_count = 0;
  debug = false;
}

pub length-array : (n : ℕ) → length {A = ℤ} (replicate n (pos 0)) ≡ n
length-array zero = refl
length-array (suc n) = let h = length-array n in omega arith

abbrev one_two : List ℕ
one_two = b'1' ∷ b',' ∷ b'2' ∷ []

two_parts : split one_two 44 ≡ (b'1' ∷ []) ∷ (b'2' ∷ []) ∷ []
unfolding split_from
two_parts = refl

read_ids-bounded_example : read_ids atoi one_two no_ids ≡ (
    if leb (length (split one_two 44)) max_source_ids
    then ok (record no_ids {
      ids = map_ids atoi (split one_two 44) ++ drop (length (split one_two 44)) no_ids.ids;
      id_count = length (split one_two 44);
    })
    else fault overrun)
read_ids-bounded_example = read_ids-bounded atoi one_two no_ids (length-array 1024)

refuses : get_buffers undefined 9984 (pos 0) (some []) [] ≡ ok ([], returned (negsuc 0))
unfolding get_buffers
refuses = refl

process_never_returns_example : process (returned (negsuc 0)) ≢ finished
process_never_returns_example =
    process_never_returns undefined 9984 (pos 0) (some []) [] ([], returned (negsuc 0)) refuses
