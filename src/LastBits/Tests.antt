-- ===== src/LastBits/Tests.antt =====
-- Two sources and one tick or two.
use ersap_ejfat.Base.{◌≡◌, true, false, [], ◌∷◌, refl, arith}
use ersap_ejfat.LastBits.{
  EndCondition, AnsweredOr, all_last_bits_received, check_tick, erase_tick,
  all_last_bits_received-AnsweredOr, all_last_bits_received_early, all_last_bits_received_zero,
}

abbrev both : EndCondition
both = ((7, 1), true) ∷ ((7, 2), true) ∷ []

completes : all_last_bits_received 7 (1 ∷ 2 ∷ []) both ≡ (true, [])
unfolding all_last_bits_received check_tick erase_tick
completes = refl

all_last_bits_received-AnsweredOr_example :
    AnsweredOr 7 (1 ∷ 2 ∷ []) both (all_last_bits_received 7 (1 ∷ 2 ∷ []) both)
all_last_bits_received-AnsweredOr_example = all_last_bits_received-AnsweredOr 7 (1 ∷ 2 ∷ []) both

all_last_bits_received_early_example :
    all_last_bits_received 7 (1 ∷ 2 ∷ []) (((7, 1), true) ∷ ((8, 1), true) ∷ [])
    ≡ (true, ((8, 1), true) ∷ [])
all_last_bits_received_early_example =
    all_last_bits_received_early 7 8 1 2 (omega arith) (omega arith) (omega arith)

all_last_bits_received_zero_example :
    all_last_bits_received 7 (0 ∷ 2 ∷ []) (((7, 0), true) ∷ ((7, 2), true) ∷ [])
    ≡ (false, ((7, 0), true) ∷ ((7, 2), true) ∷ [])
all_last_bits_received_zero_example =
    all_last_bits_received_zero 7 2 true (0 ∷ 2 ∷ []) (((7, 0), true) ∷ ((7, 2), true) ∷ [])
      (omega arith) refl refl
