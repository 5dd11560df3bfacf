-- ===== src/Config/Tests.antt =====
-- The line "mtu : 9 " and lines that are not of that form.
use ersap_ejfat.Base.{ℕ, ◌≡◌, refl, List, [], ◌∷◌, ◌++◌}
use ersap_ejfat.Base.Memory.{ok, fault, overread}
use ersap_ejfat.Config.{
  split_from, skip_spaces, cut_spaces, trim, IsTrimmed, colon, key_value, line_fields,
  line_fields-IsTrimmed, line_fields_no_colon,
}

abbrev more_key : List ℕ
more_key = 116 ∷ 117 ∷ 32 ∷ []

abbrev more_value : List ℕ
more_value = 57 ∷ 32 ∷ []

reads_mtu :
    line_fields ((109 ∷ more_key) ++ (colon ∷ (32 ∷ more_value)))
    ≡ ok (109 ∷ 116 ∷ 117 ∷ [], 57 ∷ [])
unfolding key_value split_from trim skip_spaces cut_spaces
reads_mtu = refl

-- With nothing behind the colon there is no second part either.
misses_value : line_fields (109 ∷ colon ∷ []) ≡ fault overread
unfolding key_value split_from
misses_value = refl

line_fields-IsTrimmed_example :
    (k : List ℕ) × (v : List ℕ) × (line_fields ((109 ∷ more_key) ++ (colon ∷ (32 ∷ more_value)))
      ≡ ok (k, v))
    × IsTrimmed (109 ∷ more_key) k
    × IsTrimmed (32 ∷ more_value) v
line_fields-IsTrimmed_example =
    line_fields-IsTrimmed 109 more_key 32 more_value (refl, (refl, (refl, (refl, tt))))
      (refl, (refl, (refl, tt)))

line_fields_no_colon_example : line_fields (109 ∷ more_key) ≡ fault overread
line_fields_no_colon_example =
    line_fields_no_colon (109 ∷ more_key) (refl, (refl, (refl, (refl, tt))))
