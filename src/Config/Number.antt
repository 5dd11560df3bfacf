-- ===== src/Config/Number.antt =====
-- Numbers in a configuration file: `strtol` with its errno, the casts, and the defaults.
use ersap_ejfat.Base.{
  ℕ, ◌-◌, ◌%◌, ◌^◌, Bool, true, false, ◌&&◌, ◌||◌, List, [], ◌∷◌, ltb, ◌==◌, if◌then◌else◌, ℤ, pos,
  negsuc,
}

-- `strtol(val, nullptr, 10)`: the value of a text, and errno behind the call, given errno before it.
-- The library sets errno only on an error.
abbrev pub Strtol : Type 0
Strtol = List ℕ → ℕ → ℤ × ℕ

abbrev pub einval : ℕ
einval = 22

abbrev pub erange : ℕ
erange = 34

-- A `long` as an unsigned integer of `w` bits.
abbrev pub to_unsigned : ℕ → ℤ → ℕ
to_unsigned w (pos n) = n % 2 ^ w
to_unsigned w (negsuc n) = 2 ^ w - 1 - n % 2 ^ w

-- As an int.
abbrev pub to_int : ℤ → ℤ
to_int z = let n = to_unsigned 32 z in if ltb n (2 ^ 31) then pos n else negsuc (2 ^ 32 - 1 - n)

abbrev pub is_zero : ℤ → Bool
is_zero (pos n) = n == 0
is_zero (negsuc n) = false

-- `x == 0 && (errno == EINVAL || errno == ERANGE)`
abbrev pub is_bad : Bool → ℕ → Bool
is_bad zero errno = zero && (errno == einval || errno == erange)

abbrev pub unsigned_or : ℕ → ℕ → ℤ × ℕ → ℕ
unsigned_or w default r = let n = to_unsigned w r.0 in if is_bad (n == 0) r.1 then default else n

abbrev pub int_or : ℤ → ℤ × ℕ → ℤ
int_or default r = let n = to_int r.0 in if is_bad (is_zero n) r.1 then default else n

-- `==` on strings.
abbrev pub same : List ℕ → List ℕ → Bool
same [] [] = true
same [] (d ∷ ds) = false
same (c ∷ cs) [] = false
same (c ∷ cs) (d ∷ ds) = let rest = same cs ds in c == d && rest

abbrev pub says_true : List ℕ → Bool
says_true val = same val (b't' ∷ b'r' ∷ b'u' ∷ b'e' ∷ []) || same val (b'o' ∷ b'n' ∷ [])
