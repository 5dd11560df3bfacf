-- ===== src/Base/Memory.antt =====
-- Memory as lists of bytes, with the accesses that C leaves undefined as faults.
use Prim.Native.Nat.{ℕ, ◌+◌, ◌≤◌, ◌<◌}
use mathlib.Core.Path.{◌≡◌, refl, sym, ap, ◌∙◌}
use mathlib.Core.List.{List, ◌++◌, append_assoc}
use mathlib.Core.Logic.{◌⊎◌, inl, inr}
use native.Mathlib.Omega.{arith}
use ersap_ejfat.Base.Tests.{leb, if◌then◌else◌}
use ersap_ejfat.Base.Lists.{
  length, take, drop, length-append, take-append, drop-append, length-take, length-drop,
}

pub data Fault : Type 0 where
  overrun overread use_after_free double_free out_of_fuel : Fault

-- What a piece of the program gives: undefined behaviour, or a value.
pub data Run {ℓ} (A : Type ℓ) : Type ℓ where
  fault : Fault → Run A
  ok : A → Run A

-- The rest of the program is not reached after undefined behaviour.
infixl 5 ◌>>=◌
abbrev pub ◌>>=◌ {ℓ κ} : {A : Type ℓ} {B : Type κ} → Run A → (A → Run B) → Run B
m >>= rest = elim m [ fault e ↦ fault e | ok a ↦ rest a ]

pub Run-cases {ℓ} :
    {A : Type ℓ} (m : Run A) → ((a : A) × (m ≡ ok a)) ⊎ ((e : Fault) × (m ≡ fault e))
Run-cases (ok a) = inl (a, refl)
Run-cases (fault e) = inr (e, refl)

-- `memcpy` of `bytes` into a block, to position `at`.
unfoldable pub write : List ℕ → ℕ → List ℕ → Run (List ℕ)
write block at bytes =
    if leb (at + length bytes) (length block)
    then ok (take at block ++ (bytes ++ drop (at + length bytes) block))
    else fault overrun

-- `memcpy` of `n` bytes out of a block, from position `at`.
unfoldable pub slice : List ℕ → ℕ → ℕ → Run (List ℕ)
slice block at n =
    if leb (at + n) (length block) then ok (take n (drop at block)) else fault overread

-- A write inside the block: what stood before it stays, and it is followed by the bytes.
pub write_fits :
    (block : List ℕ) (at : ℕ) (bytes : List ℕ)
    → at + length bytes ≤ length block
    → write block at bytes ≡ ok (take at block ++ (bytes ++ drop (at + length bytes) block))
unfolding write
write_fits block at bytes h = ground arith

-- A write that does not fit.
pub write_outside :
    (block : List ℕ) (at : ℕ) (bytes : List ℕ)
    → length block < at + length bytes
    → write block at bytes ≡ fault overrun
unfolding write
write_outside block at bytes h = ground arith

pub write-eq-ok :
    (block : List ℕ) (at : ℕ) (bytes : List ℕ) {b : List ℕ}
    → write block at bytes ≡ ok b
    → (at + length bytes ≤ length block)
      × (b ≡ take at block ++ (bytes ++ drop (at + length bytes) block))
unfolding write
write-eq-ok block at bytes h = ground arith

pub slice-eq-ok :
    (block : List ℕ) (at n : ℕ) {b : List ℕ}
    → slice block at n ≡ ok b
    → (at + n ≤ length block) × (b ≡ take n (drop at block))
unfolding slice
slice-eq-ok block at n h = ground arith

pub slice_fits :
    (block : List ℕ) (at n : ℕ)
    → at + n ≤ length block
    → slice block at n ≡ ok (take n (drop at block))
unfolding slice
slice_fits block at n h = ground arith

-- A read past the end.
pub slice_outside :
    (block : List ℕ) (at n : ℕ) → length block < at + n → slice block at n ≡ fault overread
unfolding slice
slice_outside block at n h = ground arith

-- The block after a write inside it.
module _ (block : List ℕ) (at : ℕ) (bytes : List ℕ) (h : at + length bytes ≤ length block) where
  pub length-write :
      length (take at block ++ (bytes ++ drop (at + length bytes) block)) ≡ length block
  length-write = omega (
    arith,
    length-append {0} (take at block) (bytes ++ drop (at + length bytes) block),
    length-append {0} bytes (drop (at + length bytes) block),
    length-take {0} at block (omega arith),
    length-drop {0} (at + length bytes) block,
  )

  pub take-write_before :
      take at (take at block ++ (bytes ++ drop (at + length bytes) block)) ≡ take at block
  take-write_before = take-append (take at block) _ at (sym (length-take at block (omega arith)))

  pub take-write_through :
      (n : ℕ)
      → n ≡ at + length bytes
      → take n (take at block ++ (bytes ++ drop (at + length bytes) block)) ≡ take at block ++ bytes
  take-write_through n e =
      ap (take n) (sym (append_assoc (take at block) bytes (drop (at + length bytes) block)))
      ∙ take-append (take at block ++ bytes) _ n (
          omega (
            arith,
            length-append {0} (take at block) bytes,
            length-take {0} at block (omega arith),
          ))

  pub slice_write :
      drop at (take at block ++ (bytes ++ drop (at + length bytes) block))
      ≡ bytes ++ drop (at + length bytes) block
  slice_write = drop-append (take at block) _ at (sym (length-take at block (omega arith)))
