-- ===== src/Wire/Bytes.antt =====
-- The byte swaps bswap_16, bswap_32 and bswap_64, the macros htonll and ntohll, and what a store
-- through an integer pointer leaves in memory. The operands of each `|` in the source share no bit,
-- so it is written `+`. On this host htons and htonl swap bytes, as the C library documents.
use ersap_ejfat.Base.{
  ℕ, zero, suc, ◌+◌, ◌*◌, ◌/◌, ◌%◌, ◌^◌, ◌<◌, ◌≡◌, refl, List, [], ◌∷◌, ◌++◌, length, ap, ap₂, ◌∙◌,
  arith,
}

unfoldable pub bswap_16 : ℕ → ℕ
bswap_16 x = x / 2 ^ 8 + x * 2 ^ 8 % 2 ^ 16

unfoldable pub bswap_32 : ℕ → ℕ
unfolding bswap_16
bswap_32 x = bswap_16 (x % 2 ^ 16) * 2 ^ 16 + bswap_16 (x / 2 ^ 16)

unfoldable pub bswap_64 : ℕ → ℕ
unfolding bswap_32
bswap_64 x = bswap_32 (x % 2 ^ 32) * 2 ^ 32 + bswap_32 (x / 2 ^ 32)

unfoldable pub htons : ℕ → ℕ
unfolding bswap_16
htons x = bswap_16 x

unfoldable pub htonl : ℕ → ℕ
unfolding bswap_32
htonl x = bswap_32 x

-- The macro's other branch is for hosts where `htonl(1)` is 1.
unfoldable pub htonll : ℕ → ℕ
unfolding htonl
htonll x = htonl (x % 2 ^ 32) * 2 ^ 32 + htonl (x / 2 ^ 32)

unfoldable pub ntohs : ℕ → ℕ
unfolding bswap_16
ntohs x = bswap_16 x

unfoldable pub ntohl : ℕ → ℕ
unfolding bswap_32
ntohl x = bswap_32 x

unfoldable pub ntohll : ℕ → ℕ
unfolding ntohl
ntohll x = ntohl (x % 2 ^ 32) * 2 ^ 32 + ntohl (x / 2 ^ 32)

-- The bytes of an `n`-byte integer in memory, and the integer that bytes in memory stand for.
unfoldable pub store : ℕ → ℕ → List ℕ
store zero x = []
store (suc n) x = x % 256 ∷ store n (x / 256)

unfoldable pub load : List ℕ → ℕ
load [] = 0
load (b ∷ bs) = b + 256 * load bs

pub length-store : (n x : ℕ) → length (store n x) ≡ n
unfolding store
length-store zero x = refl
length-store (suc n) x = ap suc (length-store n (x / 256))

-- Bytes with the high byte first: network order.
unfoldable pub network_order : ℕ → ℕ → List ℕ
network_order zero x = []
network_order (suc n) x = x / 256 ^ n % 256 ∷ network_order n x

bswap_16-lt : (x : ℕ) → x < 2 ^ 16 → bswap_16 x < 2 ^ 16
unfolding bswap_16
bswap_16-lt x h = omega arith

bswap_16-bswap_16 : (x : ℕ) → x < 2 ^ 16 → bswap_16 (bswap_16 x) ≡ x
unfolding bswap_16
bswap_16-bswap_16 x h = omega arith

bswap_32-lt : (x : ℕ) → x < 2 ^ 32 → bswap_32 x < 2 ^ 32
unfolding bswap_32
bswap_32-lt x h =
    omega (arith, bswap_16-lt (x % 2 ^ 16) (omega arith), bswap_16-lt (x / 2 ^ 16) (omega arith))

pub bswap_32-bswap_32 : (x : ℕ) → x < 2 ^ 32 → bswap_32 (bswap_32 x) ≡ x
bswap_32-bswap_32 x h =
    let lo = bswap_16-lt (x / 2 ^ 16) (omega arith) in
    let hi = bswap_16-lt (x % 2 ^ 16) (omega arith) in
    let low : bswap_32 x % 2 ^ 16 ≡ bswap_16 (x / 2 ^ 16) = unfold bswap_32 in omega arith in
    let high : bswap_32 x / 2 ^ 16 ≡ bswap_16 (x % 2 ^ 16) = unfold bswap_32 in omega arith in
    let swapped : bswap_32 (bswap_32 x)
        ≡ bswap_16 (bswap_32 x % 2 ^ 16) * 2 ^ 16 + bswap_16 (bswap_32 x / 2 ^ 16) =
      unfold bswap_32 in refl in
    omega (
      arith,
      swapped,
      ap bswap_16 low,
      ap bswap_16 high,
      bswap_16-bswap_16 (x / 2 ^ 16) (omega arith),
      bswap_16-bswap_16 (x % 2 ^ 16) (omega arith),
    )

pub ntohs-htons : (x : ℕ) → x < 2 ^ 16 → ntohs (htons x) ≡ x
unfolding ntohs htons
ntohs-htons x h = bswap_16-bswap_16 x h

pub htons-lt : (x : ℕ) → x < 2 ^ 16 → htons x < 2 ^ 16
unfolding htons
htons-lt x h = bswap_16-lt x h

pub ntohl-htonl : (x : ℕ) → x < 2 ^ 32 → ntohl (htonl x) ≡ x
unfolding ntohl htonl
ntohl-htonl x h = bswap_32-bswap_32 x h

pub htonl-lt : (x : ℕ) → x < 2 ^ 32 → htonl x < 2 ^ 32
unfolding htonl
htonl-lt x h = bswap_32-lt x h

pub htonll-lt : (x : ℕ) → x < 2 ^ 64 → htonll x < 2 ^ 64
unfolding htonll
htonll-lt x h =
    omega (arith, htonl-lt (x % 2 ^ 32) (omega arith), htonl-lt (x / 2 ^ 32) (omega arith))

pub ntohll-htonll : (x : ℕ) → x < 2 ^ 64 → ntohll (htonll x) ≡ x
ntohll-htonll x h =
    let lo = htonl-lt (x / 2 ^ 32) (omega arith) in
    let hi = htonl-lt (x % 2 ^ 32) (omega arith) in
    let low : htonll x % 2 ^ 32 ≡ htonl (x / 2 ^ 32) = unfold htonll in omega arith in
    let high : htonll x / 2 ^ 32 ≡ htonl (x % 2 ^ 32) = unfold htonll in omega arith in
    let swapped : ntohll (htonll x)
        ≡ ntohl (htonll x % 2 ^ 32) * 2 ^ 32 + ntohl (htonll x / 2 ^ 32) =
      unfold ntohll in refl in
    omega (
      arith,
      swapped,
      ap ntohl low,
      ap ntohl high,
      ntohl-htonl (x / 2 ^ 32) (omega arith),
      ntohl-htonl (x % 2 ^ 32) (omega arith),
    )

-- A load reads back what a store of the same width wrote.
pub load-store-2 : (x : ℕ) → x < 2 ^ 16 → load (store 2 x) ≡ x
unfolding load store
load-store-2 x h = omega arith

pub load-store-4 : (x : ℕ) → x < 2 ^ 32 → load (store 4 x) ≡ x
unfolding load store
load-store-4 x h = omega arith

pub load-store-8 : (x : ℕ) → x < 2 ^ 64 → load (store 8 x) ≡ x
unfolding load store
load-store-8 x h = omega arith

store-bswap_16 : (x : ℕ) → x < 2 ^ 16 → store 2 (bswap_16 x) ≡ network_order 2 x
unfolding store bswap_16 network_order
store-bswap_16 x h = ground arith

store_halves-4 : (a b : ℕ) → b < 2 ^ 16 → store 4 (a * 2 ^ 16 + b) ≡ store 2 b ++ store 2 a
unfolding store
store_halves-4 a b h = ground arith

network_order_halves-4 :
    (x : ℕ) → network_order 2 (x / 2 ^ 16) ++ network_order 2 (x % 2 ^ 16) ≡ network_order 4 x
unfolding network_order
network_order_halves-4 x = ground arith

store-htonl : (x : ℕ) → x < 2 ^ 32 → store 4 (htonl x) ≡ network_order 4 x
unfolding htonl bswap_32
store-htonl x h =
    store_halves-4 (bswap_16 (x % 2 ^ 16)) (bswap_16 (x / 2 ^ 16))
      (bswap_16-lt (x / 2 ^ 16) (omega arith))
    ∙ ap₂ ◌++◌ (store-bswap_16 (x / 2 ^ 16) (omega arith))
        (store-bswap_16 (x % 2 ^ 16) (omega arith))
    ∙ network_order_halves-4 x

store_halves-8 : (a b : ℕ) → b < 2 ^ 32 → store 8 (a * 2 ^ 32 + b) ≡ store 4 b ++ store 4 a
unfolding store
store_halves-8 a b h = ground arith

network_order_halves-8 :
    (x : ℕ) → network_order 4 (x / 2 ^ 32) ++ network_order 4 (x % 2 ^ 32) ≡ network_order 8 x
unfolding network_order
network_order_halves-8 x = ground arith

store-htonll : (x : ℕ) → x < 2 ^ 64 → store 8 (htonll x) ≡ network_order 8 x
unfolding htonll
store-htonll x h =
    store_halves-8 (htonl (x % 2 ^ 32)) (htonl (x / 2 ^ 32)) (htonl-lt (x / 2 ^ 32) (omega arith))
    ∙ ap₂ ◌++◌ (store-htonl (x / 2 ^ 32) (omega arith)) (store-htonl (x % 2 ^ 32) (omega arith))
    ∙ network_order_halves-8 x

-- On this host, what `htons`, `htonl` and `htonll` give is stored in network order: the high byte
-- of the number comes first, for every number of the width.
pub store-network_order :
    (x : ℕ)
    → (x < 2 ^ 16 → store 2 (htons x) ≡ network_order 2 x)
      × (x < 2 ^ 32 → store 4 (htonl x) ≡ network_order 4 x)
      × (x < 2 ^ 64 → store 8 (htonll x) ≡ network_order 8 x)
unfolding htons
store-network_order x = (store-bswap_16 x, store-htonl x, store-htonll x)
