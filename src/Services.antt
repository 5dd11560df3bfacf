-- ===== src/Services.antt =====
-- The services of ejfat/services/src/main/cpp/: adapters that ERSAP configures with a JSON text and calls
-- with data. The JSON functions of the ERSAP library are a parameter.
pub mod Configure
pub mod Packetizer
pub mod Sources
pub mod Assembler
mod RoundTrip
pub mod ByteBuffer
mod Delivery
mod Tests
use ersap_ejfat.Base.{ℕ, Bool, Option, none, some, List, if◌then◌else◌, ℤ}

-- `parse_json(input)` with `has_key`, `get_string`, `get_int` and `get_bool`; `none` is an exception.
pub record Json : Type 0 where
  pub has_key : List ℕ → Bool
  pub get_string : List ℕ → Option (List ℕ)
  pub get_int : List ℕ → Option ℤ
  pub get_bool : List ℕ → Option Bool

-- The next value, unless an exception leaves the function.
infixl 5 ◌>>=◌
abbrev pub ◌>>=◌ {ℓ κ} : {A : Type ℓ} {B : Type κ} → Option A → (A → Option B) → Option B
m >>= rest = elim m [ none ↦ none | some a ↦ rest a ]

abbrev pub pure {ℓ} : {A : Type ℓ} → A → Option A
pure a = some a

-- `if (has_key(config, key)) x = get(config, key)`
abbrev pub optional {ℓ} : {A : Type ℓ} → Json → (List ℕ → Option A) → List ℕ → A → Option A
optional config get key default = if config.has_key key then get key else some default
