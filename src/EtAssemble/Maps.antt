-- ===== src/EtAssemble/Maps.antt =====
-- The maps of `getBuffers` and their operations.
use ersap_ejfat.Base.{ℕ, Bool, true, ◌&&◌, Option, none, some, List, [], ◌∷◌, ◌==◌, if◌then◌else◌}
use ersap_ejfat.LastBits.{EndCondition}

-- An ET event: the block at `pdata`, and its length, the bytes that have been written.
pub record Buf : Type 0 where
  pub block : List ℕ
  pub written : ℕ

-- A fifo entry: the buffer of each id.
abbrev pub Entry : Type 0
Entry = ℕ → Buf

-- A packet in the map of those that came too early, under the key {sequence, dataId, tick}.
pub record Held : Type 0 where
  pub sequence : ℕ
  pub data_id : ℕ
  pub tick : ℕ
  pub bytes : List ℕ
  pub last : Bool
  pub first : Bool

-- The maps: an entry for a tick, the early packets, bytes per packet for an id, the last bits, and
-- the next sequence number for a tick and an id, 0 for a new key.
pub record Tables : Type 0 where
  pub buffers : ℕ → Option Entry
  pub held : List Held
  pub bytes_per_packet : ℕ → ℕ
  pub end_condition : EndCondition
  pub exp_sequence : ℕ → ℕ → ℕ

abbrev pub set_at {ℓ} : {A : Type ℓ} → (ℕ → A) → ℕ → A → ℕ → A
set_at f k a j = if k == j then a else f j

abbrev pub set_at_2 : (ℕ → ℕ → ℕ) → ℕ → ℕ → ℕ → ℕ → ℕ → ℕ
set_at_2 f k l a i j = if k == i && l == j then a else f i j

-- `endCondition[{tick, id}] = true`
unfoldable pub set_end : ℕ → ℕ → EndCondition → EndCondition
set_end tick id [] = ((tick, id), true) ∷ []
set_end tick id (((t, i), last) ∷ m) =
    let rest = set_end tick id m in
    if tick == t && id == i then ((t, i), true) ∷ m else ((t, i), last) ∷ rest

abbrev pub has_key : ℕ → ℕ → ℕ → Held → Bool
has_key sequence id tick h = h.sequence == sequence && h.data_id == id && h.tick == tick

-- `emplace`: a key that is there keeps its value.
unfoldable pub hold : Held → List Held → List Held
hold p [] = p ∷ []
hold p (h ∷ m) =
    let rest = hold p m in if has_key p.sequence p.data_id p.tick h then h ∷ m else h ∷ rest

-- `find` and `erase`: the packet under a key, and the map without it.
unfoldable pub take_held : ℕ → ℕ → ℕ → List Held → Option (Held × List Held)
take_held sequence id tick [] = none
take_held sequence id tick (h ∷ m) =
    let rest = take_held sequence id tick m in
    if has_key sequence id tick h
    then some (h, m)
    else elim rest [ none ↦ none | some r ↦ some (r.0, h ∷ r.1) ]
