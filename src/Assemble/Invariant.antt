-- ===== src/Assemble/Invariant.antt =====
-- What holds between the rounds of `getPacketizedBuffer` while one message arrives: the buffer up to
-- `putDataAt` holds the chunks from the first expected one on, and every stored packet is one of the
-- message.
use ersap_ejfat.Base.{
  ℕ, suc, ◌+◌, ◌≤◌, ◌≡◌, List, [], ◌∷◌, some, ◌==◌, length, take, drop, get_elem?, flatten, between,
  arith,
}
use ersap_ejfat.Assemble.Store.{Stored, Store, emplace}
use ersap_ejfat.Assemble.Loop.{Locals}

module _ (xs : List (List ℕ)) where
  -- An entry under key `k` is packet `k` of the message.
  pub record IsStored (k : ℕ) (v : Stored) : Type 0 where
    pub chunk_is : get_elem? xs k ≡ some v.block
    pub size_is : v.n_bytes ≡ length v.block
    pub last_is : v.last ≡ (suc k == length xs)
    pub first_is : v.first ≡ (k == 0)

  abbrev pub AllStored : Store → Type 0
  AllStored [] = Unit {0}
  AllStored ((k, v) ∷ m) = IsStored k v × AllStored m

  pub emplace-AllStored :
      (k : ℕ) (v : Stored) (m : Store) → IsStored k v → AllStored m → AllStored (emplace k v m)
  unfolding emplace
  emplace-AllStored k v [] h a = (h, tt)
  emplace-AllStored k v ((j, w) ∷ m) h a = ground (arith, emplace-AllStored k v m h a.1)

-- Between two rounds, for a call that began at sequence number `b`, on a block of `len` bytes.
pub record Inv (xs : List (List ℕ)) (b len : ℕ) (s : Locals) : Type 0 where
  pub from : b ≤ s.expected_sequence
  pub upto : s.expected_sequence ≤ length xs
  pub inside : s.put_data_at ≤ length s.mem
  pub sized : length s.mem ≡ len
  pub total : s.total_bytes_read ≡ s.put_data_at
  pub written : take s.put_data_at s.mem ≡ flatten (between b s.expected_sequence xs)

-- A packet is at hand: the expected one, whose chunk stands at `putDataAt`.
pub record Current (xs : List (List ℕ)) (b len : ℕ) (s : Locals) (n : ℕ) (chunk : List ℕ)
    : Type 0 where
  pub inv : Inv xs b len s
  pub chunk_is : get_elem? xs s.expected_sequence ≡ some chunk
  pub size_is : n ≡ length chunk
  pub fits : s.put_data_at + n ≤ length s.mem
  pub placed : take n (drop s.put_data_at s.mem) ≡ chunk
  pub last_is : s.packet_last ≡ (suc s.expected_sequence == length xs)
