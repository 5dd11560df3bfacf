-- ===== src/Packetize/Chunks.antt =====
-- The independent description of what goes out: the data cut into chunks, and one datagram a chunk.
use ersap_ejfat.Base.{
  ℕ, zero, suc, ◌≤◌, ◌<◌, ◌≡◌, refl, ap, ◌∙◌, Bool, true, false, ◌&&◌, List, [], ◌∷◌, ◌++◌, length,
  take, drop, flatten, take-append-drop, length-drop, length-take-le, arith,
}
use ersap_ejfat.Packetize.{Settings, datagram, incr_32}

-- Every chunk holds between 1 and `m` bytes.
abbrev pub AllSized : ℕ → List (List ℕ) → Type 0
AllSized m [] = Unit {0}
AllSized m (x ∷ xs) = (0 < length x) × (length x ≤ m) × AllSized m xs

abbrev pub is_empty {ℓ} : {A : Type ℓ} → List A → Bool
is_empty [] = true
is_empty (_ ∷ _) = false

-- The datagrams for a list of chunks: sequence numbers from `sequence` on, the first bit on the
-- first one if `first`, the last bit on the last one if the settings say that this buffer is last.
unfoldable pub datagrams_of : Settings → Bool → ℕ → List (List ℕ) → List (List ℕ)
datagrams_of c first sequence [] = []
datagrams_of c first sequence (x ∷ xs) =
    datagram c first (is_empty xs && c.last_buffer) sequence x
    ∷ datagrams_of c false (incr_32 sequence) xs

-- The offset behind a list of chunks.
abbrev pub offset_after : ℕ → List (List ℕ) → ℕ
offset_after sequence [] = sequence
offset_after sequence (x ∷ xs) = offset_after (incr_32 sequence) xs

-- A buffer in chunks of `m` bytes, the last one of what is left; the first argument bounds their
-- number.
unfoldable pub chunks : ℕ → ℕ → List ℕ → List (List ℕ)
chunks zero m bytes = []
chunks (suc n) m [] = []
chunks (suc n) m (b ∷ bytes) = take m (b ∷ bytes) ∷ chunks n m (drop m (b ∷ bytes))

pub flatten-chunks :
    (n m : ℕ) (bytes : List ℕ) → 0 < m → length bytes ≤ n → flatten (chunks n m bytes) ≡ bytes
unfolding chunks
flatten-chunks zero m [] h le = refl
flatten-chunks zero m (x ∷ bytes) h le = absurd (omega arith)
flatten-chunks (suc n) m [] h le = refl
flatten-chunks (suc n) m (x ∷ bytes) h le =
    ap (◌++◌ (take m (x ∷ bytes)))
      (flatten-chunks n m (drop m (x ∷ bytes)) h (omega (arith, length-drop m (x ∷ bytes))))
    ∙ take-append-drop m (x ∷ bytes)

take_nonempty : (m : ℕ) (b : ℕ) (bytes : List ℕ) → 0 < m → 0 < length (take m (b ∷ bytes))
take_nonempty zero b bytes h = absurd (omega arith)
take_nonempty (suc m) b bytes h = omega arith

pub chunks-AllSized : (n m : ℕ) (bytes : List ℕ) → 0 < m → AllSized m (chunks n m bytes)
unfolding chunks
chunks-AllSized zero m bytes h = tt
chunks-AllSized (suc n) m [] h = tt
chunks-AllSized (suc n) m (b ∷ bytes) h = (
  take_nonempty m b bytes h,
  length-take-le m (b ∷ bytes),
  chunks-AllSized n m (drop m (b ∷ bytes)) h,
)

-- More rounds than bytes change nothing.
pub chunks_enough :
    (n k m : ℕ) (bytes : List ℕ)
    → 0 < m
    → length bytes ≤ n
    → length bytes ≤ k
    → chunks n m bytes ≡ chunks k m bytes
unfolding chunks
chunks_enough zero zero m [] h p q = refl
chunks_enough zero (suc k) m [] h p q = refl
chunks_enough (suc n) zero m [] h p q = refl
chunks_enough (suc n) (suc k) m [] h p q = refl
chunks_enough zero k m (b ∷ bytes) h p q = absurd (omega arith)
chunks_enough (suc n) zero m (b ∷ bytes) h p q = absurd (omega arith)
chunks_enough (suc n) (suc k) m (b ∷ bytes) h p q = ap (◌∷◌ (take m (b ∷ bytes))) (
    chunks_enough n k m (drop m (b ∷ bytes)) h (omega (arith, length-drop m (b ∷ bytes)))
      (omega (arith, length-drop m (b ∷ bytes))))

pub chunks-nil : (n m : ℕ) → chunks n m [] ≡ []
unfolding chunks
chunks-nil zero m = refl
chunks-nil (suc n) m = refl
