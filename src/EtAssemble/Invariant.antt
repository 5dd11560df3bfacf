-- ===== src/EtAssemble/Invariant.antt =====
-- What holds between two packets of `getBuffers`: the buffer of every source holds the chunks of its
-- message up to the next expected one.
use ersap_ejfat.Base.{
  ℕ, suc, ◌+◌, ◌^◌, ◌<◌, ◌≤◌, ◌≡◌, refl, sym, ap, ◌∙◌, Bool, none, some, List, ◌++◌, ◌==◌, length,
  take, get_elem?, get_elem?-lt, length-append, take-suc, flatten, flatten-concat, arith,
}
use ersap_ejfat.Base.Memory.{ok, write, write-eq-ok, length-write, take-write_through}
use ersap_ejfat.LastBits.{find}
use ersap_ejfat.EtAssemble.Maps.{Buf, Entry, Held, Tables}
use ersap_ejfat.EtAssemble.Keys.{KeysOnce, AllHeld}
use ersap_ejfat.EtAssemble.Inner.{Place}

-- `xs t i` are the chunks of the message of source `i` for tick `t`; `Src t i` says that there is one.
module _ (buf_size : ℕ) (xs : ℕ → ℕ → List (List ℕ)) (Src : ℕ → ℕ → Type 0) where
  -- A buffer with the first `k` chunks.
  pub record Content (t i k : ℕ) (b : Buf) : Type 0 where
    pub upto : k ≤ length (xs t i)
    pub counted : b.written ≡ length (flatten (take k (xs t i)))
    pub holds : take b.written b.block ≡ flatten (take k (xs t i))
    pub inside : b.written ≤ length b.block
    pub sized : length b.block ≡ buf_size

  pub record IsHeld (h : Held) : Type 0 where
    pub chunk_is : get_elem? (xs h.tick h.data_id) h.sequence ≡ some h.bytes
    pub last_is : h.last ≡ (suc h.sequence == length (xs h.tick h.data_id))
    pub src : Src h.tick h.data_id
    pub few : length (xs h.tick h.data_id) < 2 ^ 32
    pub short : length h.bytes < 2 ^ 63

  pub record Inv (s : Tables) : Type 0 where
    pub content :
        (t : ℕ) (e : Entry)
        → s.buffers t ≡ some e
        → (i : ℕ) → Content t i (s.exp_sequence t i) (e i)
    pub unused : (t : ℕ) → s.buffers t ≡ none → (i : ℕ) → s.exp_sequence t i ≡ 0
    pub held_are : AllHeld IsHeld s.held
    pub ends :
        (t i : ℕ) (last : Bool)
        → find t i s.end_condition ≡ some last
        → s.exp_sequence t i ≡ length (xs t i)
    pub keys : KeysOnce Src s.end_condition

  -- The variables for a packet agree with the maps.
  pub record At (s : Tables) (p : Place) : Type 0 where
    pub buffer_is : s.buffers p.tick ≡ some p.entry
    pub expected_is : p.expected ≡ s.exp_sequence p.tick p.data_id
    pub total_is : p.total ≡ (p.entry p.data_id).written

  -- The packet that is expected there.
  pub record Chunk (p : Place) (last : Bool) (bytes : List ℕ) : Type 0 where
    pub chunk_is : get_elem? (xs p.tick p.data_id) p.expected ≡ some bytes
    pub last_is : last ≡ (suc p.expected == length (xs p.tick p.data_id))
    pub src : Src p.tick p.data_id
    pub few : length (xs p.tick p.data_id) < 2 ^ 32

  -- One more chunk behind those that are there.
  pub Content-write :
      (t i k : ℕ) (b : Buf) (bytes block : List ℕ)
      → Content t i k b
      → get_elem? (xs t i) k ≡ some bytes
      → write b.block b.written bytes ≡ ok block
      → Content t i (k + 1) (record { block = block; written = b.written + length bytes })
  Content-write t i k b bytes block c g w =
      let (room, same) = write-eq-ok b.block b.written bytes w in
      let more : flatten (take (k + 1) (xs t i)) ≡ flatten (take k (xs t i)) ++ bytes =
        ap flatten (take-suc k (xs t i) bytes g) ∙ flatten-concat (take k (xs t i)) bytes in
      let long : length block ≡ length b.block =
        ap (λ (m : List ℕ). length m) same ∙ length-write b.block b.written bytes room in
      record {
        upto = omega (arith, get_elem?-lt (xs t i) k g);
        counted = omega (
          arith,
          c.counted,
          ap (λ (m : List ℕ). length m) more,
          length-append {0} (flatten (take k (xs t i))) bytes,
        );
        holds =
            ap (take (b.written + length bytes)) same
            ∙ take-write_through b.block b.written bytes room (b.written + length bytes) refl
            ∙ ap (λ m. m ++ bytes) c.holds
            ∙ sym more;
        inside = omega (arith, room, long);
        sized = long ∙ c.sized;
      }
