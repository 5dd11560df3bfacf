-- ===== src/Assemble/Message.antt =====
-- The datagrams of one message behind the load balancer, and what the two readers make of them.
use ersap_ejfat.Base.{
  ℕ, suc, ◌+◌, ◌%◌, ◌^◌, ◌≤◌, ◌<◌, ◌≡◌, refl, ap, ◌∙◌, List, ◌++◌, append_assoc, some, ◌==◌, length,
  take, drop, get_elem?, length-append, take-append, negsuc, arith,
}
use ersap_ejfat.Base.Memory.{ok, write, write-eq-ok, length-write, take-write_before, slice_write}
use ersap_ejfat.Wire.{ReHeader, set_re_metadata}
use ersap_ejfat.Packetize.{Settings}
use ersap_ejfat.Assemble.{Received, recv_failed, received, Read, failed, packet}

-- The settings fit the fields of the header, and the chunks their sequence numbers.
pub record Fits (c : Settings) (xs : List (List ℕ)) : Type 0 where
  pub tick_fits : c.tick < 2 ^ 64
  pub data_id_fits : c.data_id < 2 ^ 16
  pub count_fits : length xs < 2 ^ 32

-- The datagram of chunk `i` of `n`, without the header of the load balancer.
abbrev pub re_packet : Settings → ℕ → ℕ → List ℕ → List ℕ
re_packet c n i chunk = set_re_metadata (i == 0) (suc i == n) c.tick i c.version c.data_id ++ chunk

abbrev pub re_header : Settings → ℕ → ℕ → ReHeader
re_header c n i = record {
  version = c.version % 16;
  first = i == 0;
  last = suc i == n;
  data_id = c.data_id;
  sequence = i;
  tick = c.tick;
}

-- What one call of `recvfrom` may give while only this message is on its way: any of its datagrams,
-- whatever stood in the array behind it, or an error.
pub data Genuine (c : Settings) (xs : List (List ℕ)) : Received → Type 0 where
  lost : Genuine c xs recv_failed
  arrived :
      (i : ℕ) (chunk after : List ℕ) (flags : ℕ)
      → get_elem? xs i ≡ some chunk
      → Genuine c xs (received (re_packet c (length xs) i chunk) after flags)

-- A block after a read: the bytes before the position are untouched, and the chunk stands there.
pub record Filled (mem mem' : List ℕ) (at : ℕ) (chunk : List ℕ) : Type 0 where
  pub same_length : length mem' ≡ length mem
  pub room : at + length chunk ≤ length mem
  pub before : take at mem' ≡ take at mem
  pub placed : take (length chunk) (drop at mem') ≡ chunk

-- A write that begins with the chunk fills it in.
pub write-Filled :
    (mem : List ℕ) (at : ℕ) (chunk more : List ℕ) {mem' : List ℕ}
    → write mem at (chunk ++ more) ≡ ok mem'
    → Filled mem mem' at chunk
write-Filled mem at chunk more {mem'} e =
    let (h, m) = write-eq-ok mem at (chunk ++ more) e in
    let size = length-append chunk more in
    record {
      same_length = rw m (length-write mem at (chunk ++ more) h);
      room = omega (arith, size);
      before = rw m (take-write_before mem at (chunk ++ more) h);
      placed = rw m (
          ap (take (length chunk))
            (slice_write mem at (chunk ++ more) h ∙ append_assoc chunk more _)
          ∙ take-append chunk _ (length chunk) refl);
    }

-- What a reader says of a genuine datagram: an error, which is negative, or the header and the
-- length of one of the chunks, which stands in the block.
abbrev pub ReadsChunk : Settings → List (List ℕ) → List ℕ → List ℕ → ℕ → Read → Type 0
ReadsChunk c xs mem mem' at (failed value) = (k : ℕ) × (value ≡ negsuc k)
ReadsChunk c xs mem mem' at (packet h n) =
    (i : ℕ) × (chunk : List ℕ) × (get_elem? xs i ≡ some chunk)
    × (h ≡ re_header c (length xs) i)
    × (n ≡ length chunk)
    × Filled mem mem' at chunk
