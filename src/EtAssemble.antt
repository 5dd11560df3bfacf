-- ===== src/EtAssemble.antt =====
-- `getBuffers` of ejfat/legacy/src/main/cpp/ejfat_assemble_ersap_et.hpp: packets of many ticks and
-- data sources are sorted into the buffers of ET fifo entries. `et_fifo_getBuf` gives each id its own
-- buffer of an entry, or null, which is an answer of the system. The `std::map`s whose size is not
-- asked for are functions. `remainingLen` is only printed.
pub mod Maps
pub mod Inner
pub mod Keys
pub mod Invariant
mod Written
pub mod Turns
pub mod Drains
pub mod Packets
mod Opened
mod Steps
pub mod Safety
pub mod Erased
pub mod InOrder
mod Finishes
mod Tests
use ersap_ejfat.Base.{
  ℕ, zero, suc, ◌+◌, ◌-◌, ◌%◌, ◌^◌, Bool, true, false, not, ◌&&◌, Option, none, some, List, [], ◌∷◌,
  ◌++◌, ltb, leb, ◌==◌, if◌then◌else◌, length, ℤ, pos, negsuc,
}
use ersap_ejfat.Base.Memory.{Run, ok, fault, out_of_fuel, ◌>>=◌, write, slice}
use ersap_ejfat.Wire.{ReHeader, parse_re_header, header_bytes}
use ersap_ejfat.Assemble.{code, out_of_order, bad_first_last_bit, Received, recv_failed, received}
use ersap_ejfat.Assemble.Loop.{incr_32}
use ersap_ejfat.LastBits.{contains, all_last_bits_received}
use ersap_ejfat.EtAssemble.Maps.{
  Buf, Entry, Held, Tables, set_at, set_at_2, set_end, hold, take_held,
}
use ersap_ejfat.EtAssemble.Inner.{
  Place, Step, next, handed, returns, throws, no_room, Freed, write_data, report, after_write,
  drain,
}

-- The answers for one packet: the datagram, the new entry that could be had (`none` is a null of
-- `et_fifo_entryCreate` or an error of `et_fifo_newEntry`), and whether there is a buffer for the id.
pub record Event : Type 0 where
  pub datagram : Received
  pub fresh : Option Entry
  pub has_buf : Bool

-- `std::vector<char>(nBytes)` throws at 2 ^ 63 bytes and more.
abbrev pub vector_limit : ℕ
vector_limit = 2 ^ 63

-- At most 1000 packets are stored.
abbrev pub max_held : ℕ
max_held = 1000

unfoldable pub store_early : Tables → ReHeader → ℕ → List ℕ → Run Step
store_early s h n packet =
    if leb max_held (length s.held)
    then ok (returns (code out_of_order))
    else if leb vector_limit n
    then ok throws
    else (slice packet header_bytes n >>= λ bytes. ok (
        next (record s {
          held =
              hold
                (record {
                  sequence = h.sequence;
                  data_id = h.data_id;
                  tick = h.tick;
                  bytes = bytes;
                  last = h.last;
                  first = h.first;
                })
                s.held;
        })))

-- The sequence number against the expected one.
unfoldable pub by_order : Freed → ℕ → List ℕ → Tables → Place → ReHeader → ℕ → List ℕ → Run Step
by_order freed buf_size ids s p h n packet =
    if h.sequence == p.expected
    then drain freed buf_size ids (suc (length s.held)) s p h.last (slice packet header_bytes n)
    else if ltb h.sequence p.expected
    then ok (returns (code out_of_order))
    else store_early s h n packet

-- The first bit belongs to sequence number 0, and to no other.
unfoldable pub check_first : Freed → ℕ → List ℕ → Tables → Place → ReHeader → ℕ → List ℕ → Run Step
check_first freed buf_size ids s p h n packet = elim (h.sequence == 0) [
  | true ↦
      if not h.first
      then ok (returns (code bad_first_last_bit))
      else by_order freed buf_size ids
          (record s { bytes_per_packet = set_at s.bytes_per_packet h.data_id (n % 2 ^ 32) }) p h n
          packet
  | false ↦
      if h.first
      then ok (returns (code bad_first_last_bit))
      else by_order freed buf_size ids s p h n packet
]

-- A new entry for the tick: room for one packet is assumed.
unfoldable pub first_of_tick :
    Freed → ℕ → List ℕ → Tables → Event → ReHeader → ℕ → List ℕ → Option Entry → Run Step
first_of_tick freed buf_size ids s e h n packet none = ok throws
first_of_tick freed buf_size ids s e h n packet (some entry) =
    if not e.has_buf
    then ok throws
    else check_first freed buf_size ids
        (record s {
          buffers = set_at s.buffers h.tick (some entry);
          exp_sequence = set_at_2 s.exp_sequence h.tick h.data_id 0;
        })
        (record { tick = h.tick; data_id = h.data_id; entry = entry; expected = 0; total = 0 }) h n
        packet

-- `buffers.find(tick)`
unfoldable pub place :
    Freed → ℕ → List ℕ → Tables → Event → ReHeader → ℕ → List ℕ → Option Entry → Run Step
place freed buf_size ids s e h n packet none =
    first_of_tick freed buf_size ids s e h n packet e.fresh
place freed buf_size ids s e h n packet (some entry) =
    if not e.has_buf
    then ok throws
    else if no_room buf_size (entry h.data_id).written n
    then ok throws
    else check_first freed buf_size ids s
        (record {
          tick = h.tick;
          data_id = h.data_id;
          entry = entry;
          expected = s.exp_sequence h.tick h.data_id;
          total = (entry h.data_id).written;
        })
        h n packet

-- `bytesRead - HEADER_BYTES`, an int, where the code uses it as a size_t.
abbrev pub data_size : ℕ → ℕ
data_size bytes_read = (bytes_read + (2 ^ 64 - header_bytes)) % 2 ^ 64

-- One packet.
unfoldable pub step : Freed → ℕ → List ℕ → Tables → Event → Run Step
step freed buf_size ids s e = elim e.datagram [
  | recv_failed ↦ ok (returns (negsuc 0))
  | received bytes after flags ↦
      let h = parse_re_header (bytes ++ after) in
      place freed buf_size ids s e h (data_size (length bytes)) (bytes ++ after) (s.buffers h.tick)
]

-- How `getBuffers` ends, if it does not wait for a packet.
pub data Ended : Type 0 where
  waits thrown : Ended
  returned : ℤ → Ended

-- The entries put back into ET, each with its tick, and how it ends.
unfoldable pub run : Freed → ℕ → List ℕ → Tables → List Event → Run (List (ℕ × Entry) × Ended)
run freed buf_size ids s [] = ok ([], waits)
run freed buf_size ids s (e ∷ es) = step freed buf_size ids s e >>= λ r. elim r [
  | next t ↦ run freed buf_size ids t es
  | handed tick entry t ↦ run freed buf_size ids t es >>= λ out. ok ((tick, entry) ∷ out.0, out.1)
  | returns value ↦ ok ([], returned value)
  | throws ↦ ok ([], thrown)
]

abbrev pub no_tables : Tables
no_tables = record {
  buffers = λ tick. none;
  held = [];
  bytes_per_packet = λ id. 0;
  end_condition = [];
  exp_sequence = λ tick id. 0;
}

-- The array as a `std::set`.
abbrev pub to_set : List ℕ → List ℕ
to_set [] = []
to_set (x ∷ xs) = let rest = to_set xs in if contains x rest then rest else x ∷ rest

unfoldable pub with_ids : Freed → ℕ → Option (List ℕ) → List Event → Run (List (ℕ × Entry) × Ended)
with_ids freed buf_size none events = ok ([], returned (negsuc 0))
with_ids freed buf_size (some ids) events = run freed buf_size (to_set ids) no_tables events

-- `none` for the ids is an error of `et_fifo_getBufIds`.
unfoldable pub get_buffers :
    Freed → ℕ → ℤ → Option (List ℕ) → List Event → Run (List (ℕ × Entry) × Ended)
get_buffers freed buf_size (negsuc k) ids events = ok ([], returned (negsuc 0))
get_buffers freed buf_size (pos n) ids events =
    if ltb n 1 then ok ([], returned (negsuc 0)) else with_ids freed buf_size ids events
