-- ===== src/Assemble/Loop.antt =====
-- `getPacketizedBuffer`. Locals that are set before every use start at 0 and false here; `mem` is
-- the block from `dataBuf` on, and a pointer into it is a position.
use ersap_ejfat.Base.{
  ℕ, ◌+◌, ◌-◌, ◌%◌, ◌^◌, Bool, true, false, not, ◌&&◌, ◌||◌, List, [], ◌∷◌, ltb, leb, ◌==◌,
  if◌then◌else◌, length, ℤ, pos,
}
use ersap_ejfat.Base.Memory.{use_after_free, Run, ok, fault, ◌>>=◌, write, slice}
use ersap_ejfat.Wire.{ReHeader, header_bytes}
use ersap_ejfat.Assemble.{
  code, out_of_order, bad_first_last_bit, out_of_mem, Event, Read, failed, packet, read_by,
}
use ersap_ejfat.Assemble.Store.{Stored, Store, emplace, free_map}

-- The parameters that the caller reads back: the buffer, the out-parameters and the map.
pub record Shared : Type 0 where
  pub mem : List ℕ
  pub last : Bool
  pub tick : ℕ
  pub exp_sequence : ℕ
  pub bytes_per_packet : ℕ
  pub packet_count : ℕ
  pub stored : Store

pub record Locals : Type 0 where
  pub mem : List ℕ
  pub stored : Store
  pub bytes_per_packet : ℕ
  pub put_data_at : ℕ
  pub remaining_len : ℕ
  pub total_bytes_read : ℕ
  pub expected_sequence : ℕ
  pub pkt_count : ℕ
  pub max_packet_bytes : ℕ
  pub first_read_for_buf : Bool
  pub too_little_room : Bool
  pub packet_tick : ℕ
  pub packet_first : Bool
  pub packet_last : Bool

abbrev pub incr_32 : ℕ → ℕ
incr_32 n = (n + 1) % 2 ^ 32

-- An int less HEADER_BYTES, as a uint32_t.
abbrev pub less_header : ℕ → ℕ
less_header n = (n + (2 ^ 32 - header_bytes)) % 2 ^ 32

-- size_t a - b
abbrev pub sub_64 : ℕ → ℕ → ℕ
sub_64 a b = if leb b a then a - b else (a + 2 ^ 64 - b) % 2 ^ 64

-- The checks of the first bit, behind the test of `firstReadForBuf`.
pub data Checked : Type 0 where
  good bad : Locals → Checked

-- A packet in its order: move on behind it and check its first bit.
unfoldable pub advance : Bool → Locals → ℕ → Checked
advance very_first_read s n_bytes =
    let t = record s {
      put_data_at = s.put_data_at + n_bytes;
      remaining_len = sub_64 s.remaining_len n_bytes;
      total_bytes_read = s.total_bytes_read + n_bytes;
      expected_sequence = incr_32 s.expected_sequence;
      pkt_count = incr_32 s.pkt_count;
    } in
    if s.first_read_for_buf
    then (let u = record t { max_packet_bytes = n_bytes; first_read_for_buf = false } in
        if very_first_read && not s.packet_first then bad u else good u)
    else if s.packet_first
    then bad t
    else good t

-- How the inner loop ends.
pub data Drained : Type 0 where
  stop refused : Locals → Drained

-- With nothing stored: the last packet, or too little room for another one of the largest size.
unfoldable pub settle : Locals → Locals
settle s =
    if s.packet_last
    then s
    else record s { too_little_room = s.too_little_room || ltb s.remaining_len s.max_packet_bytes }

-- A stored packet is copied behind the data and becomes the current one.
unfoldable pub restore : Locals → Stored → Store → Run Locals
restore s v rest =
    if v.live
    then (write s.mem s.put_data_at v.block >>= λ mem'.
        ok (record s { mem = mem'; stored = rest; packet_last = v.last; packet_first = v.first }))
    else fault use_after_free

-- The inner loop, on the map: each turn after the first takes out its first entry.
unfoldable pub drain : Bool → Locals → ℕ → Store → Run Drained
drain v s n [] = elim (advance v s n) [
  | bad t ↦ ok (refused (record t { stored = [] }))
  | good t ↦ ok (stop (settle (record t { stored = [] })))
]
drain v s n ((k, p) ∷ rest) = elim (advance v s n) [
  | bad t ↦ free_map ((k, p) ∷ rest) >>= λ m. ok (refused (record t { stored = m }))
  | good t ↦ elim (k == t.expected_sequence) [
    | true ↦ restore t p rest >>= λ u. drain v u p.n_bytes rest
    | false ↦ ok (stop (record t { stored = (k, p) ∷ rest }))
  ]
]

-- How one round of the outer loop ends.
pub data Round : Type 0 where
  continue finish : Locals → Round
  error : ℤ → Locals → Round

-- At most 100 packets are stored.
abbrev pub max_stored : ℕ
max_stored = 100

unfoldable pub free_and_return : ℤ → Locals → Run Round
free_and_return value s = free_map s.stored >>= λ m. ok (error value (record s { stored = m }))

-- A packet with a sequence number that is not the expected one.
unfoldable pub put_aside : Locals → ℕ → ℕ → Bool → Run Round
put_aside s sequence n malloc_ok =
    if ltb sequence s.expected_sequence
    then free_and_return (code out_of_order) s
    else if leb max_stored (length s.stored)
    then free_and_return (code out_of_order) s
    else if not malloc_ok
    then free_and_return (code out_of_mem) s
    else (slice s.mem s.put_data_at n >>= λ block. ok (
        continue (record s {
          stored =
              emplace sequence
                (record {
                  block = block;
                  n_bytes = n;
                  last = s.packet_last;
                  first = s.packet_first;
                  live = true;
                })
                s.stored;
        })))

-- Behind the inner loop.
abbrev pub after_drain : Drained → Round
after_drain (refused t) = error (code bad_first_last_bit) t
after_drain (stop t) = if t.packet_last || t.too_little_room then finish t else continue t

-- The packet that was expected, and the stored ones that follow it.
unfoldable pub put_in_order : Bool → Locals → ℕ → Run Round
put_in_order v s n = drain v s n s.stored >>= λ d. ok (after_drain d)

-- What the header of a packet sets; sequence number 0 begins a buffer.
abbrev pub with_header : Locals → ReHeader → ℕ → Locals
with_header s h n = record s {
  packet_tick = h.tick;
  packet_first = h.first;
  packet_last = h.last;
  first_read_for_buf = if h.sequence == 0 then true else s.first_read_for_buf;
  bytes_per_packet = if h.sequence == 0 then less_header n else s.bytes_per_packet;
}

-- A packet has been read into the block.
unfoldable pub take_packet : Bool → Locals → ReHeader → ℕ → Bool → Run Round
take_packet v s h n malloc_ok =
    if h.sequence == s.expected_sequence
    then put_in_order v (with_header s h n) n
    else put_aside (with_header s h n) h.sequence n malloc_ok

-- Behind the read.
abbrev pub after_read : Bool → Locals → Event → List ℕ × Read → Run Round
after_read v s e (mem', failed value) = ok (error value (record s { mem = mem' }))
after_read v s e (mem', packet h n) = take_packet v (record s { mem = mem' }) h n e.malloc_ok

-- The body of the outer loop.
unfoldable pub round : Bool → Bool → Locals → Event → Run Round
round use_recv_from v s e =
    read_by use_recv_from s.mem s.put_data_at s.remaining_len e.datagram >>= after_read v s e

-- The value returned, what the caller reads back, and the events that are left; or a call that waits.
pub data Outcome : Type 0 where
  returned : ℤ → Shared → List Event → Outcome
  waiting : Locals → Outcome

-- After an error the out-parameters keep their values.
abbrev pub shared_after_error : Shared → Locals → Shared
shared_after_error io s = record io {
  mem = s.mem;
  bytes_per_packet = s.bytes_per_packet;
  stored = s.stored;
}

abbrev pub shared_after : Locals → Shared
shared_after s = record {
  mem = s.mem;
  last = s.packet_last;
  tick = s.packet_tick;
  exp_sequence = s.expected_sequence;
  bytes_per_packet = s.bytes_per_packet;
  packet_count = s.pkt_count;
  stored = s.stored;
}

-- The outer loop: every round reads one datagram.
unfoldable pub loop : Bool → Bool → Shared → Locals → List Event → Run Outcome
loop use_recv_from v io s [] = ok (waiting s)
loop use_recv_from v io s (e ∷ es) = round use_recv_from v s e >>= λ r. elim r [
  | continue t ↦ loop use_recv_from v io t es
  | finish t ↦ ok (returned (pos t.total_bytes_read) (shared_after t) es)
  | error value t ↦ ok (returned value (shared_after_error io t) es)
]

abbrev pub start : ℕ → Shared → Locals
start buf_len io = record {
  mem = io.mem;
  stored = io.stored;
  bytes_per_packet = io.bytes_per_packet;
  put_data_at = 0;
  remaining_len = buf_len;
  total_bytes_read = 0;
  expected_sequence = io.exp_sequence;
  pkt_count = 0;
  max_packet_bytes = 0;
  first_read_for_buf = false;
  too_little_room = false;
  packet_tick = 0;
  packet_first = false;
  packet_last = false;
}

unfoldable pub get_packetized_buffer : Bool → Bool → ℕ → Shared → List Event → Run Outcome
get_packetized_buffer use_recv_from very_first_read buf_len io events =
    loop use_recv_from very_first_read io (start buf_len io) events
