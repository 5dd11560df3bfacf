-- ===== src/Assemble/Fast.antt =====
-- `getPacketizedBufferFast`: behind the first packet a datagram is read to its place, header and all;
-- the bytes under the header are saved and put back. The map, the inner loop and the errors are those
-- of `getPacketizedBuffer`.
pub mod InPlace
mod Tests
use ersap_ejfat.Base.{
  ℕ, ◌+◌, ◌-◌, Bool, true, false, List, [], ◌∷◌, ltb, ◌==◌, if◌then◌else◌, length, take, drop, ℤ,
  pos,
}
use ersap_ejfat.Base.Memory.{Run, ok, fault, overread, ◌>>=◌, write, slice}
use ersap_ejfat.Wire.{ReHeader, parse_re_header, header_bytes}
use ersap_ejfat.Assemble.{
  code, recv_msg, Received, recv_failed, received, Event, Read, failed, packet,
  read_packet_recv_from,
}
use ersap_ejfat.Assemble.Loop.{
  Shared, Locals, Round, continue, finish, error, Outcome, returned, waiting, with_header,
  put_in_order, put_aside, shared_after, shared_after_error, start,
}

-- `recvfrom` stores at most `remainingLen` bytes from `start` on, then the bytes under the header are
-- put back. The count is what `recvfrom` says, with the header.
unfoldable pub read_at : List ℕ → ℕ → ℕ → Received → Run (List ℕ × Read)
read_at mem start remaining_len recv_failed =
    slice mem start header_bytes >>= λ header_storage. ok (mem, failed (code recv_msg))
read_at mem start remaining_len (received bytes after flags) =
    slice mem start header_bytes >>= λ header_storage.
    write mem start (take remaining_len bytes) >>= λ mem'.
    write mem' start header_storage >>= λ restored.
    ok (restored, packet (parse_re_header (drop start mem')) (length (take remaining_len bytes)))

-- `putDataAt - HEADER_BYTES`, in front of the block if fewer bytes are there.
unfoldable pub read_in_place : List ℕ → ℕ → ℕ → Received → Run (List ℕ × Read)
read_in_place mem at remaining_len datagram =
    if ltb at header_bytes
    then fault overread
    else read_at mem (at - header_bytes) remaining_len datagram

-- The first read goes through the packet array.
abbrev pub read_fast : Bool → List ℕ → ℕ → ℕ → Received → Run (List ℕ × Read)
read_fast true = read_packet_recv_from
read_fast false = read_in_place

-- A packet in order ends the very first read.
unfoldable pub take_fast : Bool → Locals → ReHeader → ℕ → Bool → Run (Bool × Round)
take_fast v s h n malloc_ok =
    if h.sequence == s.expected_sequence
    then (put_in_order v (with_header s h n) n >>= λ r. ok (false, r))
    else (put_aside (with_header s h n) h.sequence n malloc_ok >>= λ r. ok (v, r))

abbrev pub after_read_fast : Bool → Locals → Event → List ℕ × Read → Run (Bool × Round)
after_read_fast v s e (mem', failed value) = ok (v, error value (record s { mem = mem' }))
after_read_fast v s e (mem', packet h n) = take_fast v (record s { mem = mem' }) h n e.malloc_ok

-- The body of the outer loop.
unfoldable pub round_fast : Bool → Locals → Event → Run (Bool × Round)
round_fast v s e =
    read_fast v s.mem s.put_data_at s.remaining_len e.datagram >>= after_read_fast v s e

unfoldable pub loop_fast : Bool → Shared → Locals → List Event → Run Outcome
loop_fast v io s [] = ok (waiting s)
loop_fast v io s (e ∷ es) = round_fast v s e >>= λ r. elim r.1 [
  | continue t ↦ loop_fast r.0 io t es
  | finish t ↦ ok (returned (pos t.total_bytes_read) (shared_after t) es)
  | error value t ↦ ok (returned value (shared_after_error io t) es)
]

-- `dataBuf` is position `data_buf` of its block.
unfoldable pub get_packetized_buffer_fast : ℕ → Bool → ℕ → Shared → List Event → Run Outcome
get_packetized_buffer_fast data_buf very_first_read buf_len io events =
    loop_fast very_first_read io (record (start buf_len io) { put_data_at = data_buf }) events
