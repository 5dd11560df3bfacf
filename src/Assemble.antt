-- ===== src/Assemble.antt =====
-- ejfat/legacy/src/main/cpp/ejfat_assemble_ersap.hpp: datagrams come in and the buffer is put back
-- together. This file has the data and the readers of one packet; the children have the loops and
-- the proofs. `Event` is what the system answers in one round of a loop.
pub mod Store
pub mod Loop
pub mod Message
pub mod Reads
pub mod Invariant
mod Turns
pub mod Rounds
pub mod Kept
pub mod Safety
pub mod InOrder
pub mod GetBuffer
pub mod Fast
pub mod Tests
use ersap_ejfat.Base.{
  ℕ, zero, suc, ◌+◌, ◌-◌, ◌%◌, ◌^◌, Bool, true, false, List, [], ◌∷◌, ◌++◌, ltb, ◌==◌,
  if◌then◌else◌, length, take, drop, ℤ, pos, negsuc,
}
use ersap_ejfat.Base.Memory.{Fault, Run, ok, fault, ◌>>=◌, write, slice}
use ersap_ejfat.Wire.{ReHeader, parse_re_header, header_bytes}

pub data ErrorCode : Type 0 where
  recv_msg truncated_msg buf_too_small out_of_order bad_first_last_bit out_of_mem bad_arg :
      ErrorCode

-- The values of the enum: `negsuc n` is -(n + 1).
abbrev pub code : ErrorCode → ℤ
code recv_msg = negsuc 0
code truncated_msg = negsuc 1
code buf_too_small = negsuc 2
code out_of_order = negsuc 3
code bad_first_last_bit = negsuc 4
code out_of_mem = negsuc 5
code bad_arg = negsuc 6

-- What one `recvfrom` or `recvmsg` gives: -1, or the bytes that it stored. `after` is what the local
-- array holds behind them, which nothing has written; `flags` is `msg_flags`.
pub data Received : Type 0 where
  recv_failed : Received
  received : (bytes after : List ℕ) (flags : ℕ) → Received

-- One round: the datagram, and whether `malloc` would give a block.
pub record Event : Type 0 where
  pub datagram : Received
  pub malloc_ok : Bool

-- What a reader gives: a negative return value, or the parsed header and the count of data bytes.
pub data Read : Type 0 where
  failed : ℤ → Read
  packet : ReHeader → ℕ → Read

-- `bytesRead - HEADER_BYTES`, which the callers take for an error if it is negative.
abbrev pub data_count : ReHeader → ℕ → Read
data_count h bytes_read =
    if ltb bytes_read header_bytes
    then failed (negsuc (header_bytes - 1 - bytes_read))
    else packet h (bytes_read - header_bytes)

-- MSG_TRUNC of <sys/socket.h>
abbrev pub msg_trunc : ℕ
msg_trunc = 0x20

-- `readPacket`: `recvmsg` scatters the datagram into the header array and `dataBuf`, of which it gets
-- `buf_len` bytes: `bytes` are those that it has stored, and their number is not bounded here.
unfoldable pub read_packet : List ℕ → ℕ → ℕ → Received → Run (List ℕ × Read)
unfolding write
read_packet mem at buf_len recv_failed = ok (mem, failed (code recv_msg))
read_packet mem at buf_len (received bytes after flags) =
    write mem at (drop header_bytes bytes) >>= λ mem'. ok (
      mem',
      if flags == msg_trunc
          then failed (code truncated_msg)
          else data_count (parse_re_header (take header_bytes (bytes ++ after))) (length bytes),
    )

-- The size of the array `pkt`, and the limit that `recvfrom` gets.
abbrev pub packet_bytes : ℕ
packet_bytes = 9100

-- Behind `recvfrom`, which has put `bytes_read` bytes into `pkt`: as many bytes from behind the header
-- on are copied to `dataBuf`, 16 more than the datagram has.
unfoldable pub copy_packet : List ℕ → ℕ → ℕ → List ℕ → ℕ → Run (List ℕ × Read)
copy_packet mem at buf_len pkt bytes_read =
    if ltb buf_len bytes_read
    then ok (mem, failed (code buf_too_small))
    else (slice pkt header_bytes bytes_read >>= λ copied.
        write mem at copied >>= λ mem'. ok (mem', data_count (parse_re_header pkt) bytes_read))

-- `readPacketRecvFrom`: the datagram goes into the array `pkt`, as far as it has room.
unfoldable pub read_packet_recv_from : List ℕ → ℕ → ℕ → Received → Run (List ℕ × Read)
read_packet_recv_from mem at buf_len recv_failed = ok (mem, failed (code recv_msg))
read_packet_recv_from mem at buf_len (received bytes after flags) =
    copy_packet mem at buf_len (take packet_bytes (bytes ++ after))
      (if ltb packet_bytes (length bytes) then packet_bytes else length bytes)

-- The choice of `useRecvFrom`.
abbrev pub read_by : Bool → List ℕ → ℕ → ℕ → Received → Run (List ℕ × Read)
read_by true = read_packet_recv_from
read_by false = read_packet
