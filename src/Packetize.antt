-- ===== src/Packetize.antt =====
-- ejfat/legacy/src/main/cpp/ejfat_packetize.hpp: a buffer goes out as UDP datagrams, each with both
-- headers in front. Every call of `sendmsg` takes the next answer of a list; the sleeps between
-- packets and the debug printout have no effect on the state.
pub mod Chunks
pub mod Sends
pub mod Retry
pub mod Mtu
pub mod Reads
mod Tests
use ersap_ejfat.Base.{
  ℕ, zero, suc, ◌+◌, ◌-◌, ◌*◌, ◌/◌, ◌%◌, ◌^◌, Bool, true, false, ◌&&◌, List, [], ◌∷◌, ◌++◌, ltb,
  ◌==◌, if◌then◌else◌, take, drop, ℤ, pos, negsuc,
}
use ersap_ejfat.Wire.{set_lb_metadata, set_re_metadata}

-- What `sendmsg` answers: the datagram went out, -1 with EMSGSIZE, or -1 with another errno.
pub data SendResult : Type 0 where
  sent message_too_long send_error : SendResult

-- The arguments of `sendPacketizedBuffer` that stay the same.
pub record Settings : Type 0 where
  pub tick : ℕ
  pub protocol : ℕ
  pub version : ℕ
  pub data_id : ℕ
  pub last_buffer : Bool

-- Its variables. `get_data_from` is the memory from that pointer on; `datagrams` is what went out,
-- oldest first. The int `remainingBytes` never falls below 0 in the loop.
pub record Sender : Type 0 where
  pub max_udp_payload : ℤ
  pub remaining_bytes : ℕ
  pub get_data_from : List ℕ
  pub packet_counter : ℕ
  pub very_first_packet : Bool
  pub very_last_packet : Bool
  pub datagrams : List (List ℕ)

abbrev pub incr_32 : ℕ → ℕ
incr_32 n = (n + 1) % 2 ^ 32

abbrev pub decr_32 : ℕ → ℕ
decr_32 n = (n + (2 ^ 32 - 1)) % 2 ^ 32

-- The two buffers of one `sendmsg`: both headers, then the data.
unfoldable pub datagram : Settings → Bool → Bool → ℕ → List ℕ → List ℕ
datagram c first last sequence bytes =
    set_lb_metadata c.tick c.version c.protocol
    ++ (set_re_metadata first last c.tick sequence c.version c.data_id ++ bytes)

pub data Round : Type 0 where
  again : Sender → Round
  failed : Round

-- After an error: only a first packet that is too big is tried again, with 80 % of the payload.
after_error : Sender → ℕ → ℕ → SendResult → Round
after_error s m counter message_too_long =
    if s.very_first_packet
    then again (record s {
      max_udp_payload = pos (m * 8 / 10);
      very_last_packet = false;
      packet_counter = decr_32 counter;
    })
    else failed
after_error s m counter _ = failed

-- One round with `n` bytes to write and the limit `m`.
send_chunk : Settings → Sender → ℕ → ℕ → SendResult → Round
unfolding after_error
send_chunk c s m n answer =
    let last = if (n == s.remaining_bytes) && c.last_buffer then true else s.very_last_packet in
    let packet = datagram c s.very_first_packet last s.packet_counter (take n s.get_data_from) in
    let counter = incr_32 s.packet_counter in
    elim answer [
      | sent ↦ again (record s {
        remaining_bytes = s.remaining_bytes - n;
        get_data_from = drop n s.get_data_from;
        packet_counter = counter;
        very_first_packet = false;
        very_last_packet = last;
        datagrams = s.datagrams ++ packet ∷ [];
      })
      | other ↦ after_error (record s { very_last_packet = last }) m counter other
    ]

-- The body of the loop: `remainingBytes > maxUdpPayload ? maxUdpPayload : remainingBytes` bytes are
-- to go out. A negative count becomes a length above SSIZE_MAX, for which `sendmsg` documents
-- EINVAL.
round_with : Settings → Sender → ℤ → SendResult → Round
unfolding send_chunk
round_with c s (negsuc _) answer = failed
round_with c s (pos m) answer =
    send_chunk c s m (if ltb m s.remaining_bytes then m else s.remaining_bytes) answer

unfoldable pub round : Settings → Sender → SendResult → Round
unfolding round_with
round c s answer = round_with c s s.max_udp_payload answer

-- 0 with the next offset, or -1; `sending` is a call that still waits for `sendmsg`.
pub data Outcome : Type 0 where
  success : ℕ → List (List ℕ) → Outcome
  failure : Outcome
  sending : Sender → Outcome

-- The loop takes one answer a round.
unfoldable pub send_loop : Settings → Sender → List SendResult → Outcome
send_loop c s [] =
    if s.remaining_bytes == 0 then success s.packet_counter s.datagrams else sending s
send_loop c s (answer ∷ answers) = elim (s.remaining_bytes == 0) [
  | true ↦ success s.packet_counter s.datagrams
  | false ↦ elim (round c s answer) [ again s' ↦ send_loop c s' answers | failed ↦ failure ]
]

-- `int remainingBytes = dataLen`: a negative int fails the test of the loop as 0 does.
abbrev pub int_count : ℕ → ℕ
int_count data_len = let n = data_len % 2 ^ 32 in if ltb n (2 ^ 31) then n else 0

abbrev pub start : List ℕ → ℕ → ℤ → ℕ → Bool → Sender
start data_buffer data_len max_udp_payload offset first_buffer = record {
  max_udp_payload = max_udp_payload;
  remaining_bytes = int_count data_len;
  get_data_from = data_buffer;
  packet_counter = offset;
  very_first_packet = first_buffer;
  very_last_packet = false;
  datagrams = [];
}

unfoldable pub send_packetized_buffer :
    Settings → List ℕ → ℕ → ℤ → ℕ → Bool → List SendResult → Outcome
unfolding send_loop
send_packetized_buffer c data_buffer data_len max_udp_payload offset first_buffer answers =
    send_loop c (start data_buffer data_len max_udp_payload offset first_buffer) answers
