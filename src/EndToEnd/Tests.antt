-- ===== src/EndToEnd/Tests.antt =====
-- A message of five bytes in packets of two, of which the middle one arrives first.
use ersap_ejfat.Base.{ℕ, ◌≡◌, refl, true, false, List, [], ◌∷◌, ◌++◌, pos, take, replicate, arith}
use ersap_ejfat.Base.Memory.{ok, write, slice}
use ersap_ejfat.Wire.Bytes.{
  store, load, bswap_16, bswap_32, htons, htonl, htonll, ntohs, ntohl, ntohll,
}
use ersap_ejfat.Wire.{set_lb_metadata, set_re_metadata, parse_re_header}
use ersap_ejfat.Packetize.{
  SendResult, sent, Settings, datagram, round as send_round, send_loop, success,
  send_packetized_buffer,
}
use ersap_ejfat.Assemble.{received, Event, copy_packet, read_packet_recv_from}
use ersap_ejfat.Assemble.Store.{emplace, free_map}
use ersap_ejfat.Assemble.Loop.{
  Shared, returned, get_packetized_buffer, loop, round, take_packet, put_aside, put_in_order, drain,
  restore, settle, advance,
}
use ersap_ejfat.EndToEnd.InOrder.{forward_all, receive-send_in_order}
use ersap_ejfat.EndToEnd.{AllFromSender, forwarded, receive-send}

abbrev settings : Settings
settings = record { tick = 7; protocol = 1; version = 1; data_id = 3; last_buffer = true }

abbrev pub message : List ℕ
message = 10 ∷ 11 ∷ 12 ∷ 13 ∷ 14 ∷ []

abbrev lb_header : List ℕ
lb_header = 76 ∷ 66 ∷ 1 ∷ 1 ∷ 0 ∷ 0 ∷ 0 ∷ 0 ∷ 0 ∷ 0 ∷ 0 ∷ 7 ∷ []

-- The reassembly header with its flags and sequence number.
abbrev re_bytes : ℕ → ℕ → List ℕ
re_bytes flags i = 16 ∷ flags ∷ 0 ∷ 3 ∷ 0 ∷ 0 ∷ 0 ∷ i ∷ 0 ∷ 0 ∷ 0 ∷ 0 ∷ 0 ∷ 0 ∷ 0 ∷ 7 ∷ []

abbrev pub sent_datagrams : List (List ℕ)
sent_datagrams =
    (lb_header ++ (re_bytes 2 0 ++ (10 ∷ 11 ∷ [])))
    ∷ (lb_header ++ (re_bytes 0 1 ++ (12 ∷ 13 ∷ [])))
    ∷ (lb_header ++ (re_bytes 1 2 ++ (14 ∷ [])))
    ∷ []

abbrev pub answers : List SendResult
answers = sent ∷ sent ∷ sent ∷ []

sends_message :
    send_packetized_buffer settings message 5 (pos 2) 0 true answers ≡ success 3 sent_datagrams
unfolding send_packetized_buffer send_loop send_round datagram set_lb_metadata set_re_metadata htons
    htonl htonll bswap_16 bswap_32 store
sends_message = refl

abbrev event : List ℕ → Event
event bytes = record { datagram = received bytes (replicate 20 0) 0; malloc_ok = true }

abbrev pub events : List Event
events =
    event (re_bytes 0 1 ++ (12 ∷ 13 ∷ []))
    ∷ event (re_bytes 2 0 ++ (10 ∷ 11 ∷ []))
    ∷ event (re_bytes 1 2 ++ (14 ∷ []))
    ∷ []

abbrev pub buffer : Shared
buffer = record {
  mem = replicate 24 9;
  last = false;
  tick = 0;
  exp_sequence = 0;
  bytes_per_packet = 0;
  packet_count = 0;
  stored = [];
}

abbrev pub filled : Shared
filled = record {
  mem = message ++ (replicate 16 0 ++ replicate 3 9);
  last = true;
  tick = 7;
  exp_sequence = 3;
  bytes_per_packet = 4294967282;
  packet_count = 3;
  stored = [];
}

pub gathers_message :
    get_packetized_buffer true true 24 buffer events ≡ ok (returned (pos 5) filled [])
unfolding get_packetized_buffer loop round take_packet put_aside put_in_order drain restore settle
    advance emplace free_map copy_packet read_packet_recv_from parse_re_header ntohs ntohl ntohll
    bswap_16 bswap_32 load write slice
gathers_message = refl

pub all_sent : AllFromSender sent_datagrams events
all_sent = (
  forwarded 1 (lb_header ++ (re_bytes 0 1 ++ (12 ∷ 13 ∷ []))) (replicate 20 0) 0 refl,
  (
    forwarded 0 (lb_header ++ (re_bytes 2 0 ++ (10 ∷ 11 ∷ []))) (replicate 20 0) 0 refl,
    (forwarded 2 (lb_header ++ (re_bytes 1 2 ++ (14 ∷ []))) (replicate 20 0) 0 refl, tt),
  ),
)

receive-send_example : take 5 filled.mem ≡ message
receive-send_example =
    receive-send settings message 2 3 answers sent_datagrams true true 24 buffer events
      (omega arith) (omega arith) refl (omega arith) sends_message all_sent refl refl
      gathers_message refl

receive-send_in_order_example :
    (n : ℕ) × (out : Shared) × (get_packetized_buffer false true 24 buffer
        (forward_all sent_datagrams)
      ≡ ok (returned (pos n) out []))
    × (out.last ≡ true)
    × (out.stored ≡ [])
    × (take n out.mem ≡ message)
receive-send_in_order_example =
    receive-send_in_order settings message 2 3 answers sent_datagrams true 24 buffer (omega arith)
      (omega arith) refl (omega arith) (omega arith) sends_message (omega arith) (omega arith) refl
      refl
