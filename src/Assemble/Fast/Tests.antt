-- ===== src/Assemble/Fast/Tests.antt =====
-- Two packets into `getPacketizedBufferFast`.
use ersap_ejfat.Base.{ℕ, ◌+◌, ◌≡◌, refl, true, false, List, [], ◌∷◌, ◌++◌, pos, replicate, arith}
use ersap_ejfat.Base.Memory.{ok, fault, overread, write, slice}
use ersap_ejfat.Wire.Bytes.{
  store, load, bswap_16, bswap_32, htons, htonl, htonll, ntohs, ntohl, ntohll,
}
use ersap_ejfat.Wire.{set_re_metadata, parse_re_header}
use ersap_ejfat.Assemble.{received, Event, packet, read_packet, copy_packet, read_packet_recv_from}
use ersap_ejfat.Assemble.Loop.{Shared, returned, put_in_order, drain, settle, advance}
use ersap_ejfat.Assemble.Message.{re_packet, re_header}
use ersap_ejfat.Assemble.Tests.{settings, settings_fit}
use ersap_ejfat.Assemble.Fast.{
  get_packetized_buffer_fast, loop_fast, round_fast, take_fast, read_in_place, read_at,
}
use ersap_ejfat.Assemble.Fast.InPlace.{read_in_place-read_packet}

abbrev event : ℕ → List ℕ → Event
event i chunk = record {
  datagram = received (re_packet settings 2 i chunk) (replicate 16 0) 0;
  malloc_ok = true;
}

abbrev before : Shared
before = record {
  mem = replicate 50 9;
  last = false;
  tick = 0;
  exp_sequence = 0;
  bytes_per_packet = 0;
  packet_count = 0;
  stored = [];
}

-- 18 bytes of data are returned as 34.
counts_header :
    get_packetized_buffer_fast 0 true 50 before
      (event 0 (replicate 16 1) ∷ event 1 (2 ∷ 3 ∷ []) ∷ [])
    ≡ ok (
        returned
          (pos 34)
          (record {
            mem = replicate 16 1 ++ (2 ∷ 3 ∷ []) ++ (replicate 14 0 ++ replicate 18 9);
            last = true;
            tick = 7;
            exp_sequence = 2;
            bytes_per_packet = 0;
            packet_count = 2;
            stored = [];
          })
          [])
unfolding get_packetized_buffer_fast loop_fast round_fast take_fast read_in_place read_at
    put_in_order drain settle advance copy_packet read_packet_recv_from set_re_metadata
    parse_re_header htons htonl htonll ntohs ntohl ntohll bswap_16 bswap_32 store load write slice
counts_header = refl

-- Behind a first packet of 2 bytes, the second one is read in front of the buffer.
in_front :
    get_packetized_buffer_fast 0 true 50 before (event 0 (1 ∷ 1 ∷ []) ∷ event 1 (2 ∷ 3 ∷ []) ∷ [])
    ≡ fault overread
unfolding get_packetized_buffer_fast loop_fast round_fast take_fast read_in_place read_at
    put_in_order drain settle advance copy_packet read_packet_recv_from set_re_metadata
    parse_re_header htons htonl htonll ntohs ntohl ntohll bswap_16 bswap_32 store load write slice
in_front = refl

read_in_place-read_packet_example :
    (mem' : List ℕ) × (read_packet
        (replicate 40 9)
        20
        18
        (received (re_packet settings 3 1 (12 ∷ 13 ∷ [])) [] 0)
      ≡ ok (mem', packet (re_header settings 3 1) 2))
    × (read_in_place (replicate 40 9) 20 18 (received (re_packet settings 3 1 (12 ∷ 13 ∷ [])) [] 0)
        ≡ ok (mem', packet (re_header settings 3 1) (16 + 2)))
read_in_place-read_packet_example =
    read_in_place-read_packet settings_fit (replicate 40 9) 20 18 1 (12 ∷ 13 ∷ []) [] 0 refl
      (omega arith) (omega arith) (omega arith)
