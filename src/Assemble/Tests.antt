-- ===== src/Assemble/Tests.antt =====
-- The second and third packet of a message of three, in the wrong order.
use ersap_ejfat.Base.{ℕ, ◌≡◌, refl, true, false, List, [], ◌∷◌, pos, negsuc, replicate, arith}
use ersap_ejfat.Base.Memory.{ok, write, slice}
use ersap_ejfat.Wire.Bytes.{
  store, load, bswap_16, bswap_32, htons, htonl, htonll, ntohs, ntohl, ntohll,
}
use ersap_ejfat.Wire.{set_re_metadata, parse_re_header}
use ersap_ejfat.Packetize.{Settings}
use ersap_ejfat.Assemble.{received, Event, read_packet}
use ersap_ejfat.Assemble.Store.{emplace, free_map}
use ersap_ejfat.Assemble.Loop.{
  Shared, returned, get_packetized_buffer, loop, round, take_packet, put_aside, put_in_order, drain,
  restore, settle, advance, free_and_return,
}
use ersap_ejfat.Assemble.Message.{Fits, re_packet, arrived}
use ersap_ejfat.Assemble.Safety.{Gathered, get_packetized_buffer-Gathered}

abbrev pub settings : Settings
settings = record { tick = 7; protocol = 1; version = 1; data_id = 3; last_buffer = true }

abbrev pub three_chunks : List (List ℕ)
three_chunks = (10 ∷ 11 ∷ []) ∷ (12 ∷ 13 ∷ []) ∷ (14 ∷ []) ∷ []

abbrev pub event : ℕ → List ℕ → Event
event i chunk = record { datagram = received (re_packet settings 3 i chunk) [] 0; malloc_ok = true }

abbrev events : List Event
events = event 2 (14 ∷ []) ∷ event 1 (12 ∷ 13 ∷ []) ∷ []

abbrev before : Shared
before = record {
  mem = replicate 8 9;
  last = false;
  tick = 0;
  exp_sequence = 1;
  bytes_per_packet = 2;
  packet_count = 0;
  stored = [];
}

abbrev after : Shared
after = record {
  mem = 12 ∷ 13 ∷ 14 ∷ replicate 5 9;
  last = true;
  tick = 7;
  exp_sequence = 3;
  bytes_per_packet = 2;
  packet_count = 2;
  stored = [];
}

gathers_rest : get_packetized_buffer false false 8 before events ≡ ok (returned (pos 3) after [])
unfolding get_packetized_buffer loop round take_packet put_aside put_in_order drain restore settle
    advance emplace free_map read_packet set_re_metadata parse_re_header htons htonl htonll ntohs
    ntohl ntohll bswap_16 bswap_32 store load write slice
gathers_rest = refl

pub settings_fit : Fits settings three_chunks
settings_fit = record {
  tick_fits = omega arith;
  data_id_fits = omega arith;
  count_fits = omega arith;
}

get_packetized_buffer-Gathered_example : Gathered three_chunks settings_fit.count_fits 1 8 3 after
get_packetized_buffer-Gathered_example =
    get_packetized_buffer-Gathered settings three_chunks settings_fit false false 8 before events
      (arrived 2 (14 ∷ []) [] 0 refl, (arrived 1 (12 ∷ 13 ∷ []) [] 0 refl, tt)) (omega arith) tt
      gathers_rest

-- A packet that came before is an error; the blocks of the map are freed and stay in it.
refuses_old :
    get_packetized_buffer false false 8 before (event 2 (14 ∷ []) ∷ event 0 (10 ∷ 11 ∷ []) ∷ [])
    ≡ ok (
        returned
          (negsuc 3)
          (record before {
            mem = 10 ∷ 11 ∷ replicate 6 9;
            bytes_per_packet = 4294967282;
            stored =
                (
                  2,
                  record { block = 14 ∷ []; n_bytes = 1; last = true; first = false; live = false },
                )
                ∷ [];
          })
          [])
unfolding get_packetized_buffer loop round take_packet put_aside put_in_order drain restore settle
    advance emplace free_map read_packet set_re_metadata parse_re_header htons htonl htonll ntohs
    ntohl ntohll bswap_16 bswap_32 store load write slice free_and_return
refuses_old = refl
