-- ===== src/Assemble/GetBuffer/Tests.antt =====
-- `getBuffer` on a message of three packets, and on errors.
use ersap_ejfat.Base.{
  ℕ, zero, suc, ◌^◌, ◌≡◌, refl, sym, Bool, true, false, Bool-cases, inl, inr, none, some, List, [],
  ◌∷◌, ◌++◌, ltb, ltb→lt, if◌then◌else◌, length, take, replicate, flatten, pos, negsuc, arith,
}
use ersap_ejfat.Base.Memory.{ok, fault, double_free, write, slice}
use ersap_ejfat.Wire.Bytes.{
  store, load, bswap_16, bswap_32, htons, htonl, htonll, ntohs, ntohl, ntohll,
}
use ersap_ejfat.Wire.{ReHeader, set_re_metadata, parse_re_header}
use ersap_ejfat.Assemble.{
  packet, received, recv_failed, Event, read_by, copy_packet, read_packet_recv_from,
}
use ersap_ejfat.Assemble.Store.{emplace, free_map, Stored}
use ersap_ejfat.Assemble.Loop.{
  Shared, Locals, returned, get_packetized_buffer, loop, round, take_packet, put_aside,
  put_in_order, drain, restore, settle, advance, free_and_return,
}
use ersap_ejfat.Assemble.Message.{re_packet, arrived}
use ersap_ejfat.Assemble.Tests.{settings, three_chunks, settings_fit}
use ersap_ejfat.Assemble.GetBuffer.{
  Malloc, Growing, Returned, done, fresh, grow, after_data, after_outcome, copy_loop, copy,
  points_to, get_buffer,
}
use ersap_ejfat.Assemble.GetBuffer.Blocks.{Allocates}
use ersap_ejfat.Assemble.GetBuffer.Fuel.{LoopEnds, copy_loop-LoopEnds}
use ersap_ejfat.Assemble.GetBuffer.Complete.{get_buffer_complete}
use ersap_ejfat.Assemble.GetBuffer.Errors.{loop_double_free}
use ersap_ejfat.Assemble.GetBuffer.Swallows.{no_copy_swallows}

abbrev pub malloc : Malloc
malloc n = if ltb n (2 ^ 31) then some (replicate n 0) else none

length-replicate : (n : ℕ) → length {A = ℕ} (replicate n 0) ≡ n
length-replicate zero = refl
length-replicate (suc n) = let h = length-replicate n in omega arith

pub malloc-Allocates : Allocates malloc
malloc-Allocates = record {
  sized = λ n block e. elim (Bool-cases (ltb n (2 ^ 31))) [
    | inl small ↦
        let p : some (replicate n 0) ≡ some block = rw small at e in
        let same : replicate n 0 ≡ block = ground arith in rw (sym same) (length-replicate n)
    | inr large ↦ let p : none ≡ some block = rw large at e in absurd (ground arith)
  ];
  limit = λ n block e. elim (Bool-cases (ltb n (2 ^ 31))) [
    | inl small ↦ ltb→lt _ _ small
    | inr large ↦ let p : none ≡ some block = rw large at e in absurd (ground arith)
  ];
}

abbrev pub event : ℕ → List ℕ → Event
event i chunk = record {
  datagram = received (re_packet settings 3 i chunk) (replicate 16 0) 0;
  malloc_ok = true;
}

abbrev pub events : List Event
events = event 0 (10 ∷ 11 ∷ []) ∷ event 2 (14 ∷ []) ∷ event 1 (12 ∷ 13 ∷ []) ∷ []

abbrev pub message_block : List ℕ
message_block = 10 ∷ 11 ∷ 12 ∷ 13 ∷ 14 ∷ replicate 99995 0

abbrev pub whole : Returned
whole = record { value = pos 0; user_buf = some message_block; user_buf_len = some 5 }

pub gets_message :
    get_buffer true malloc false (points_to none) (some 0) false events ≡ ok (done whole)
unfolding get_buffer copy copy_loop after_outcome after_data grow get_packetized_buffer loop round
    take_packet put_aside put_in_order drain restore settle advance emplace free_map copy_packet
    read_packet_recv_from set_re_metadata parse_re_header htons htonl htonll ntohs ntohl ntohll
    bswap_16 bswap_32 store load write slice
gets_message = refl

get_buffer_complete_example :
    (whole.value ≡ pos 0)
    × ((len : ℕ) × (whole.user_buf_len ≡ some len)
        × (take len message_block ≡ flatten three_chunks))
get_buffer_complete_example =
    get_buffer_complete settings three_chunks settings_fit malloc malloc-Allocates true false none 0
      events
      (
        arrived 0 (10 ∷ 11 ∷ []) (replicate 16 0) 0 refl,
        (
          arrived 2 (14 ∷ []) (replicate 16 0) 0 refl,
          (arrived 1 (12 ∷ 13 ∷ []) (replicate 16 0) 0 refl, tt),
        ),
      )
      gets_message refl

-- A packet that is put aside, and a receive error.
abbrev pub failing : List Event
failing = event 2 (14 ∷ []) ∷ record { datagram = recv_failed; malloc_ok = true } ∷ []

abbrev pub block : List ℕ
block = replicate 100000 0

abbrev pub kept : Bool → Stored
kept live = record { block = 14 ∷ []; n_bytes = 1; last = true; first = false; live = live }

abbrev pub stopped : Bool → Shared
stopped last = record (fresh (14 ∷ replicate 99999 0) last) {
  bytes_per_packet = 0;
  stored = (2, kept true) ∷ [];
}

pub call_fails :
    (last : Bool)
    → get_packetized_buffer true true 100000 (fresh block last) failing
      ≡ ok (
          returned
            (negsuc 0)
            (record (stopped last) { mem = 14 ∷ replicate 16 0 ++ replicate 99983 0 })
            [])
unfolding get_packetized_buffer loop round take_packet put_aside put_in_order drain restore settle
    advance emplace free_map copy_packet read_packet_recv_from set_re_metadata parse_re_header htons
    htonl htonll ntohs ntohl ntohll bswap_16 bswap_32 store load write slice
call_fails last = refl

pub frees : free_map ((2, kept true) ∷ []) ≡ ok ((2, kept false) ∷ [])
unfolding free_map
frees = refl

no_copy_swallows_example :
    get_buffer true malloc true (points_to (some block)) (some 100000) true failing
    ≡ ok (
        done (record {
          value = pos 0;
          user_buf = some (14 ∷ replicate 16 0 ++ replicate 99983 0);
          user_buf_len = none;
        }))
no_copy_swallows_example =
    no_copy_swallows true malloc block 100000 0 failing (call_fails true) frees

-- Packet 2 is put aside, packet 0 comes, and comes again: the second one is an error.
abbrev repeated : List Event
repeated = event 2 (14 ∷ []) ∷ event 0 (10 ∷ 11 ∷ []) ∷ event 0 (10 ∷ 11 ∷ []) ∷ []

frees_twice :
    get_buffer true malloc false (points_to none) (some 0) false repeated ≡ fault double_free
unfolding get_buffer copy copy_loop after_outcome after_data grow get_packetized_buffer loop round
    take_packet put_aside put_in_order drain restore settle advance emplace free_map copy_packet
    read_packet_recv_from set_re_metadata parse_re_header htons htonl htonll ntohs ntohl ntohll
    bswap_16 bswap_32 store load write slice free_and_return
frees_twice = refl

abbrev waiting_for_1 : Bool → Locals
waiting_for_1 live = record {
  mem = 10 ∷ 11 ∷ replicate 18 9;
  stored = (2, kept live) ∷ [];
  bytes_per_packet = 0;
  put_data_at = 2;
  remaining_len = 18;
  total_bytes_read = 2;
  expected_sequence = 1;
  pkt_count = 1;
  max_packet_bytes = 2;
  first_read_for_buf = false;
  too_little_room = false;
  packet_tick = 7;
  packet_first = true;
  packet_last = false;
}

abbrev header_0 : ReHeader
header_0 = record { version = 1; first = true; last = false; data_id = 3; sequence = 0; tick = 7 }

abbrev after_freed : Locals
after_freed = record (waiting_for_1 false) {
  bytes_per_packet = 4294967282;
  first_read_for_buf = true;
}

abbrev growing : Growing
growing = record {
  data_buf = block;
  data_buf_len = 100000;
  remaining_bytes = 100000;
  total_bytes = 0;
  first_read = true;
  shared = fresh [] false;
}

abbrev header_first : Event
header_first = event 0 (10 ∷ 11 ∷ [])

abbrev over_read : List ℕ
over_read = 10 ∷ 11 ∷ 10 ∷ 11 ∷ replicate 16 0

reads_repeated :
    read_by true (waiting_for_1 true).mem 2 18 header_first.datagram
    ≡ ok (over_read, packet header_0 2)
unfolding copy_packet read_packet_recv_from set_re_metadata parse_re_header htons htonl htonll ntohs
    ntohl ntohll bswap_16 bswap_32 store load write slice
reads_repeated = refl

loop_double_free_example :
    (out : Shared) × (loop true true (stopped false) (waiting_for_1 true) (header_first ∷ [])
      ≡ ok (returned (negsuc 3) out []))
    × (out.stored ≡ (2, kept false) ∷ [])
    × (after_outcome malloc growing (returned (negsuc 3) out []) ≡ fault double_free)
loop_double_free_example =
    loop_double_free true true (stopped false) (waiting_for_1 true) header_first [] over_read
      header_0 2 malloc growing reads_repeated (omega arith) (refl, tt) (omega arith)

copy_loop-LoopEnds_example :
    LoopEnds true malloc growing events (copy_loop true malloc 4 growing events)
copy_loop-LoopEnds_example = copy_loop-LoopEnds true malloc 4 growing events (omega arith)
