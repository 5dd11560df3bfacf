-- ===== src/Plain/Engine/Tests.antt =====
-- The message of three packets through `EjfatAssembleEngine::process`, and a receive error.
use ersap_ejfat.Base.{
  ◌≡◌, refl, true, false, none, some, List, [], ◌∷◌, take, replicate, flatten, negsuc,
}
use ersap_ejfat.Base.Memory.{ok, write, slice}
use ersap_ejfat.Wire.Bytes.{
  store, load, bswap_16, bswap_32, htons, htonl, htonll, ntohs, ntohl, ntohll,
}
use ersap_ejfat.Wire.{set_re_metadata, parse_re_header}
use ersap_ejfat.Assemble.{recv_failed, Event, read_packet}
use ersap_ejfat.Assemble.Store.{emplace, free_map}
use ersap_ejfat.Assemble.Loop.{
  returned, get_packetized_buffer, loop, round, take_packet, put_aside, put_in_order, drain,
  restore, settle, advance,
}
use ersap_ejfat.Assemble.Message.{arrived}
use ersap_ejfat.Assemble.Tests.{settings, three_chunks, settings_fit, event}
use ersap_ejfat.Assemble.GetBuffer.{
  fresh, grow, after_data, after_outcome, copy_loop, copy, get_buffer,
}
use ersap_ejfat.Assemble.GetBuffer.Tests.{malloc, malloc-Allocates, message_block}
use ersap_ejfat.Plain.Engine.{finished, process, process_delivers, process_sends_null}

abbrev pub events : List Event
events = event 2 (14 ∷ []) ∷ event 0 (10 ∷ 11 ∷ []) ∷ event 1 (12 ∷ 13 ∷ []) ∷ []

pub processes_message :
    process true true malloc true none 77 false events ≡ ok (finished (some message_block) 5 true)
unfolding process get_buffer copy copy_loop after_outcome after_data grow get_packetized_buffer loop
    round take_packet put_aside put_in_order drain restore settle advance emplace free_map
    read_packet set_re_metadata parse_re_header htons htonl htonll ntohs ntohl ntohll bswap_16
    bswap_32 store load write slice
processes_message = refl

process_delivers_example : take 5 message_block ≡ flatten three_chunks
process_delivers_example =
    process_delivers settings three_chunks settings_fit malloc malloc-Allocates true true true 77
      events
      (
        arrived 2 (14 ∷ []) [] 0 refl,
        (arrived 0 (10 ∷ 11 ∷ []) [] 0 refl, (arrived 1 (12 ∷ 13 ∷ []) [] 0 refl, tt)),
      )
      processes_message

abbrev failing : List Event
failing = record { datagram = recv_failed; malloc_ok = true } ∷ []

call_fails :
    get_packetized_buffer false true 100000 (fresh (replicate 100000 0) false) failing
    ≡ ok (returned (negsuc 0) (fresh (replicate 100000 0) false) [])
unfolding get_packetized_buffer loop round read_packet
call_fails = refl

frees_nothing : free_map [] ≡ ok []
unfolding free_map
frees_nothing = refl

process_sends_null_example :
    process true true malloc false none 77 false failing ≡ ok (finished none 77 true)
process_sends_null_example =
    process_sends_null malloc false 77 0 (replicate 100000 0) failing refl call_fails frees_nothing
