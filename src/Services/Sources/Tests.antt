-- ===== src/Services/Sources/Tests.antt =====
-- The ET service with the ids 1 and 2.
use ersap_ejfat.Base.{
  ◌≡◌, refl, true, false, none, some, List, [], ◌∷◌, replicate, leb, if◌then◌else◌, ℤ, pos,
}
use ersap_ejfat.Base.Memory.{ok, ◌>>=◌}
use ersap_ejfat.Config.{split_from}
use ersap_ejfat.Config.Packetizer.Tests.{strtol}
use ersap_ejfat.Config.Sources.{store_ids, parse_config_file}
use ersap_ejfat.Config.Sources.Handles.{
  System, Handles, udp, et_system, et_fifo, open_et, construct, count,
}
use ersap_ejfat.Config.Sources.Tests.{atoi, no_ids}
use ersap_ejfat.Services.{Json}
use ersap_ejfat.Services.Configure.{configure_sources}
use ersap_ejfat.Services.Sources.{
  configured, exception, exited, open_all, with_id_list, with_config, configure,
}
use ersap_ejfat.Services.Sources.Lives.{
  Live, ready, throws, exits, make_engine, configure_service, shutdown,
}
use ersap_ejfat.Services.Sources.Leaks.{
  with_sockets, first, shutdown-leaks, configure_service_no_file,
}

-- A configuration that has the ids "1,2", and "et" for every other text.
abbrev config : Json
config = record {
  has_key = λ key. false;
  get_string = λ key. elim key [
    | [] ↦ none
    | c ∷ cs ↦ some (if leb c 101 then b'e' ∷ b't' ∷ [] else b'1' ∷ b',' ∷ b'2' ∷ [])
  ];
  get_int = λ key. none;
  get_bool = λ key. none;
}

-- The ET library opens every name, and the socket is 3.
abbrev system : System
system = record {
  socket = some 3;
  bound = true;
  et_open = λ name. some 4;
  et_fifo_open = λ id ids count. some 5;
}

reads_config :
    configure_sources config ≡ some (false, (b'e' ∷ b't' ∷ [], (pos 7777, b'1' ∷ b',' ∷ b'2' ∷ [])))
unfolding configure_sources
reads_config = refl

abbrev array : List ℤ
array = replicate 1024 (pos 0)

abbrev own_handles : Handles
own_handles = record { sock = some 3; id = 4; fid = 5 }

-- The engine's own answers.
abbrev system_of_engine : System
system_of_engine = record {
  socket = some 6;
  bound = false;
  et_open = λ name. some 7;
  et_fifo_open = λ id ids count. some 8;
}

abbrev live : Live
live = record {
  members = record {
    port = pos 7777;
    et_name = b'e' ∷ b't' ∷ [];
    ids = pos 1 ∷ pos 2 ∷ replicate 1022 (pos 0);
    id_count = 2;
    debug = false;
  };
  handles = own_handles;
  engine = no_ids;
  engine_handles = record { sock = some 6; id = 7; fid = 8 };
  opened = et_fifo 8 ∷ et_system 7 ∷ udp 6 ∷ et_fifo 5 ∷ et_system 4 ∷ udp 3 ∷ [];
}

is_ready :
    configure_service strtol atoi system system_of_engine 0 none no_ids array config none []
    ≡ ok (ready live)
unfolding configure_service configure with_config with_id_list open_all open_et make_engine
    construct parse_config_file configure_sources store_ids split_from
is_ready = refl

shutdown-leaks_example : count (udp 3) (shutdown live) ≡ count (udp 3) (with_sockets live [])
shutdown-leaks_example =
    shutdown-leaks strtol atoi live []
      (first system system_of_engine 0 none no_ids array config [] live is_ready) (udp 3)

-- ET opens every system that has a name.
abbrev needs_name : System
needs_name = record {
  socket = some 6;
  bound = true;
  et_open = λ name. elim name [ [] ↦ none | c ∷ cs ↦ some 7 ];
  et_fifo_open = λ id ids count. some 8;
}

configure_service_no_file_example :
    configure_service strtol atoi system needs_name 0 none no_ids array config none [] ≡ (
      configure atoi system array config >>= λ r.
      ok (elim r [ configured m h ↦ exits | exception ↦ throws | exited ↦ exits ]))
configure_service_no_file_example =
    configure_service_no_file strtol atoi system needs_name 0 no_ids array config none [] refl
