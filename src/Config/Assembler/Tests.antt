-- ===== src/Config/Assembler/Tests.antt =====
-- Files that switch zmq on.
use ersap_ejfat.Base.{ℕ, ◌≡◌, refl, true, false, some, List, [], ◌∷◌, ℤ, pos}
use ersap_ejfat.Base.Memory.{ok, fault, overrun}
use ersap_ejfat.Config.{split_from, skip_spaces, cut_spaces, trim, key_value, line_fields}
use ersap_ejfat.Config.Number.{Strtol}
use ersap_ejfat.Config.Assembler.{
  Engine, assign_port, assign_other, parse_lines, parse_config_file, parse_config_file-bounded,
}

abbrev strtol : Strtol
strtol val errno = (pos 0, errno)

abbrev connect : List ℕ → ℤ
connect dest = pos 0

-- The address 192.168.100.100 and port 65535.
abbrev engine : Engine
engine = record {
  port = 7777;
  interface = [];
  dest_port = 65535;
  dest_ip =
      (b'1' ∷ b'9' ∷ b'2' ∷ b'.' ∷ b'1' ∷ b'6' ∷ b'8' ∷ b'.' ∷ b'1' ∷ b'0' ∷ b'0' ∷ b'.' ∷ b'1'
        ∷ b'0' ∷ b'0' ∷ []);
  debug = false;
  zmq = false;
}

at_zmq :
    line_fields (b'z' ∷ b'm' ∷ b'q' ∷ b':' ∷ b'o' ∷ b'n' ∷ [])
    ≡ ok ((b'z' ∷ b'm' ∷ b'q' ∷ []), (b'o' ∷ b'n' ∷ []))
unfolding key_value split_from trim skip_spaces cut_spaces
at_zmq = refl

parses :
    parse_lines strtol ((b'z' ∷ b'm' ∷ b'q' ∷ b':' ∷ b'o' ∷ b'n' ∷ []) ∷ []) (0, engine)
    ≡ ok (0, record engine { zmq = true })
unfolding parse_lines assign_port assign_other
parses = rw at_zmq refl

parse_config_file-bounded_example :
    parse_config_file strtol connect 0
      (some ((b'z' ∷ b'm' ∷ b'q' ∷ b':' ∷ b'o' ∷ b'n' ∷ []) ∷ []))
      engine
    ≡ fault overrun
parse_config_file-bounded_example =
    parse_config_file-bounded strtol connect 0 ((b'z' ∷ b'm' ∷ b'q' ∷ b':' ∷ b'o' ∷ b'n' ∷ []) ∷ [])
      engine (0, record engine { zmq = true }) parses
