-- ===== src/Config/Packetizer.antt =====
-- `EjfatPacketizeEngine::parseConfigFile` and the constructor of ejfat_packetize_engine.cpp. The file is
-- the list of its lines.
pub mod Lines
pub mod Errno
pub mod Tests
use ersap_ejfat.Base.{
  ℕ, ◌==◌, ==_iff, ◌&&◌, ◌≡◌, refl, sym, ap, ap₂, ◌∙◌, Bool, true, false, ◌||◌, Bool-cases, inl,
  inr, Option, none, some, List, [], ◌∷◌, if◌then◌else◌, ℤ, pos, arith,
}
use ersap_ejfat.Base.Memory.{Run, ok, ◌>>=◌}
use ersap_ejfat.Config.{line_fields}
use ersap_ejfat.Config.Number.{Strtol, erange, unsigned_or, int_or, to_unsigned, same, says_true}

pub data Key : Type 0 where
  port mtu version delay protocol data_id debug host interface other : Key

-- The keys, in the order of the tests.
abbrev pub keys : List (List ℕ × Key)
keys =
    (b'p' ∷ b'o' ∷ b'r' ∷ b't' ∷ [], port)
    ∷ (b'm' ∷ b't' ∷ b'u' ∷ [], mtu)
    ∷ (b'v' ∷ b'e' ∷ b'r' ∷ b's' ∷ b'i' ∷ b'o' ∷ b'n' ∷ [], version)
    ∷ (b'd' ∷ b'e' ∷ b'l' ∷ b'a' ∷ b'y' ∷ [], delay)
    ∷ (b'p' ∷ b'r' ∷ b'o' ∷ b't' ∷ b'o' ∷ b'c' ∷ b'o' ∷ b'l' ∷ [], protocol)
    ∷ (b'd' ∷ b'a' ∷ b't' ∷ b'a' ∷ b'I' ∷ b'd' ∷ [], data_id)
    ∷ (b'd' ∷ b'e' ∷ b'b' ∷ b'u' ∷ b'g' ∷ [], debug)
    ∷ (b'h' ∷ b'o' ∷ b's' ∷ b't' ∷ [], host)
    ∷ (b'i' ∷ b'n' ∷ b't' ∷ b'e' ∷ b'r' ∷ b'f' ∷ b'a' ∷ b'c' ∷ b'e' ∷ [], interface)
    ∷ []

abbrev pub key_of : List (List ℕ × Key) → List ℕ → Key
key_of [] key = other
key_of ((name, k) ∷ rest) key = let later = key_of rest key in if same key name then k else later

-- The members of the engine.
pub record Engine : Type 0 where
  pub port : ℕ
  pub mtu : ℤ
  pub version : ℤ
  pub delay : ℕ
  pub protocol : ℤ
  pub data_id : ℕ
  pub debug : Bool
  pub host : List ℕ
  pub interface : List ℕ

-- One line: errno and the engine behind it.
unfoldable pub assign : Strtol → Key → List ℕ → ℕ × Engine → ℕ × Engine
assign strtol port val (errno, e) =
    let r = strtol val errno in (r.1, record e { port = unsigned_or 16 19522 r })
assign strtol mtu val (errno, e) =
    let r = strtol val errno in (r.1, record e { mtu = int_or (pos 1024) r })
assign strtol version val (errno, e) =
    let r = strtol val errno in (r.1, record e { version = int_or (pos 1) r })
assign strtol delay val (errno, e) =
    let r = strtol val errno in (r.1, record e { delay = unsigned_or 32 0 r })
assign strtol protocol val (errno, e) =
    let r = strtol val errno in (r.1, record e { protocol = int_or (pos 1) r })
assign strtol data_id val (errno, e) =
    let r = strtol val errno in (r.1, record e { data_id = unsigned_or 16 1 r })
assign strtol debug val (errno, e) =
    (errno, record e { debug = if says_true val then true else e.debug })
assign strtol host val (errno, e) = (errno, record e { host = val })
assign strtol interface val (errno, e) = (errno, record e { interface = val })
assign strtol other val s = s

unfoldable pub parse_lines : Strtol → List (List ℕ) → ℕ × Engine → Run (ℕ × Engine)
parse_lines strtol [] s = ok s
parse_lines strtol (line ∷ lines) s =
    line_fields line >>= λ kv. parse_lines strtol lines (assign strtol (key_of keys kv.0) kv.1 s)

-- What the constructor sets.
abbrev pub defaults : Engine
defaults = record {
  port = 19522;
  mtu = pos 1024;
  version = pos 1;
  delay = 0;
  protocol = pos 1;
  data_id = 1;
  debug = false;
  host = b'1' ∷ b'2' ∷ b'7' ∷ b'.' ∷ b'0' ∷ b'.' ∷ b'0' ∷ b'.' ∷ b'1' ∷ [];
  interface = b'e' ∷ b't' ∷ b'h' ∷ b'0' ∷ [];
}

-- `none` is a file that cannot be opened.
unfoldable pub parse_config_file : Strtol → ℕ → Option (List (List ℕ)) → Engine → Run (ℕ × Engine)
parse_config_file strtol errno none e = ok (errno, e)
parse_config_file strtol errno (some lines) e = parse_lines strtol lines (errno, e)
