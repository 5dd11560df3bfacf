-- ===== src/Services/Configure.antt =====
-- What the services read from their JSON configuration: `configure` of ejfat_packetize_service.cpp,
-- ejfat_assemble_service.cpp and, up to the opening of sockets, ejfat_assemble_et_service.cpp.
use ersap_ejfat.Base.{ℕ, Bool, false, Option, List, [], ◌∷◌, ℤ, pos}
use ersap_ejfat.Config.Number.{to_unsigned}
use ersap_ejfat.Services.{Json, ◌>>=◌, pure, optional}

-- The members that `configure` sets.
pub record Service : Type 0 where
  pub host : List ℕ
  pub interface : List ℕ
  pub mtu : ℤ
  pub port : ℕ
  pub ver : ℤ
  pub data_id : ℕ
  pub protocol : ℤ
  pub delay : ℕ
  pub debug : Bool

unfoldable pub configure : Json → Option Service
configure config = do
  host ←
      optional config config.get_string (b'h' ∷ b'o' ∷ b's' ∷ b't' ∷ [])
        (b'1' ∷ b'2' ∷ b'7' ∷ b'.' ∷ b'0' ∷ b'.' ∷ b'0' ∷ b'.' ∷ b'1' ∷ [])
  interface ←
      optional config config.get_string
        (b'i' ∷ b'n' ∷ b't' ∷ b'e' ∷ b'r' ∷ b'f' ∷ b'a' ∷ b'c' ∷ b'e' ∷ [])
        (b'e' ∷ b't' ∷ b'h' ∷ b'0' ∷ [])
  debug ← optional config config.get_bool (b'd' ∷ b'e' ∷ b'b' ∷ b'u' ∷ b'g' ∷ []) false
  mtu ← optional config config.get_int (b'm' ∷ b't' ∷ b'u' ∷ []) (pos 1024)
  port ← optional config config.get_int (b'p' ∷ b'o' ∷ b'r' ∷ b't' ∷ []) (pos 19522)
  ver ← optional config config.get_int (b'v' ∷ b'e' ∷ b'r' ∷ b's' ∷ b'i' ∷ b'o' ∷ b'n' ∷ []) (pos 1)
  delay ← optional config config.get_int (b'd' ∷ b'e' ∷ b'l' ∷ b'a' ∷ b'y' ∷ []) (pos 0)
  data_id ← optional config config.get_int (b'd' ∷ b'a' ∷ b't' ∷ b'a' ∷ b'I' ∷ b'd' ∷ []) (pos 1)
  protocol ←
      optional config config.get_int (b'p' ∷ b'r' ∷ b'o' ∷ b't' ∷ b'o' ∷ b'c' ∷ b'o' ∷ b'l' ∷ [])
        (pos 1)
  pure (record {
    host = host;
    interface = interface;
    mtu = mtu;
    port = to_unsigned 16 port;
    ver = ver;
    data_id = to_unsigned 16 data_id;
    protocol = protocol;
    delay = to_unsigned 32 delay;
    debug = debug;
  })

-- `EjfatAssembleService`: interface and port, which must be there.
unfoldable pub configure_assembler : Json → Option (List ℕ × ℤ)
configure_assembler config = do
  interface ← config.get_string (b'i' ∷ b'n' ∷ b't' ∷ b'e' ∷ b'r' ∷ b'f' ∷ b'a' ∷ b'c' ∷ b'e' ∷ [])
  port ← config.get_int (b'p' ∷ b'o' ∷ b'r' ∷ b't' ∷ [])
  pure (interface, port)

-- `EjfatAssembleEtService`: debug, the name of the ET system, the port, and the list of ids.
unfoldable pub configure_sources : Json → Option (Bool × (List ℕ × (ℤ × List ℕ)))
configure_sources config = do
  debug ← optional config config.get_bool (b'd' ∷ b'e' ∷ b'b' ∷ b'u' ∷ b'g' ∷ []) false
  et_name ← config.get_string (b'e' ∷ b't' ∷ b'N' ∷ b'a' ∷ b'm' ∷ b'e' ∷ [])
  port ← optional config config.get_int (b'p' ∷ b'o' ∷ b'r' ∷ b't' ∷ []) (pos 7777)
  id_list ← config.get_string (b'i' ∷ b'd' ∷ b's' ∷ [])
  pure (debug, (et_name, (port, id_list)))
