-- ===== src/Wire.antt =====
-- The two headers in front of every datagram: the load balancer's 12 bytes and the reassembly
-- header's 16 bytes, written by ejfat_packetize.hpp and read by ejfat_assemble_ersap.hpp (both
-- under ejfat/legacy/src/main/cpp). The host stores integers with the low byte first.
pub mod Bytes
pub mod RoundTrip
mod Tests
use ersap_ejfat.Base.{
  ℕ, ◌+◌, ◌-◌, ◌*◌, ◌/◌, ◌%◌, ◌^◌, Bool, true, false, List, [], ◌∷◌, ◌++◌, bit_and, ltb, ◌==◌,
  if◌then◌else◌, get_or, take, drop,
}
use Bytes.{store, load, htons, htonl, htonll, ntohs, ntohl, ntohll}

abbrev pub lb_header_bytes : ℕ
lb_header_bytes = 12

-- The reassembly header alone, as the receiver counts it.
abbrev pub header_bytes : ℕ
header_bytes = 16

-- A bool read as a number.
abbrev pub bit : Bool → ℕ
bit b = if b then 1 else 0

-- The bytes that `setLbMetadata` leaves in its buffer. `version` and `protocol` are the bit
-- patterns of ints, which a char keeps the low byte of.
unfoldable pub set_lb_metadata : ℕ → ℕ → ℕ → List ℕ
unfolding store htonll
set_lb_metadata tick version protocol =
    b'L' ∷ b'B' ∷ version % 2 ^ 8 ∷ protocol % 2 ^ 8 ∷ store 8 (htonll tick)

-- The bytes that `setReMetadata` leaves in its buffer.
unfoldable pub set_re_metadata : Bool → Bool → ℕ → ℕ → ℕ → ℕ → List ℕ
unfolding store htons htonl htonll
set_re_metadata first last tick offset version data_id =
    version * 2 ^ 4 % 2 ^ 8
    ∷ (bit first * 2 + bit last)
    ∷ (store 2 (htons data_id) ++ (store 4 (htonl offset) ++ store 8 (htonll tick)))

pub record LbHeader : Type 0 where
  pub ll : ℕ
  pub bb : ℕ
  pub version : ℕ
  pub protocol : ℕ
  pub tick : ℕ

pub record ReHeader : Type 0 where
  pub version : ℕ
  pub first : Bool
  pub last : Bool
  pub data_id : ℕ
  pub sequence : ℕ
  pub tick : ℕ

-- `n` bytes of the buffer from position `at`, as an integer of the host.
abbrev field : List ℕ → ℕ → ℕ → ℕ
field buffer at n = load (take n (drop at buffer))

-- `(uint32_t) c` for a signed char `c`: the sign is spread over the upper bytes.
abbrev pub char_to_u32 : ℕ → ℕ
char_to_u32 c = if ltb c 128 then c else c + (2 ^ 32 - 2 ^ 8)

unfoldable pub parse_lb_header : List ℕ → LbHeader
unfolding load ntohll
parse_lb_header buffer = record {
  ll = get_or buffer 0 0;
  bb = get_or buffer 1 0;
  version = char_to_u32 (get_or buffer 2 0);
  protocol = char_to_u32 (get_or buffer 3 0);
  tick = ntohll (field buffer 4 8);
}

unfoldable pub parse_re_header : List ℕ → ReHeader
unfolding load ntohs ntohl ntohll
parse_re_header buffer = record {
  version = bit_and (get_or buffer 0 0) 0xf0 / 2 ^ 4;
  first = bit_and (get_or buffer 1 0) 0x02 / 2 == 1;
  last = bit_and (get_or buffer 1 0) 0x01 == 1;
  data_id = ntohs (field buffer 2 2);
  sequence = ntohl (field buffer 4 4);
  tick = ntohll (field buffer 8 8);
}
