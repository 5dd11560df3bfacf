-- ===== src/Wire/Tests.antt =====
-- The headers at concrete values.
use ersap_ejfat.Base.{◌≡◌, refl, true, false, [], ◌∷◌, ◌++◌, ◌^◌, ◌<◌, arith}
use ersap_ejfat.Wire.{set_lb_metadata, set_re_metadata, parse_lb_header, parse_re_header}
use ersap_ejfat.Wire.Bytes.{
  store, load, htons, htonl, htonll, ntohll, bswap_16, bswap_32, bswap_64, network_order,
  store-network_order,
}
use ersap_ejfat.Wire.RoundTrip.{parse_re_header-set_re_metadata, parse_lb_header-set_lb_metadata}

lb_header_bytes_written :
    set_lb_metadata 0x0102030405060708 1 2 ≡ 76 ∷ 66 ∷ 1 ∷ 2 ∷ 1 ∷ 2 ∷ 3 ∷ 4 ∷ 5 ∷ 6 ∷ 7 ∷ 8 ∷ []
unfolding set_lb_metadata htonll htonl bswap_16 bswap_32 store
lb_header_bytes_written = refl

swaps : bswap_64 0x0102030405060708 ≡ 0x0807060504030201
unfolding bswap_64
swaps = refl

-- A version of 200 comes back as 2 ^ 32 - 56.
version_200 : (parse_lb_header (set_lb_metadata 5 200 2)).version ≡ 4294967240
unfolding set_lb_metadata parse_lb_header htonll htonl ntohll bswap_16 bswap_32 store load
version_200 = refl

parse_re_header-set_re_metadata_example :
    parse_re_header (set_re_metadata true false 77 5 2 300 ++ (1 ∷ 2 ∷ []))
    ≡ record { version = 2; first = true; last = false; data_id = 300; sequence = 5; tick = 77 }
parse_re_header-set_re_metadata_example =
    parse_re_header-set_re_metadata true false 77 5 2 300 (1 ∷ 2 ∷ []) (omega arith) (omega arith)
      (omega arith)

parse_lb_header-set_lb_metadata_example :
    parse_lb_header (set_lb_metadata 77 200 1 ++ (9 ∷ []))
    ≡ record { ll = 76; bb = 66; version = 4294967240; protocol = 1; tick = 77 }
parse_lb_header-set_lb_metadata_example =
    parse_lb_header-set_lb_metadata 77 200 1 (9 ∷ []) (omega arith)

stores_high_byte_first :
    (258 < 2 ^ 16 → store 2 (htons 258) ≡ network_order 2 258)
    × (258 < 2 ^ 32 → store 4 (htonl 258) ≡ network_order 4 258)
    × (258 < 2 ^ 64 → store 8 (htonll 258) ≡ network_order 8 258)
stores_high_byte_first = store-network_order 258
