-- ===== src/Wire/RoundTrip.antt =====
-- Writing and then reading the two headers.
use ersap_ejfat.Base.{
  ℕ, ◌+◌, ◌*◌, ◌/◌, ◌%◌, ◌^◌, ◌<◌, ◌≡◌, refl, sym, ap, ◌∙◌, Bool, true, false, List, ◌++◌, bit_and,
  ◌==◌, ==_iff, length, every_below, every_below-true, arith,
}
use ersap_ejfat.Wire.{
  bit, char_to_u32, set_lb_metadata, set_re_metadata, parse_lb_header, parse_re_header,
}
use ersap_ejfat.Wire.Bytes.{
  store, load, length-store, htons, htonl, htonll, ntohs, ntohl, ntohll, ntohs-htons, ntohl-htonl,
  ntohll-htonll, htons-lt, htonl-lt, htonll-lt, load-store-2, load-store-4, load-store-8,
}

-- The masks of `parseReHeader` on every byte that `setReMetadata` may have written.
nibbles_agree : every_below (λ b. b / 16 == bit_and b 0xf0 / 2 ^ 4) 256 ≡ true
unfolding every_below
nibbles_agree = refl

high_nibble : (b : ℕ) → b < 256 → bit_and b 0xf0 / 2 ^ 4 ≡ b / 16
high_nibble b h = sym ((==_iff _ _).0 (every_below-true _ 256 b h nibbles_agree))

read_flags :
    (first last : Bool)
    → ((bit_and (bit first * 2 + bit last) 0x02 / 2 == 1) ≡ first)
      × ((bit_and (bit first * 2 + bit last) 0x01 == 1) ≡ last)
read_flags true true = (refl, refl)
read_flags true false = (refl, refl)
read_flags false true = (refl, refl)
read_flags false false = (refl, refl)

pub length-set_lb_metadata :
    (tick version protocol : ℕ) → length (set_lb_metadata tick version protocol) ≡ 12
unfolding set_lb_metadata
length-set_lb_metadata tick version protocol = omega (arith, length-store 8 (htonll tick))

pub length-set_re_metadata :
    (first last : Bool) (tick offset version data_id : ℕ)
    → length (set_re_metadata first last tick offset version data_id) ≡ 16
unfolding set_re_metadata
length-set_re_metadata first last tick offset version data_id = refl

-- What `setReMetadata` writes in front of any data, `parseReHeader` reads back: the two flags, the
-- data id, the packet offset and the tick exactly, if they fit their 16, 32 and 64 bits, and of the
-- version its low four bits.
pub parse_re_header-set_re_metadata :
    (first last : Bool) (tick offset version data_id : ℕ) (rest : List ℕ)
    → tick < 2 ^ 64
    → offset < 2 ^ 32
    → data_id < 2 ^ 16
    → parse_re_header (set_re_metadata first last tick offset version data_id ++ rest) ≡ record {
      version = version % 16;
      first = first;
      last = last;
      data_id = data_id;
      sequence = offset;
      tick = tick;
    }
unfolding set_re_metadata parse_re_header
parse_re_header-set_re_metadata first last tick offset version data_id rest ht ho hd = λ i. record {
  version = ver i;
  first = (read_flags first last).0 i;
  last = (read_flags first last).1 i;
  data_id = id i;
  sequence = seq i;
  tick = tck i;
}
  where
    ver : bit_and (version * 2 ^ 4 % 2 ^ 8) 0xf0 / 2 ^ 4 ≡ version % 16
    ver = high_nibble (version * 2 ^ 4 % 2 ^ 8) (omega arith) ∙ omega arith

    id : ntohs (load (store 2 (htons data_id))) ≡ data_id
    id = ap ntohs (load-store-2 _ (htons-lt data_id hd)) ∙ ntohs-htons data_id hd

    seq : ntohl (load (store 4 (htonl offset))) ≡ offset
    seq = ap ntohl (load-store-4 _ (htonl-lt offset ho)) ∙ ntohl-htonl offset ho

    tck : ntohll (load (store 8 (htonll tick))) ≡ tick
    tck = ap ntohll (load-store-8 _ (htonll-lt tick ht)) ∙ ntohll-htonll tick ht

-- What `setLbMetadata` writes, `parseLbHeader` reads back: the letters and the tick exactly, and of
-- the version and the protocol the low byte, with its sign spread over the upper 24 bits.
pub parse_lb_header-set_lb_metadata :
    (tick version protocol : ℕ) (rest : List ℕ)
    → tick < 2 ^ 64
    → parse_lb_header (set_lb_metadata tick version protocol ++ rest) ≡ record {
      ll = b'L';
      bb = b'B';
      version = char_to_u32 (version % 256);
      protocol = char_to_u32 (protocol % 256);
      tick = tick;
    }
unfolding set_lb_metadata parse_lb_header
parse_lb_header-set_lb_metadata tick version protocol rest ht = λ i. record {
  ll = b'L';
  bb = b'B';
  version = char_to_u32 (version % 256);
  protocol = char_to_u32 (protocol % 256);
  tick = tck i;
}
  where
    tck : ntohll (load (store 8 (htonll tick))) ≡ tick
    tck = ap ntohll (load-store-8 _ (htonll-lt tick ht)) ∙ ntohll-htonll tick ht
