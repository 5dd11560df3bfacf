-- ===== src/Services/ByteBuffer.antt =====
-- `ByteBuffer` of clas_ejfat_data_type.hpp, and the packetizer service on the bytes of one.
use ersap_ejfat.Base.{
  ℕ, replicate, ◌*◌, ◌-◌, ◌%◌, ◌^◌, ◌<◌, ◌≤◌, ◌≡◌, refl, sym, ap, ◌∙◌, Bool-cases, true, leb, inl,
  inr, if◌then◌else◌, drop, drop-append, Option, List, [], ◌++◌, append_assoc, length,
  length-append, ℤ, pos, arith,
}
use ersap_ejfat.Base.Memory.{ok, fault, overread}
use ersap_ejfat.Config.Number.{to_unsigned}
use ersap_ejfat.Wire.Bytes.{
  store, load, bswap_16, bswap_32, htonl, ntohl, htonl-lt, load-store-4, length-store,
}
use ersap_ejfat.Packetize.{SendResult, sent, int_count, start, send_packetized_buffer, Sender}
use ersap_ejfat.Packetize.Sends.{send_loop_done}
use ersap_ejfat.Packetize.Reads.{reads_past-false, reads_past-true}
use ersap_ejfat.Packetize.Mtu.{max_payload, resolve_mtu, send_buffer}
use ersap_ejfat.Services.Configure.{Service}
use ersap_ejfat.Services.Packetizer.{finished, process, settings, process_from, execute}
use ersap_ejfat.Services.RoundTrip.{first_part, second_part, execute-process}

pub record ByteBuffer : Type 0 where
  pub data_ : List ℕ

-- `reserve` leaves the vector empty.
unfoldable pub byte_buffer : ℕ → ByteBuffer
byte_buffer size = record { data_ = [] }

-- The four bytes of the integer, as they are in memory.
unfoldable pub put : ℤ → ByteBuffer → ByteBuffer
put v b = record { data_ = b.data_ ++ store 4 (to_unsigned 32 v) }

unfoldable pub put_range : List ℕ → ByteBuffer → ByteBuffer
put_range v b = record { data_ = b.data_ ++ v }

-- A tick, a length and the bytes.
abbrev pub put_all : ℕ → ℤ → ℤ → List ℕ → ByteBuffer
put_all size tick count bytes = put_range bytes (put count (put tick (byte_buffer size)))

data_-put_all :
    (size t n : ℕ) (bytes : List ℕ)
    → t < 2 ^ 32
    → n < 2 ^ 32
    → (put_all size (pos t) (pos n) bytes).data_ ≡ store 4 t ++ (store 4 n ++ bytes)
unfolding byte_buffer put put_range
data_-put_all size t n bytes h k =
    let same_t : t % 2 ^ 32 ≡ t = omega (arith, h) in
    let same_n : n % 2 ^ 32 ≡ n = omega (arith, k) in
    rw (same_t, same_n) (append_assoc (store 4 t) (store 4 n) bytes)

-- The swap of a small number is larger, and does not fit in an int if its low byte is 128 or more.
bswap_32_small : (n : ℕ) → 1 ≤ n → n < 2 ^ 16 → n < bswap_32 n
unfolding bswap_32 bswap_16
bswap_32_small n least few = omega (arith, least, few)

int_count_large : (n : ℕ) → n < 2 ^ 16 → 128 ≤ n % 256 → int_count (bswap_32 n) ≡ 0
unfolding bswap_32 bswap_16
int_count_large n few large = ground (arith, few, large)

int_count_fits : (n : ℕ) → n < 2 ^ 16 → n % 256 < 128 → int_count (bswap_32 n) ≡ bswap_32 n
unfolding bswap_32 bswap_16
int_count_fits n few less = ground (arith, few, less)

-- What `process` makes of a length in the wrong byte order.
module _ (ioctl : List ℕ → Option ℤ) (s : Service) (tick u k : ℕ) (bytes : List ℕ)
    (later : List SendResult) (least : 1 ≤ length bytes) (few : length bytes < 2 ^ 16)
    (is_mtu : resolve_mtu ioctl s.interface s.mtu ≡ pos u) (room : 56 < u)
    (enough : length bytes < k * (u - 56)) where
  abbrev answers : List SendResult
  answers = replicate k sent ++ later

  abbrev swapped : ℕ
  swapped = bswap_32 (length bytes)

  abbrev sender : Sender
  sender = start bytes swapped (max_payload (resolve_mtu ioctl s.interface s.mtu)) 0 true

  sends_nothing :
      int_count swapped ≡ 0 → process_from ioctl s tick bytes swapped answers ≡ ok (finished [])
  unfolding process_from process send_buffer send_packetized_buffer
  sends_nothing none_left =
      rw
        (
          reads_past-false (settings s tick) sender answers (omega (arith, none_left)),
          send_loop_done (settings s tick) sender answers none_left,
        )
        refl

  reads_on :
      int_count swapped ≡ swapped → process_from ioctl s tick bytes swapped answers ≡ fault overread
  unfolding process_from
  reads_on all =
      let payload : max_payload (resolve_mtu ioctl s.interface s.mtu) ≡ pos (u - 56) =
        ap max_payload is_mtu ∙ ground (arith, room) in
      rw
        (reads_past-true (settings s tick) (u - 56) k sender later payload
          (omega (arith, all, bswap_32_small (length bytes) least few)) enough)
        refl

  process_from-swapped :
      process_from ioctl s tick bytes swapped answers
      ≡ (if leb 128 (length bytes % 256) then ok (finished []) else fault overread)
  process_from-swapped = elim (Bool-cases (leb 128 (length bytes % 256))) [
    | inl large ↦
        rw large (sends_nothing (int_count_large (length bytes) few (ground (arith, large))))
    | inr less ↦ rw less (reads_on (int_count_fits (length bytes) few (ground (arith, less))))
  ]

-- Let a tick and a length, both swapped by `htonl`, be put into a buffer, and then so many bytes, less
-- than 2 ^ 31. Then `execute` of the packetizer service, on the bytes of that buffer, packetizes those
-- bytes under that tick, and reads nothing else.
pub execute-put_all_swapped :
    (ioctl : List ℕ → Option ℤ) (s : Service) (size tick : ℕ) (bytes : List ℕ)
    (answers : List SendResult)
    → tick < 2 ^ 32
    → length bytes < 2 ^ 31
    → execute ioctl s
        (put_all size (pos (htonl tick)) (pos (htonl (length bytes))) bytes).data_
        answers
      ≡ ok (
          process
            (send_buffer ioctl
              (settings s tick)
              bytes
              (length bytes)
              s.host
              s.interface
              s.mtu
              answers).1)
execute-put_all_swapped ioctl s size tick bytes answers h few =
    ap (λ v. execute ioctl s v answers)
      (data_-put_all size (htonl tick) (htonl (length bytes)) bytes (htonl-lt tick h)
        (htonl-lt (length bytes) (omega (arith, few))))
    ∙ execute-process tick bytes h few ioctl s answers

-- Let a tick and a length be put into a buffer as they are, which `put` does not swap, and then so many
-- bytes, from 1 to 65535. With an MTU that has room for data, and `sendmsg` sending the first `k`
-- datagrams, in which more than the bytes would fit, `execute` of the packetizer service, on the bytes of
-- that buffer, sends nothing and returns if the low byte of the length is 128 or more, and reads past the
-- end of the buffer if not.
pub execute-put_all :
    (ioctl : List ℕ → Option ℤ) (s : Service) (size tick u k : ℕ) (bytes : List ℕ)
    (later : List SendResult)
    → tick < 2 ^ 32
    → 1 ≤ length bytes
    → length bytes < 2 ^ 16
    → resolve_mtu ioctl s.interface s.mtu ≡ pos u
    → 56 < u
    → length bytes < k * (u - 56)
    → execute ioctl s
        (put_all size (pos tick) (pos (length bytes)) bytes).data_
        (replicate k sent ++ later)
      ≡ (if leb 128 (length bytes % 256) then ok (finished []) else fault overread)
execute-put_all ioctl s size tick u k bytes later h least few is_mtu room enough =
    ap (λ v. execute ioctl s v (replicate k sent ++ later))
      (data_-put_all size tick (length bytes) bytes h (omega (arith, few)))
    ∙ unswapped
  where
    vec : List ℕ
    vec = store 4 tick ++ (store 4 (length bytes) ++ bytes)

    read_as : ntohl (load (store 4 (length bytes))) ≡ bswap_32 (length bytes)
    read_as = ap ntohl (load-store-4 (length bytes) (omega (arith, few))) ∙ (unfold ntohl in refl)

    data_part : drop 8 vec ≡ bytes
    data_part =
        ap (drop 8) (sym (append_assoc (store 4 tick) (store 4 (length bytes)) bytes))
        ∙ drop-append (store 4 tick ++ store 4 (length bytes)) bytes 8 (
            omega (
              arith,
              length-append {0} (store 4 tick) (store 4 (length bytes)),
              length-store 4 tick,
              length-store 4 (length bytes),
            ))

    unswapped :
        execute ioctl s vec (replicate k sent ++ later)
        ≡ (if leb 128 (length bytes % 256) then ok (finished []) else fault overread)
    unswapped =
        let front =
          first_part (store 4 tick) (store 4 (length bytes) ++ bytes) 4 (length-store 4 tick) in
        let count =
          second_part (store 4 tick) (store 4 (length bytes)) bytes 4 4 (length-store 4 tick)
            (length-store 4 (length bytes)) in
        unfold execute in
        rw (front, count, read_as, data_part)
          (process_from-swapped ioctl s (ntohl (load (store 4 tick))) u k bytes later least few
            is_mtu room enough)
