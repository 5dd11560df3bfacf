-- ===== src/Services/RoundTrip.antt =====
-- From the bytes that ERSAP gives to the packetizer service to the buffer of the assembler.
use ersap_ejfat.Base.{
  ℕ, ◌-◌, ◌^◌, ◌<◌, ◌≡◌, refl, sym, ap, subst, ◌∙◌, Bool, true, Option, List, [], ◌++◌,
  append_assoc, length, take, drop, length-append, take-append, drop-append, ℤ, pos, arith,
}
use ersap_ejfat.Base.Memory.{ok, slice, slice_fits}
use ersap_ejfat.Wire.Bytes.{
  store, load, htonl, ntohl, ntohl-htonl, htonl-lt, load-store-4, length-store,
}
use ersap_ejfat.Packetize.{
  SendResult, Outcome, success, failure, sending, start, send_packetized_buffer,
}
use ersap_ejfat.Packetize.Mtu.{send_buffer, max_payload, resolve_mtu, positive_payload}
use ersap_ejfat.Packetize.Reads.{reads_past-false}
use ersap_ejfat.Assemble.{Event}
use ersap_ejfat.Assemble.Loop.{Shared, returned, get_packetized_buffer}
use ersap_ejfat.EndToEnd.{AllFromSender, receive-send}
use ersap_ejfat.Services.Configure.{Service}
use ersap_ejfat.Services.Packetizer.{finished, process, settings, process_from, execute}

-- The input of the service: tick and length in network order, then the data.
abbrev pub input : ℕ → List ℕ → List ℕ
input tick bytes = store 4 (htonl tick) ++ (store 4 (htonl (length bytes)) ++ bytes)

-- Four bytes in network order are read back.
reads_back : (n : ℕ) → n < 2 ^ 32 → ntohl (load (store 4 (htonl n))) ≡ n
reads_back n h = ap ntohl (load-store-4 (htonl n) (htonl-lt n h)) ∙ ntohl-htonl n h

pub first_part : (xs ys : List ℕ) (n : ℕ) → length xs ≡ n → slice (xs ++ ys) 0 n ≡ ok xs
first_part xs ys n h =
    slice_fits (xs ++ ys) 0 n (omega (arith, h, length-append {0} xs ys))
    ∙ ap ok (take-append xs ys n (sym h))

pub second_part :
    (xs ys zs : List ℕ) (n m : ℕ)
    → length xs ≡ n
    → length ys ≡ m
    → slice (xs ++ (ys ++ zs)) n m ≡ ok ys
second_part xs ys zs n m h k =
    slice_fits (xs ++ (ys ++ zs)) n m
      (omega (arith, h, k, length-append {0} xs (ys ++ zs), length-append {0} ys zs))
    ∙ ap (λ r. ok (take m r)) (drop-append xs (ys ++ zs) n (sym h))
    ∙ ap ok (take-append ys zs m (sym k))

module _ (tick : ℕ) (bytes : List ℕ) (small : tick < 2 ^ 32) (few : length bytes < 2 ^ 31) where
  abbrev front : List ℕ
  front = store 4 (htonl tick)

  abbrev count : List ℕ
  count = store 4 (htonl (length bytes))

  data_part : drop 8 (input tick bytes) ≡ bytes
  data_part =
      ap (drop 8) (sym (append_assoc front count bytes))
      ∙ drop-append (front ++ count) bytes 8 (
          omega (
            arith,
            length-append {0} front count,
            length-store 4 (htonl tick),
            length-store 4 (htonl (length bytes)),
          ))

  -- `process` on memory that has the data, and nothing else, reads nothing past its end.
  process_from-process :
      (ioctl : List ℕ → Option ℤ) (s : Service) (answers : List SendResult)
      → process_from ioctl s tick bytes (length bytes) answers
        ≡ ok (
            process
              (send_buffer ioctl
                (settings s tick)
                bytes
                (length bytes)
                s.host
                s.interface
                s.mtu
                answers).1)
  unfolding process_from
  process_from-process ioctl s answers =
      rw
        (reads_past-false (settings s tick)
          (start bytes (length bytes) (max_payload (resolve_mtu ioctl s.interface s.mtu)) 0 true)
          answers (ground arith))
        refl

  -- `execute` calls `process` with the tick and the data.
  pub execute-process :
      (ioctl : List ℕ → Option ℤ) (s : Service) (answers : List SendResult)
      → execute ioctl s (input tick bytes) answers
        ≡ ok (
            process
              (send_buffer ioctl
                (settings s tick)
                bytes
                (length bytes)
                s.host
                s.interface
                s.mtu
                answers).1)
  unfolding execute
  execute-process ioctl s answers =
      rw
        (
          first_part front (count ++ bytes) 4 (length-store 4 (htonl tick)),
          second_part front count bytes 4 4 (length-store 4 (htonl tick))
              (length-store 4 (htonl (length bytes))),
          reads_back (length bytes) (omega (arith, few)),
          data_part,
          reads_back tick small,
        )
        (process_from-process ioctl s answers)

pub process-finished :
    (o : Outcome) (ds : List (List ℕ))
    → ok (process o) ≡ ok (finished ds)
    → (next : ℕ) × (o ≡ success next ds)
unfolding process
process-finished (success next es) ds e = (next, ap (success next) (cc))
process-finished failure ds e = absurd (cc)
process-finished (sending s) ds e = absurd (cc)

-- The service gets a tick below 2 ^ 32, the number of its data bytes, from 1 to 2 ^ 31 - 1, both in
-- network order, and the data, and its `process` returns, having sent some datagrams. These reach
-- `getPacketizedBuffer` in any order, with losses, repetitions and errors. If that call, which expects
-- sequence number 0 and has nothing stored, returns a byte count with the last bit set, the first bytes
-- of its buffer, that many of them, are the data.
pub execute-receive :
    (ioctl : List ℕ → Option ℤ) (s : Service) (tick : ℕ) (bytes : List ℕ)
    (answers : List SendResult) (ds : List (List ℕ)) (use_recv_from very_first_read : Bool)
    (buf_len : ℕ) (io : Shared) (events : List Event) {n : ℕ} {out : Shared} {rest : List Event}
    → tick < 2 ^ 32
    → 0 < length bytes
    → length bytes < 2 ^ 31
    → s.data_id < 2 ^ 16
    → execute ioctl s (input tick bytes) answers ≡ ok (finished ds)
    → AllFromSender ds events
    → io.exp_sequence ≡ 0
    → io.stored ≡ []
    → get_packetized_buffer use_recv_from very_first_read buf_len io events
      ≡ ok (returned (pos n) out rest)
    → out.last ≡ true
    → take n out.mem ≡ bytes
unfolding send_buffer
execute-receive ioctl s tick bytes answers ds u v len io events small some_data few id_fits ran
      arrive exp stored got last =
    let (next, sent) =
      process-finished _ ds (sym (execute-process tick bytes small few ioctl s answers) ∙ ran) in
    let (m, is_mtu, room, payload) =
      positive_payload (settings s tick) bytes (resolve_mtu ioctl s.interface s.mtu) answers next ds
        some_data few sent in
    receive-send (settings s tick) bytes (m - 56) next answers ds u v len io events
      (omega (arith, small)) id_fits refl few
      (subst
        (λ p.
          send_packetized_buffer (settings s tick) bytes (length bytes) p 0 true answers
          ≡ success next ds)
        payload sent)
      arrive exp stored got last
