-- ===== src/Services/Tests.antt =====
-- The services on a message of five bytes.
use ersap_ejfat.Base.{
  replicate, some, ◌++◌, ℕ, ◌≡◌, refl, true, false, Option, none, List, [], ◌∷◌, take, ℤ, pos,
  arith,
}
use ersap_ejfat.Base.Memory.{ok, fault, overread, slice}
use ersap_ejfat.Wire.Bytes.{store, load, bswap_16, bswap_32, htons, htonl, htonll, ntohl}
use ersap_ejfat.Wire.{set_lb_metadata, set_re_metadata}
use ersap_ejfat.Packetize.{
  sent, message_too_long, round, send_loop, datagram, send_packetized_buffer,
}
use ersap_ejfat.Packetize.Mtu.{get_mtu, or_default, resolve_mtu, send_buffer}
use ersap_ejfat.Packetize.Reads.{reads_past}
use ersap_ejfat.EndToEnd.Tests.{
  message, sent_datagrams, answers, events, buffer, filled, gathers_message, all_sent,
}
use ersap_ejfat.Services.Configure.{Service}
use ersap_ejfat.Assemble.GetBuffer.Tests.{malloc, malloc-Allocates}
use ersap_ejfat.EndToEnd.InOrder.{forward_all}
use ersap_ejfat.Services.Assembler
use ersap_ejfat.Services.Assembler.{output}
use ersap_ejfat.Services.Delivery.{execute-execute_returns}
use ersap_ejfat.Services.ByteBuffer.{put_all, execute-put_all_swapped, execute-put_all}
use ersap_ejfat.Services.Packetizer.{finished, process, settings, process_from, execute}
use ersap_ejfat.Services.RoundTrip.{input, execute-receive}

abbrev service : Service
service = record {
  host = [];
  interface = [];
  mtu = pos 58;
  port = 19522;
  ver = pos 1;
  data_id = 3;
  protocol = pos 1;
  delay = 0;
  debug = false;
}

abbrev ioctl : List ℕ → Option ℤ
ioctl interface = none

sends_input : execute ioctl service (input 7 message) answers ≡ ok (finished sent_datagrams)
unfolding execute process_from reads_past process send_buffer resolve_mtu get_mtu or_default
    send_packetized_buffer send_loop round datagram set_lb_metadata set_re_metadata htons htonl
    htonll ntohl bswap_16 bswap_32 store load slice
sends_input = refl

-- The service does not look at the number of its bytes.
reads_header_past : execute ioctl service (1 ∷ 2 ∷ 3 ∷ 4 ∷ 5 ∷ []) answers ≡ fault overread
unfolding execute slice
reads_header_past = refl

execute-receive_example : take 5 filled.mem ≡ message
execute-receive_example =
    execute-receive ioctl service 7 message answers sent_datagrams true true 24 buffer events
      (omega arith) (omega arith) (omega arith) (omega arith) sends_input all_sent refl refl
      gathers_message refl

mtu_is_58 : resolve_mtu ioctl service.interface service.mtu ≡ pos 58
unfolding resolve_mtu
mtu_is_58 = refl

execute-put_all_swapped_example :
    execute ioctl service (put_all 13 (pos (htonl 7)) (pos (htonl 5)) message).data_ answers
    ≡ ok (
        process
          (send_buffer ioctl
            (settings service 7)
            message
            5
            service.host
            service.interface
            service.mtu
            answers).1)
execute-put_all_swapped_example =
    execute-put_all_swapped ioctl service 13 7 message answers (omega arith) (omega arith)

execute-put_all_example :
    execute ioctl service (put_all 13 (pos 7) (pos 5) message).data_ (replicate 3 sent ++ [])
    ≡ fault overread
execute-put_all_example =
    execute-put_all ioctl service 13 7 58 3 message [] (omega arith) (omega arith) (omega arith)
      mtu_is_58 (omega arith) (omega arith)

-- The first packet is refused once.
execute-execute_returns_example :
    (ds : List (List ℕ)) × (rest : List ℕ) × (execute ioctl service
        (input 7 message)
        (replicate 1 message_too_long ++ replicate 5 sent)
      ≡ ok (finished ds))
    × (Assembler.execute true true malloc false 77 (forward_all ds)
        ≡ ok (output (some (message ++ rest))))
execute-execute_returns_example =
    execute-execute_returns ioctl service 7 message 58 1 5 true true malloc false 77
      (replicate 100000 0) (omega arith) (omega arith) (omega arith) (omega arith) mtu_is_58
      (omega arith) (omega arith) (omega arith) malloc-Allocates refl refl
