-- ===== src/Services/Packetizer.antt =====
-- `EjfatPacketizeService` of ejfat_packetize_service.cpp, and `EjfatPacketizeEngine::process` of
-- ejfat_packetize_engine.cpp, which it calls.
use ersap_ejfat.Base.{ℕ, true, Option, List, ℤ, drop, if◌then◌else◌}
use ersap_ejfat.Base.Memory.{Run, ok, fault, overread, ◌>>=◌, slice}
use ersap_ejfat.Wire.Bytes.{load, ntohl}
use ersap_ejfat.Packetize.{SendResult, Settings, Outcome, success, failure, sending, start}
use ersap_ejfat.Packetize.Mtu.{max_payload, resolve_mtu, send_buffer}
use ersap_ejfat.Packetize.Reads.{reads_past}
use ersap_ejfat.Config.Number.{to_unsigned}
use ersap_ejfat.Services.Configure.{Service}

-- How `process` ends: it returns, with these datagrams sent, the program exits, or it waits.
pub data Processed : Type 0 where
  finished : List (List ℕ) → Processed
  exits waits : Processed

unfoldable pub process : Outcome → Processed
process (success next datagrams) = finished datagrams
process failure = exits
process (sending s) = waits

abbrev pub settings : Service → ℕ → Settings
settings s tick = record {
  tick = tick;
  protocol = to_unsigned 32 s.protocol;
  version = to_unsigned 32 s.ver;
  data_id = s.data_id;
  last_buffer = true;
}

-- `process` on the memory behind the pointer `buffer`: it sends `buf_len` bytes from there, and the
-- datagrams that go out may reach past its end.
unfoldable pub process_from :
    (List ℕ → Option ℤ) → Service → ℕ → List ℕ → ℕ → List SendResult → Run Processed
process_from ioctl s tick buffer buf_len answers =
    let payload = max_payload (resolve_mtu ioctl s.interface s.mtu) in
    let sender = start buffer buf_len payload 0 true in
    if reads_past (settings s tick) sender answers
    then fault overread
    else ok (
        process
          (send_buffer ioctl (settings s tick) buffer buf_len s.host s.interface s.mtu answers).1)

-- `execute`, which gives its input back: the tick, the length and the buffer are taken out of the bytes
-- without a look at their number.
unfoldable pub execute : (List ℕ → Option ℤ) → Service → List ℕ → List SendResult → Run Processed
execute ioctl s vec answers = slice vec 0 4 >>= λ tick_bytes. slice vec 4 4 >>= λ len_bytes.
    process_from ioctl s (ntohl (load tick_bytes)) (drop 8 vec) (ntohl (load len_bytes)) answers
