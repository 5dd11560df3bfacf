-- ===== src/Plain.antt =====
-- ejfat/legacy/src/main/cpp/ejfat_assemble.hpp, which the assembler engine includes: the code of
-- ejfat_assemble_ersap.hpp without `readPacketRecvFrom`, its flag and the count of packets. Every
-- function here is the one of `Assemble`, `Wire` or `Output` with that reader left out.
pub mod Engine
use ersap_ejfat.Base.{ℕ, Bool, false, Option, List}
use ersap_ejfat.Base.Memory.{Run, ok, ◌>>=◌}
use ersap_ejfat.Wire
use ersap_ejfat.Wire.{LbHeader, ReHeader}
use ersap_ejfat.Assemble
use ersap_ejfat.Assemble.{Received, Read, Event}
use ersap_ejfat.Assemble.Store
use ersap_ejfat.Assemble.Store.{Store}
use ersap_ejfat.Assemble.Loop
use ersap_ejfat.Assemble.Loop.{Shared, Outcome, returned, waiting}
use ersap_ejfat.Assemble.GetBuffer
use ersap_ejfat.Output
use ersap_ejfat.Output.{Printed, File, Written}
use ersap_ejfat.Assemble.GetBuffer.{Malloc, UserBuf, Result}

abbrev parse_lb_header : List ℕ → LbHeader
parse_lb_header = Wire.parse_lb_header

abbrev parse_re_header : List ℕ → ReHeader
parse_re_header = Wire.parse_re_header

-- `recvmsg` into the header array and `dataBuf`.
abbrev read_packet : List ℕ → ℕ → ℕ → Received → Run (List ℕ × Read)
read_packet = Assemble.read_packet

abbrev free_map : Store → Run Store
free_map = Store.free_map

-- No packet count goes out: it stays what it was.
abbrev pub get_packetized_buffer : Bool → ℕ → Shared → List Event → Run Outcome
get_packetized_buffer very_first_read buf_len io events =
    Loop.get_packetized_buffer false very_first_read buf_len io events >>= λ o. elim o [
      | waiting s ↦ ok (waiting s)
      | returned value out rest ↦
          ok (returned value (record out { packet_count = io.packet_count }) rest)
    ]

abbrev pub get_buffer : Malloc → Bool → UserBuf → Option ℕ → Bool → List Event → Run Result
get_buffer = GetBuffer.get_buffer false

abbrev print_bytes : List ℕ → ℕ → Option (List ℕ) → Run (List Printed)
print_bytes = Output.print_bytes

abbrev print_file_bytes : ℕ → File → ℕ → Option (List ℕ) → List Printed × File
print_file_bytes = Output.print_file_bytes

abbrev write_buffer : List ℕ → ℕ → List ℕ → File → Run Written
write_buffer = Output.write_buffer
