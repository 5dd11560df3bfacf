-- ===== src/Services/Assembler.antt =====
-- `EjfatAssembleService::execute` of ejfat_assemble_service.cpp: the buffer of the engine becomes the
-- output.
mod Ports
mod Tests
use ersap_ejfat.Base.{
  ℕ, ◌≡◌, refl, sym, ap, ◌∙◌, Bool, true, false, Option, none, some, List, [], ◌∷◌, take, flatten,
  negsuc, arith,
}
use ersap_ejfat.Base.Memory.{Run, ok, fault, ◌>>=◌}
use ersap_ejfat.Packetize.{Settings}
use ersap_ejfat.Assemble.{Event}
use ersap_ejfat.Assemble.Message.{Fits}
use ersap_ejfat.Assemble.Safety.{AllGenuine}
use ersap_ejfat.Assemble.GetBuffer.{Malloc}
use ersap_ejfat.Assemble.GetBuffer.Blocks.{Allocates}
use ersap_ejfat.Plain.Engine.{Processed, finished, process, process_delivers}
use ersap_ejfat.Plain.Engine

-- The output has the pointer: to a block, or as it was when nobody had set it. Or there is none, since
-- the program exits, or waits.
pub data Output : Type 0 where
  output : Option (List ℕ) → Output
  exits waits : Output

unfoldable pub given : Processed → Output
given (finished user_buf user_buf_len zmq_sent) = output user_buf
given Engine.exits = exits
given Engine.waits = waits

-- `bufLen` and `last` are not initialised.
unfoldable pub execute : Bool → Bool → Malloc → Bool → ℕ → List Event → Run Output
execute zmq send_ok malloc last buf_len events =
    process zmq send_ok malloc last none buf_len false events >>= λ r. ok (given r)
