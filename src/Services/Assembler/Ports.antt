-- ===== src/Services/Assembler/Ports.antt =====
-- The sockets of the calls of `execute` of ejfat_assemble_service.cpp: every call is one of `getBuffer`
-- of ejfat_assemble.hpp, which opens a socket, binds it and does not close it.
use ersap_ejfat.Base.{
  ℕ, ◌≡◌, refl, ap, Bool, true, false, ◌==◌, ==_iff, ltb, Option, none, some, List, [], ◌∷◌,
  if◌then◌else◌, ℤ,
}
use ersap_ejfat.Base.Memory.{Run, ok, ◌>>=◌}
use ersap_ejfat.LastBits.{contains}
use ersap_ejfat.Assemble.{Event}
use ersap_ejfat.Assemble.Loop.{loop, get_packetized_buffer}
use ersap_ejfat.Assemble.GetBuffer.{
  Malloc, blocked, first_block, after_outcome, copy_loop, copy, get_buffer,
}
use ersap_ejfat.Plain.Engine.{process}
use ersap_ejfat.Plain.Engine
use ersap_ejfat.Config.Number.{to_unsigned}
use ersap_ejfat.Services.Assembler.{Output, output, exits, waits, given, execute}

-- `port < 1024 ? 7777 : port`
abbrev pub effective_port : ℕ → ℕ
effective_port port = if ltb port 1024 then 7777 else port

-- Of these datagrams for a port, those that a new socket gets when the process has sockets bound to
-- these ports.
abbrev pub Receives : Type 0
Receives = List ℕ → ℕ → List Event → List Event

-- The kernel: `bind` fails for a port that is taken, and a socket that is not bound gets nothing.
abbrev pub IsExclusive : Receives → Type 0
IsExclusive receives =
    (ports : List ℕ) (port : ℕ) (events : List Event)
    → contains port ports ≡ true
    → receives ports port events ≡ []

module _ (receives : Receives) (zmq send_ok : Bool) (malloc : Malloc) (last : Bool) (buf_len : ℕ)
    (port : ℤ) where
  abbrev bound_port : ℕ
  bound_port = effective_port (to_unsigned 16 port)

  -- The outputs of the calls, each with the datagrams that are sent in its time, as long as they
  -- return; `ports` are those with a socket already. The value of `bind` is not looked at.
  unfoldable pub executes : List ℕ → List (List Event) → Run (List Output)
  executes ports [] = ok []
  executes ports (events ∷ later) =
      execute zmq send_ok malloc last buf_len (receives ports bound_port events) >>= λ out.
      elim out [
        | output b ↦ executes (bound_port ∷ ports) later >>= λ outs. ok (output b ∷ outs)
        | exits ↦ ok (exits ∷ [])
        | waits ↦ ok (waits ∷ [])
      ]

-- With no datagram `getBuffer` waits, and so does the call.
copy_nothing :
    (u : Bool) (malloc : Malloc) (last : Bool) (block : List ℕ)
    → malloc first_block ≡ some block
    → copy u malloc last [] ≡ ok blocked
unfolding copy copy_loop get_packetized_buffer loop after_outcome
copy_nothing u malloc last block given_block = rw (given_block, copy) refl

execute_nothing :
    (zmq send_ok : Bool) (malloc : Malloc) (last : Bool) (buf_len : ℕ) (block : List ℕ)
    → malloc first_block ≡ some block
    → execute zmq send_ok malloc last buf_len [] ≡ ok waits
unfolding execute process given get_buffer
execute_nothing zmq send_ok malloc last buf_len block given_block =
    ap (λ m. (m >>= λ r. ok (Engine.after_get zmq send_ok none buf_len r)) >>= λ q. ok (given q))
      (copy_nothing false malloc last block given_block)

-- After the first output of the assembler service, the next call of `execute` never returns: the socket
-- of the first call holds the port, `bind` fails, and `getBuffer` waits for datagrams on a socket that
-- gets none. This holds for every port in the configuration, whatever is sent, if `malloc` gives the
-- first block and the kernel lets one socket have a port.
pub executes_once :
    (receives : Receives) (zmq send_ok : Bool) (malloc : Malloc) (last : Bool) (buf_len : ℕ)
    (port : ℤ) (first second : List Event) (later : List (List Event)) (block : List ℕ)
    {b : Option (List ℕ)}
    → IsExclusive receives
    → malloc first_block ≡ some block
    → execute zmq send_ok malloc last buf_len
        (receives [] (effective_port (to_unsigned 16 port)) first)
      ≡ ok (output b)
    → executes receives zmq send_ok malloc last buf_len port [] (first ∷ second ∷ later)
      ≡ ok (output b ∷ waits ∷ [])
unfolding executes
executes_once receives zmq send_ok malloc last buf_len port first second later block {b} exclusive
      given_block ran =
    let p = effective_port (to_unsigned 16 port) in
    let self : (p == p) ≡ true = (==_iff p p).1 refl in
    let silent : receives (p ∷ []) p second ≡ [] = exclusive (p ∷ []) p second (rw self refl) in
    let nothing : execute zmq send_ok malloc last buf_len [] ≡ ok waits =
      execute_nothing zmq send_ok malloc last buf_len block given_block in
    rw (ran, silent, nothing) refl
