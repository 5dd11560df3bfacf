-- ===== src/Services/Assembler/Tests.antt =====
-- The message of three packets as the output of the service.
use ersap_ejfat.Base.{◌≡◌, refl, true, some, [], ◌∷◌, replicate, if◌then◌else◌, pos}
use ersap_ejfat.Base.Memory.{ok}
use ersap_ejfat.Assemble.GetBuffer.Tests.{malloc, message_block}
use ersap_ejfat.Plain.Engine.Tests.{events, processes_message}
use ersap_ejfat.LastBits.{contains}
use ersap_ejfat.Services.Assembler.{output, waits, given, execute}
use ersap_ejfat.Services.Assembler.Ports.{Receives, executes, executes_once}

outputs_block : execute true true malloc true 77 events ≡ ok (output (some message_block))
unfolding execute given
outputs_block = rw processes_message refl

-- A port that is taken gets nothing.
abbrev receives : Receives
receives ports port sent = if contains port ports then [] else sent

executes_once_example :
    executes receives true true malloc true 77 (pos 0) [] (events ∷ events ∷ [])
    ≡ ok (output (some message_block) ∷ waits ∷ [])
executes_once_example =
    executes_once receives true true malloc true 77 (pos 0) events events [] (replicate 100000 0)
      (λ ports port sent taken. rw taken refl) refl outputs_block
