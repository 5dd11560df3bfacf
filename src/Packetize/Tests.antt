-- ===== src/Packetize/Tests.antt =====
-- A buffer of five bytes.
use ersap_ejfat.Base.{
  ℕ, ◌-◌, ◌<◌, ◌≤◌, ◌≡◌, ◌≢◌, refl, true, Option, some, List, [], ◌∷◌, ℤ, pos, replicate, arith,
}
use ersap_ejfat.Packetize.{
  SendResult, sent, message_too_long, Settings, Sender, round, send_loop, success, failure, sending,
  send_packetized_buffer,
}
use ersap_ejfat.Packetize.Chunks.{datagrams_of, chunks, offset_after}
use ersap_ejfat.Packetize.Retry.{
  Sends, send_packetized_buffer-Sends, send_packetized_buffer_finishes,
  send_packetized_buffer_livelock,
}
use ersap_ejfat.Packetize.Mtu.{resolve_mtu, AllFit, send_buffer, send_buffer-AllFit}

abbrev settings : Settings
settings = record { tick = 7; protocol = 1; version = 1; data_id = 3; last_buffer = true }

abbrev five : List ℕ
five = 10 ∷ 11 ∷ 12 ∷ 13 ∷ 14 ∷ []

abbrev three_chunks : List (List ℕ)
three_chunks = (10 ∷ 11 ∷ []) ∷ (12 ∷ 13 ∷ []) ∷ (14 ∷ []) ∷ []

-- The first packet is refused at three bytes and goes out at two.
retried :
    send_packetized_buffer settings five 5
      (pos 3)
      0
      true
      (message_too_long ∷ sent ∷ sent ∷ sent ∷ [])
    ≡ success 3 (datagrams_of settings true 0 three_chunks)
unfolding send_packetized_buffer send_loop round datagrams_of
retried = refl

-- A later packet that is too big ends the call.
refused_later :
    send_packetized_buffer settings five 5 (pos 3) 0 true (sent ∷ message_too_long ∷ []) ≡ failure
unfolding send_packetized_buffer send_loop round
refused_later = refl

-- More than 2 ^ 31 - 1 bytes: the count is negative, and nothing is sent.
too_long : send_packetized_buffer settings five 2147483653 (pos 3) 4 true [] ≡ success 4 []
unfolding send_packetized_buffer send_loop round
too_long = refl

send_packetized_buffer-Sends_example :
    Sends settings 3 true 0 five [] 3 (datagrams_of settings true 0 three_chunks)
send_packetized_buffer-Sends_example =
    send_packetized_buffer-Sends settings five 3 0 3 true
      (message_too_long ∷ sent ∷ sent ∷ sent ∷ []) (datagrams_of settings true 0 three_chunks)
      (omega arith) (omega arith) retried

send_packetized_buffer_finishes_example :
    send_packetized_buffer settings five 5
      (pos 3)
      0
      true
      (message_too_long ∷ sent ∷ sent ∷ sent ∷ sent ∷ sent ∷ [])
    ≡ success (offset_after 0 (chunks 5 2 five)) (datagrams_of settings true 0 (chunks 5 2 five))
send_packetized_buffer_finishes_example =
    send_packetized_buffer_finishes settings five 3 0 1 5 (omega arith) (omega arith) (omega arith)
      (omega arith) (omega arith)

send_packetized_buffer_livelock_example :
    ((answers : List SendResult) (next : ℕ) (ds : List (List ℕ))
      → send_packetized_buffer settings five 5 (pos 0) 0 true answers ≢ success next ds)
    × ((s : Sender) × (send_packetized_buffer settings five 5 (pos 0) 0 true (replicate 4 sent)
          ≡ sending s)
        × (s.remaining_bytes ≡ 5))
send_packetized_buffer_livelock_example =
    send_packetized_buffer_livelock settings five 0 4 true (omega arith) (omega arith) (omega arith)

-- An interface with an MTU of 58 bytes leaves two for data.
abbrev small_mtu : List ℕ → Option ℤ
small_mtu _ = some (pos 58)

sent_small :
    (send_buffer small_mtu settings five 5 [] [] (pos 0) (sent ∷ sent ∷ sent ∷ [])).1
    ≡ success 3 (datagrams_of settings true 0 three_chunks)
unfolding send_buffer resolve_mtu send_packetized_buffer send_loop round datagrams_of
sent_small = refl

send_buffer-AllFit_example :
    (u : ℕ) × (resolve_mtu small_mtu [] (pos 0) ≡ pos u)
    × (56 < u)
    × (u ≤ 9000)
    × AllFit u (datagrams_of settings true 0 three_chunks)
    × Sends settings (u - 56) true 0 five [] 3 (datagrams_of settings true 0 three_chunks)
send_buffer-AllFit_example =
    send_buffer-AllFit small_mtu settings five [] [] (pos 0) (sent ∷ sent ∷ sent ∷ []) 3
      (datagrams_of settings true 0 three_chunks) (omega arith) (omega arith) sent_small
