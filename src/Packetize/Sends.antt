-- ===== src/Packetize/Sends.antt =====
-- The loop of `sendPacketizedBuffer`, one answer of `sendmsg` at a time, and what went out when it
-- returns 0.
use ersap_ejfat.Base.{
  ℕ, ◌*◌, ◌/◌, ◌^◌, ◌≤◌, ◌<◌, ◌≡◌, ◌≢◌, refl, sym, ◌∙◌, Bool, true, false, List, [], ◌∷◌, ◌++◌,
  if◌then◌else◌, ◌⊎◌, inl, inr, length, take, drop, length-drop, take_all, pos, arith,
}
use ersap_ejfat.Packetize.{
  SendResult, sent, message_too_long, send_error, Settings, Sender, datagram, incr_32, again,
  failed, round, success, failure, send_loop,
}

-- The state at the head of the loop, while bytes remain.
abbrev pub sender_at : ℕ → List ℕ → ℕ → Bool → List (List ℕ) → Sender
sender_at m bytes counter first out = record {
  max_udp_payload = pos m;
  remaining_bytes = length bytes;
  get_data_from = bytes;
  packet_counter = counter;
  very_first_packet = first;
  very_last_packet = false;
  datagrams = out;
}

module _ (c : Settings) where
  pub send_loop_done :
      (s : Sender) (answers : List SendResult)
      → s.remaining_bytes ≡ 0
      → send_loop c s answers ≡ success s.packet_counter s.datagrams
  unfolding send_loop
  send_loop_done s [] h = ground arith
  send_loop_done s (a ∷ answers) h = ground arith

  round_more :
      (m : ℕ) (bytes : List ℕ) (counter : ℕ) (first : Bool) (out : List (List ℕ))
      → m < length bytes
      → round c (sender_at m bytes counter first out) sent
        ≡ again (
            sender_at m
              (drop m bytes)
              (incr_32 counter)
              false
              (out ++ datagram c first false counter (take m bytes) ∷ []))
  unfolding round
  round_more m bytes counter first out h = ground (arith, length-drop m bytes)

  round_final :
      (m : ℕ) (bytes : List ℕ) (counter : ℕ) (first : Bool) (out : List (List ℕ))
      → 0 < length bytes
      → length bytes ≤ m
      → round c (sender_at m bytes counter first out) sent
        ≡ again
            (record (sender_at m []
              (incr_32 counter)
              false
              (out ++ datagram c first c.last_buffer counter bytes ∷ [])) {
                get_data_from = drop (length bytes) bytes;
                very_last_packet = c.last_buffer;
              })
  unfolding round
  round_final m bytes counter first out h le =
      ground (arith, take_all (length bytes) bytes (omega arith))

  round_too_long :
      (m : ℕ) (bytes : List ℕ) (counter : ℕ) (first : Bool) (out : List (List ℕ))
      → counter < 2 ^ 32
      → round c (sender_at m bytes counter first out) message_too_long
        ≡ (if first then again (sender_at (m * 8 / 10) bytes counter true out) else failed)
  unfolding round
  round_too_long m bytes counter true out h = ground arith
  round_too_long m bytes counter false out h = ground arith

  round_error :
      (m : ℕ) (bytes : List ℕ) (counter : ℕ) (first : Bool) (out : List (List ℕ))
      → round c (sender_at m bytes counter first out) send_error ≡ failed
  unfolding round
  round_error m bytes counter first out = ground arith

  loop_again :
      (s t : Sender) (a : SendResult) (answers : List SendResult)
      → 0 < s.remaining_bytes
      → round c s a ≡ again t
      → send_loop c s (a ∷ answers) ≡ send_loop c t answers
  unfolding send_loop
  loop_again s t a answers h e = ground arith

  pub loop_failed :
      (s : Sender) (a : SendResult) (answers : List SendResult)
      → 0 < s.remaining_bytes
      → round c s a ≡ failed
      → send_loop c s (a ∷ answers) ≡ failure
  unfolding send_loop
  loop_failed s a answers h e = ground arith

  pub send_loop_more :
      (m : ℕ) (bytes : List ℕ) (counter : ℕ) (first : Bool) (out : List (List ℕ))
      (answers : List SendResult)
      → m < length bytes
      → send_loop c (sender_at m bytes counter first out) (sent ∷ answers)
        ≡ send_loop c
            (sender_at m
              (drop m bytes)
              (incr_32 counter)
              false
              (out ++ datagram c first false counter (take m bytes) ∷ []))
            answers
  send_loop_more m bytes counter first out answers h =
      loop_again _ _ sent answers (omega arith) (round_more m bytes counter first out h)

  pub send_loop_final :
      (m : ℕ) (bytes : List ℕ) (counter : ℕ) (first : Bool) (out : List (List ℕ))
      (answers : List SendResult)
      → 0 < length bytes
      → length bytes ≤ m
      → send_loop c (sender_at m bytes counter first out) (sent ∷ answers)
        ≡ success (incr_32 counter) (out ++ datagram c first c.last_buffer counter bytes ∷ [])
  send_loop_final m bytes counter first out answers h le =
      loop_again _ _ sent answers h (round_final m bytes counter first out h le)
      ∙ send_loop_done _ answers refl

  pub send_loop_too_long :
      (m : ℕ) (bytes : List ℕ) (counter : ℕ) (out : List (List ℕ)) (answers : List SendResult)
      → 0 < length bytes
      → counter < 2 ^ 32
      → send_loop c (sender_at m bytes counter true out) (message_too_long ∷ answers)
        ≡ send_loop c (sender_at (m * 8 / 10) bytes counter true out) answers
  send_loop_too_long m bytes counter out answers h k =
      loop_again _ _ message_too_long answers h (round_too_long m bytes counter true out k)

  -- Each other answer ends the call.
  pub send_loop_refused :
      (m : ℕ) (bytes : List ℕ) (counter : ℕ) (first : Bool) (out : List (List ℕ)) (a : SendResult)
      (answers : List SendResult)
      → 0 < length bytes
      → counter < 2 ^ 32
      → (a ≡ send_error) ⊎ ((a ≡ message_too_long) × (first ≡ false))
      → send_loop c (sender_at m bytes counter first out) (a ∷ answers) ≡ failure
  send_loop_refused m bytes counter first out a answers h k (inl e) =
      loop_failed _ a answers h (rw e (round_error m bytes counter first out))
  send_loop_refused m bytes counter first out a answers h k (inr (e, f)) =
      loop_failed _ a answers h (rw (e, f) (round_too_long m bytes counter false out k))

  -- With a payload of 0 bytes the loop never ends with 0.
  pub send_loop_zero :
      (bytes : List ℕ) (counter : ℕ) (first : Bool) (out : List (List ℕ))
      (answers : List SendResult) (offset : ℕ) (ds : List (List ℕ))
      → 0 < length bytes
      → counter < 2 ^ 32
      → send_loop c (sender_at 0 bytes counter first out) answers ≢ success offset ds
  send_loop_zero bytes counter first out [] offset ds h k e = unfold send_loop in ground arith
  send_loop_zero bytes counter first out (sent ∷ answers) offset ds h k e =
      send_loop_zero bytes (incr_32 counter) false _ answers offset ds h (omega arith)
        (sym (send_loop_more 0 bytes counter first out answers h) ∙ e)
  send_loop_zero bytes counter true out (message_too_long ∷ answers) offset ds h k e =
      send_loop_zero bytes counter true out answers offset ds h k
        (sym (send_loop_too_long 0 bytes counter out answers h k) ∙ e)
  send_loop_zero bytes counter false out (message_too_long ∷ answers) offset ds h k e =
      cc (
        send_loop_refused 0 bytes counter false out message_too_long answers h k (inr (refl, refl)))
  send_loop_zero bytes counter first out (send_error ∷ answers) offset ds h k e =
      cc (send_loop_refused 0 bytes counter first out send_error answers h k (inl refl))
