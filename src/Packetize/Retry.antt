-- ===== src/Packetize/Retry.antt =====
-- What `sendPacketizedBuffer` sends, for every list of answers of `sendmsg`.
use ersap_ejfat.Base.{
  ℕ, zero, suc, ◌*◌, ◌/◌, ◌^◌, ◌≤◌, ◌<◌, ◌≡◌, ◌≢◌, refl, sym, ap, ◌∙◌, Bool, true, false, List, [],
  ◌∷◌, ◌++◌, append-nil, append_assoc, ltb, ltb→lt, ltb→le, Bool-cases, inl, inr, length, take,
  drop, flatten, take-append-drop, length-drop, length-take, take_all, drop_all, replicate, pos,
  arith,
}
use ersap_ejfat.Packetize.{
  SendResult, sent, message_too_long, send_error, Settings, Sender, datagram, incr_32, success,
  sending, send_loop, int_count, send_packetized_buffer,
}
use ersap_ejfat.Packetize.Chunks.{
  AllSized, is_empty, datagrams_of, offset_after, chunks, chunks-nil, flatten-chunks,
}
use ersap_ejfat.Packetize.Sends.{
  sender_at, send_loop_done, send_loop_more, send_loop_final, send_loop_too_long, send_loop_refused,
  send_loop_zero,
}

-- `ds` is `out` and then the datagrams for some cut of `bytes` into chunks of 1 to `m` bytes.
abbrev pub Sends : Settings → ℕ → Bool → ℕ → List ℕ → List (List ℕ) → ℕ → List (List ℕ) → Type 0
Sends c m first counter bytes out offset ds =
    (xs : List (List ℕ)) × (flatten xs ≡ bytes)
    × AllSized m xs
    × (ds ≡ out ++ datagrams_of c first counter xs)
    × (offset ≡ offset_after counter xs)

AllSized-mono : {m n : ℕ} (xs : List (List ℕ)) → m ≤ n → AllSized m xs → AllSized n xs
AllSized-mono [] h s = tt
AllSized-mono (x ∷ xs) h s = (s.0, omega arith, AllSized-mono xs h s.2)

is_empty-flatten : (xs : List (List ℕ)) → 0 < length (flatten xs) → is_empty xs ≡ false
is_empty-flatten [] h = absurd (omega arith)
is_empty-flatten (x ∷ xs) h = refl

module _ (c : Settings) where
  Sends-nil :
      (m : ℕ) (first : Bool) (counter : ℕ) (out : List (List ℕ)) {offset : ℕ} {ds : List (List ℕ)}
      → success counter out ≡ success offset ds
      → Sends c m first counter [] out offset ds
  unfolding datagrams_of
  Sends-nil m first counter out e = ([], refl, tt, ground (arith, append-nil out), ground arith)

  Sends-last :
      (m : ℕ) (first : Bool) (counter : ℕ) (bytes : List ℕ) (out : List (List ℕ)) {offset : ℕ}
      {ds : List (List ℕ)}
      → 0 < length bytes
      → length bytes ≤ m
      → success (incr_32 counter) (out ++ datagram c first c.last_buffer counter bytes ∷ [])
        ≡ success offset ds
      → Sends c m first counter bytes out offset ds
  unfolding datagrams_of
  Sends-last m first counter bytes out h le e =
      (bytes ∷ [], append-nil bytes, (h, le, tt), ground arith, ground arith)

  Sends-cons :
      (m : ℕ) (first : Bool) (counter : ℕ) (bytes : List ℕ) (out : List (List ℕ)) {offset : ℕ}
      {ds : List (List ℕ)}
      → 0 < m
      → m < length bytes
      → Sends c m false
          (incr_32 counter)
          (drop m bytes)
          (out ++ datagram c first false counter (take m bytes) ∷ [])
          offset
          ds
      → Sends c m first counter bytes out offset ds
  unfolding datagrams_of
  Sends-cons m first counter bytes out pm h (xs, whole, sized, e, o) = (
    take m bytes ∷ xs,
    ap (◌++◌ (take m bytes)) whole ∙ take-append-drop m bytes,
    (omega (arith, size), omega (arith, size), sized),
    e ∙ append_assoc out _ _ ∙ rw more refl,
    o,
  )
    where
      size : length (take m bytes) ≡ m
      size = length-take m bytes (omega arith)

      more : is_empty xs ≡ false
      more = is_empty-flatten xs (rw whole (omega (arith, length-drop m bytes)))

  -- Whatever `sendmsg` answers: if the loop ends, it has sent everything.
  send_loop-Sends :
      (m : ℕ) (bytes : List ℕ) (counter : ℕ) (first : Bool) (out : List (List ℕ))
      (answers : List SendResult) (offset : ℕ) (ds : List (List ℕ))
      → counter < 2 ^ 32
      → send_loop c (sender_at m bytes counter first out) answers ≡ success offset ds
      → Sends c m first counter bytes out offset ds
  send_loop-Sends m [] counter first out answers offset ds k e =
      Sends-nil m first counter out (sym (send_loop_done c _ answers refl) ∙ e)
  send_loop-Sends zero (b ∷ bytes) counter first out answers offset ds k e =
      absurd (send_loop_zero c (b ∷ bytes) counter first out answers offset ds (omega arith) k e)
  send_loop-Sends (suc m) (b ∷ bytes) counter first out [] offset ds k e =
      absurd (unfold send_loop in ground arith)
  send_loop-Sends (suc m) (b ∷ bytes) counter first out (sent ∷ answers) offset ds k e =
      elim (Bool-cases (ltb (suc m) (length (b ∷ bytes)))) [
        | inl more ↦
            let h = ltb→lt _ _ more in
            Sends-cons (suc m) first counter (b ∷ bytes) out (omega arith) h (
              send_loop-Sends (suc m) (drop (suc m) (b ∷ bytes)) (incr_32 counter) false _ answers
                offset ds (omega arith)
                (sym (send_loop_more c (suc m) (b ∷ bytes) counter first out answers h) ∙ e))
        | inr all ↦
            let h = ltb→le _ _ all in
            Sends-last (suc m) first counter (b ∷ bytes) out (omega arith) h (
              sym (send_loop_final c (suc m) (b ∷ bytes) counter first out answers (omega arith) h)
              ∙ e)
      ]
  send_loop-Sends (suc m) (b ∷ bytes) counter true out (message_too_long ∷ answers) offset ds k e =
      let (xs, whole, sized, d, o) =
        send_loop-Sends (suc m * 8 / 10) (b ∷ bytes) counter true out answers offset ds k (
          sym (send_loop_too_long c (suc m) (b ∷ bytes) counter out answers (omega arith) k) ∙ e) in
      (xs, whole, AllSized-mono xs (omega arith) sized, d, o)
  send_loop-Sends (suc m) (b ∷ bytes) counter false out (message_too_long ∷ answers) offset ds k e =
      absurd (
        cc (
          send_loop_refused c (suc m) (b ∷ bytes) counter false out message_too_long answers
            (omega arith) k (inr (refl, refl))))
  send_loop-Sends (suc m) (b ∷ bytes) counter first out (send_error ∷ answers) offset ds k e =
      absurd (
        cc (
          send_loop_refused c (suc m) (b ∷ bytes) counter first out send_error answers (omega arith)
            k (inl refl)))

-- Whatever `sendmsg` answers, also when a first packet was too big and was cut: a call on a buffer of
-- less than 2 ^ 31 bytes that returns 0 has sent the whole buffer. The payloads are a cut of the
-- buffer, in order, into chunks of 1 to `max_udp_payload` bytes; the sequence numbers count up from the
-- offset, which is returned past the last one; only the first datagram carries the first bit, and
-- only the last one the last bit.
pub send_packetized_buffer-Sends :
    (c : Settings) (data_buffer : List ℕ) (m offset next : ℕ) (first : Bool)
    (answers : List SendResult) (ds : List (List ℕ))
    → length data_buffer < 2 ^ 31
    → offset < 2 ^ 32
    → send_packetized_buffer c data_buffer (length data_buffer) (pos m) offset first answers
      ≡ success next ds
    → Sends c m first offset data_buffer [] next ds
unfolding send_packetized_buffer
send_packetized_buffer-Sends c data_buffer m offset next first answers ds h k e =
    send_loop-Sends c m data_buffer offset first [] answers next ds k (rw (← fits) e)
  where
    fits : int_count (length data_buffer) ≡ length data_buffer
    fits = ground arith

-- The payload limit after `k` refusals of the first packet.
abbrev pub shrink : ℕ → ℕ → ℕ
shrink zero m = m
shrink (suc k) m = shrink k (m * 8 / 10)

module _ (c : Settings) where
  send_loop_sent :
      (m : ℕ) (bytes : List ℕ) (counter : ℕ) (first : Bool) (out : List (List ℕ)) (n : ℕ)
      → 0 < m
      → length bytes ≤ n
      → send_loop c (sender_at m bytes counter first out) (replicate n sent)
        ≡ success
            (offset_after counter (chunks n m bytes))
            (out ++ datagrams_of c first counter (chunks n m bytes))
  unfolding chunks datagrams_of
  send_loop_sent m [] counter first out n pm le =
      rw (chunks-nil n m) (
        send_loop_done c (sender_at m [] counter first out) (replicate n sent) refl ∙ rw append-nil)
  send_loop_sent m (b ∷ bytes) counter first out zero pm le = absurd (omega arith)
  send_loop_sent m (b ∷ bytes) counter first out (suc n) pm le =
      elim (Bool-cases (ltb m (length (b ∷ bytes)))) [
        | inl more ↦
            let h = ltb→lt _ _ more in
            let shorter = length-drop m (b ∷ bytes) in
            let rest = chunks n m (drop m (b ∷ bytes)) in
            let nonempty : is_empty rest ≡ false = is_empty-flatten rest (
              rw (flatten-chunks n m (drop m (b ∷ bytes)) pm (omega (arith, shorter)))
                (omega (arith, shorter))) in
            send_loop_more c m (b ∷ bytes) counter first out (replicate n sent) h
            ∙ send_loop_sent m (drop m (b ∷ bytes)) (incr_32 counter) false _ n pm
                (omega (arith, shorter))
            ∙ ap (success (offset_after (incr_32 counter) rest))
                (append_assoc out _ _ ∙ rw nonempty refl)
        | inr all ↦
            let h = ltb→le _ _ all in
            send_loop_final c m (b ∷ bytes) counter first out (replicate n sent) (omega arith) h
            ∙ rw (drop_all m (b ∷ bytes) h, chunks-nil n m, take_all m (b ∷ bytes) h) refl
      ]

  send_loop_retried :
      (k m : ℕ) (bytes : List ℕ) (counter n : ℕ)
      → 0 < shrink k m
      → counter < 2 ^ 32
      → 0 < length bytes
      → length bytes ≤ n
      → send_loop c
          (sender_at m bytes counter true [])
          (replicate k message_too_long ++ replicate n sent)
        ≡ success
            (offset_after counter (chunks n (shrink k m) bytes))
            (datagrams_of c true counter (chunks n (shrink k m) bytes))
  send_loop_retried zero m bytes counter n pm h some le =
      send_loop_sent m bytes counter true [] n pm le
  send_loop_retried (suc k) m bytes counter n pm h some le =
      send_loop_too_long c m bytes counter [] (replicate k message_too_long ++ replicate n sent)
        some h
      ∙ send_loop_retried k (m * 8 / 10) bytes counter n pm h some le

-- The first buffer of a tick goes out with as many calls as it has bytes, after `k` refusals of its
-- first packet as too big, while the payload that is left after `k` cuts to 80 % is not 0: the call
-- returns 0, and the datagrams are those of the buffer in chunks of that payload.
pub send_packetized_buffer_finishes :
    (c : Settings) (data_buffer : List ℕ) (m offset k n : ℕ)
    → 0 < length data_buffer
    → length data_buffer < 2 ^ 31
    → offset < 2 ^ 32
    → length data_buffer ≤ n
    → 0 < shrink k m
    → send_packetized_buffer c data_buffer
        (length data_buffer)
        (pos m)
        offset
        true
        (replicate k message_too_long ++ replicate n sent)
      ≡ success
          (offset_after offset (chunks n (shrink k m) data_buffer))
          (datagrams_of c true offset (chunks n (shrink k m) data_buffer))
unfolding send_packetized_buffer
send_packetized_buffer_finishes c data_buffer m offset k n some h o le pm =
    rw fits (send_loop_retried c k m data_buffer offset n pm o some le)
  where
    fits : int_count (length data_buffer) ≡ length data_buffer
    fits = ground arith

send_loop_stuck :
    (c : Settings) (bytes : List ℕ) (counter : ℕ) (first : Bool) (out : List (List ℕ)) (n : ℕ)
    → 0 < length bytes
    → (s : Sender) × (send_loop c (sender_at 0 bytes counter first out) (replicate n sent)
        ≡ sending s)
      × (s.remaining_bytes ≡ length bytes)
send_loop_stuck c bytes counter first out zero some =
    (sender_at 0 bytes counter first out, unfold send_loop in ground arith, refl)
send_loop_stuck c bytes counter first out (suc n) some =
    let (s, e, r) = send_loop_stuck c bytes (incr_32 counter) false _ n some in
    (s, send_loop_more c 0 bytes counter first out (replicate n sent) some ∙ e, r)

-- The loop has no way out once the payload limit is 0 and bytes remain, however the calls of
-- `sendmsg` are answered: it never returns 0, and while they succeed it sends empty datagrams.
pub send_packetized_buffer_livelock :
    (c : Settings) (data_buffer : List ℕ) (offset n : ℕ) (first : Bool)
    → 0 < length data_buffer
    → length data_buffer < 2 ^ 31
    → offset < 2 ^ 32
    → ((answers : List SendResult) (next : ℕ) (ds : List (List ℕ))
        → send_packetized_buffer c data_buffer (length data_buffer) (pos 0) offset first answers
          ≢ success next ds)
      × ((s : Sender) × (send_packetized_buffer c data_buffer
              (length data_buffer)
              (pos 0)
              offset
              first
              (replicate n sent)
            ≡ sending s)
          × (s.remaining_bytes ≡ length data_buffer))
unfolding send_packetized_buffer
send_packetized_buffer_livelock c data_buffer offset n first some h o =
    let fits : int_count (length data_buffer) ≡ length data_buffer = ground arith in
    (
      λ answers next ds e.
          send_loop_zero c data_buffer offset first [] answers next ds some o (rw fits at e),
      rw fits (send_loop_stuck c data_buffer offset first [] n some),
    )
