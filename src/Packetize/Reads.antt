-- ===== src/Packetize/Reads.antt =====
-- The memory that `sendPacketizedBuffer` of ejfat_packetize.hpp reads: of every datagram that goes out,
-- the bytes from `getDataFrom` on.
use ersap_ejfat.Base.{
  ℕ, zero, suc, ◌-◌, ◌*◌, ◌≤◌, ◌<◌, ◌≡◌, refl, sym, ap, subst, ◌∙◌, Bool, true, false, ◌||◌,
  Bool-cases, inl, inr, List, [], ◌∷◌, ◌++◌, ltb, ◌==◌, if◌then◌else◌, length, drop, length-drop,
  ltb→lt, replicate, ℤ, pos, negsuc, arith,
}
use ersap_ejfat.Packetize.{
  SendResult, sent, message_too_long, send_error, Settings, Sender, Round, again, failed, round,
  round_with,
}

-- Some datagram goes out whose bytes reach past the end of the memory.
unfoldable pub reads_past : Settings → Sender → List SendResult → Bool
reads_past c s [] = false
reads_past c s (answer ∷ answers) = elim (s.remaining_bytes == 0) [
  | true ↦ false
  | false ↦ elim (round c s answer) [
    | again t ↦
        ltb (length s.get_data_from) (s.remaining_bytes - t.remaining_bytes)
        || reads_past c t answers
    | failed ↦ false
  ]
]

-- The bytes that are left to send are there, and a round takes no more than that.
abbrev InBounds : Sender → Round → Type 0
InBounds s (again t) =
    (s.remaining_bytes - t.remaining_bytes ≤ length s.get_data_from)
    × (t.remaining_bytes ≤ length t.get_data_from)
InBounds s failed = Unit {0}

round_with-InBounds :
    (c : Settings) (s : Sender) (limit : ℤ) (answer : SendResult)
    → s.remaining_bytes ≤ length s.get_data_from
    → InBounds s (round_with c s limit answer)
unfolding round_with
round_with-InBounds c s (negsuc m) answer h = tt
round_with-InBounds c s (pos m) sent h = elim (Bool-cases (ltb m s.remaining_bytes)) [
  | inl more ↦ rw more (omega (arith, h), omega (arith, h, length-drop m s.get_data_from))
  | inr all ↦
      rw all (omega (arith, h), omega (arith, h, length-drop s.remaining_bytes s.get_data_from))
]
round_with-InBounds c s (pos m) message_too_long h = elim (Bool-cases s.very_first_packet) [
  | inl first ↦ rw first (omega arith, h)
  | inr later ↦ rw later tt
]
round_with-InBounds c s (pos m) send_error h = tt

pub reads_past-false :
    (c : Settings) (s : Sender) (answers : List SendResult)
    → s.remaining_bytes ≤ length s.get_data_from
    → reads_past c s answers ≡ false
unfolding reads_past
reads_past-false c s [] h = refl
reads_past-false c s (answer ∷ answers) h = elim (Bool-cases (s.remaining_bytes == 0)) [
  | inl over ↦ rw (over, reads_past) refl
  | inr more ↦
      rw (more, reads_past)
        (by_round (round c s answer)
          (unfold round in round_with-InBounds c s s.max_udp_payload answer h)
          (λ t. reads_past-false c t answers))
]
  where
    by_round :
        (r : Round)
        → InBounds s r
        → ((t : Sender)
            → t.remaining_bytes ≤ length t.get_data_from
            → reads_past c t answers ≡ false)
        → (elim r [
          | again t ↦
              ltb (length s.get_data_from) (s.remaining_bytes - t.remaining_bytes)
              || reads_past c t answers
          | failed ↦ false
        ])
          ≡ false
    by_round (again t) (few, left) later = rw (later t left) (ground arith)
    by_round failed fine later = refl

-- The bytes that a round with this limit takes.
abbrev chunk_size : ℕ → ℕ → ℕ
chunk_size m remaining = if ltb m remaining then m else remaining

-- A round whose datagram goes out.
abbrev MovesOn : Settings → ℕ → Sender → Round → Type 0
MovesOn c m s r =
    (t : Sender) × (r ≡ again t)
    × (t.max_udp_payload ≡ s.max_udp_payload)
    × (t.remaining_bytes ≡ s.remaining_bytes - chunk_size m s.remaining_bytes)
    × (t.get_data_from ≡ drop (chunk_size m s.remaining_bytes) s.get_data_from)

round_with-MovesOn :
    (c : Settings) (m : ℕ) (s : Sender) → MovesOn c m s (round_with c s (pos m) sent)
unfolding round_with
round_with-MovesOn c m s = (_, refl, refl, refl, refl)

round-MovesOn :
    (c : Settings) (m : ℕ) (s : Sender) → s.max_udp_payload ≡ pos m → MovesOn c m s (round c s sent)
unfolding round
round-MovesOn c m s e =
    subst (λ limit. MovesOn c m s (round_with c s limit sent)) (sym e) (round_with-MovesOn c m s)

-- If more bytes are to be sent than there are, and enough datagrams go out, one of them reaches past the
-- end of the memory.
pub reads_past-true :
    (c : Settings) (m k : ℕ) (s : Sender) (later : List SendResult)
    → s.max_udp_payload ≡ pos m
    → length s.get_data_from < s.remaining_bytes
    → length s.get_data_from < k * m
    → reads_past c s (replicate k sent ++ later) ≡ true
unfolding reads_past
reads_past-true c m zero s later e short enough = absurd (omega (arith, enough))
reads_past-true c m (suc k) s later e short enough =
    let (t, goes, same, left, at) = round-MovesOn c m s e in
    let more : (s.remaining_bytes == 0) ≡ false = ground (arith, short) in
    rw (more, goes, reads_past)
      (elim (Bool-cases (ltb m s.remaining_bytes)) [
        | inr all ↦
            let n_is : chunk_size m s.remaining_bytes ≡ s.remaining_bytes = rw all refl in
            ground (arith, short, left, n_is)
        | inl part ↦
            let n_is : chunk_size m s.remaining_bytes ≡ m = rw part refl in
            elim (Bool-cases (ltb (length s.get_data_from) m)) [
              | inl past ↦ ground (arith, past, left, n_is, ltb→lt _ _ part)
              | inr there ↦
                  let wide : m < s.remaining_bytes = ltb→lt _ _ part in
                  let fits : m ≤ length s.get_data_from = ground (arith, there) in
                  let size : length t.get_data_from ≡ length s.get_data_from - m =
                    ap (λ (b : List ℕ). length b) (at ∙ ap (λ n. drop n s.get_data_from) n_is)
                    ∙ length-drop m s.get_data_from in
                  let rest =
                    reads_past-true c m k t later (same ∙ e)
                      (omega (arith, size, left, n_is, short, wide, fits))
                      (omega (arith, size, enough, fits)) in
                  rw rest (ground arith)
            ]
      ])
