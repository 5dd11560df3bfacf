-- ===== src/Assemble/InOrder.antt =====
-- `getPacketizedBuffer` returns: a whole message, in its order, into a buffer with room for it and for
-- one packet more.
pub mod Steps
use ersap_ejfat.Base.{
  ℕ, suc, ◌+◌, ◌^◌, ◌≤◌, ◌<◌, ◌≡◌, refl, sym, ap, subst, ◌∙◌, Bool, true, false, ◌||◌, List, [],
  ◌∷◌, some, ◌==◌, ==_iff, Bool-cases, inl, inr, if◌then◌else◌, length, take, get_elem?, flatten,
  length-append, between, between_all, get_elem?-lt, pos, arith,
}
use ersap_ejfat.Base.Memory.{Run, ok, ◌>>=◌}
use ersap_ejfat.Packetize.{Settings}
use ersap_ejfat.Packetize.Chunks.{AllSized}
use ersap_ejfat.Assemble.{Event, received}
use ersap_ejfat.Assemble.Loop.{
  Shared, Locals, incr_32, sub_64, good, advance, stop, settle, drain, Round, continue, finish,
  error, put_aside, put_in_order, take_packet, with_header, after_drain, after_read, round,
  returned, loop, start, shared_after, shared_after_error, get_packetized_buffer,
}
use ersap_ejfat.Assemble.Turns.{drain-nil_good}
use ersap_ejfat.Assemble.Message.{Fits, arrived, re_packet, re_header}
use ersap_ejfat.Assemble.Reads.{read_packet_reads}
use ersap_ejfat.Assemble.Safety.{AllGenuine, get_packetized_buffer-Gathered}
use ersap_ejfat.Assemble.InOrder.Steps.{Ready, event_of, round-Ready}

-- The datagrams of the chunks `ys`, the first of which is chunk `k` of `n`.
abbrev pub arrivals : Settings → ℕ → ℕ → List (List ℕ) → List Event
arrivals c n k [] = []
arrivals c n k (y ∷ ys) = event_of (re_packet c n k y) ∷ arrivals c n (suc k) ys

-- The chunks `ys` are those from `k` on.
abbrev From : List (List ℕ) → ℕ → List (List ℕ) → Type 0
From xs k [] = k ≡ length xs
From xs k (y ∷ ys) = (get_elem? xs k ≡ some y) × From xs (suc k) ys

loop-returns :
    {c : Settings} {xs : List (List ℕ)} (f : Fits c xs) (v : Bool) (io : Shared) (s : Locals)
    (k m : ℕ) (y : List ℕ) (ys : List (List ℕ))
    → Ready k (length (flatten (y ∷ ys))) m s
    → From xs k (y ∷ ys)
    → AllSized m (y ∷ ys)
    → (n : ℕ) × (out : Shared) × (loop false v io s (arrivals c (length xs) k (y ∷ ys))
        ≡ ok (returned (pos n) out []))
      × (out.last ≡ true)
      × (out.stored ≡ [])
unfolding loop
loop-returns {c} {xs} f v io s k m y [] r (g, end) sizes =
    let (t, did, q, last) =
      round-Ready f v s k 0 m y (subst (λ n. Ready k n m s) (length-append {0} y []) r) g sizes.1 in
    let is_last : (suc k == length xs) ≡ true = (==_iff _ _).1 end in
    (
      t.total_bytes_read,
      shared_after t,
      ap
          (λ (q : Run Round). q >>= λ r. elim r [
            | continue t ↦ loop false v io t []
            | finish t ↦ ok (returned (pos t.total_bytes_read) (shared_after t) [])
            | error value t ↦ ok (returned value (shared_after_error io t) [])
          ])
          (did ∙ ap (λ (b : Bool). ok (if b then finish t else continue t)) is_last),
      last ∙ is_last,
      q.stored_is,
    )
loop-returns {c} {xs} f v io s k m y (z ∷ zs) r (g, gs) sizes =
    let (t, did, q, last) =
      round-Ready f v s k (length (flatten (z ∷ zs))) m y
        (subst (λ n. Ready k n m s) (length-append {0} y (flatten (z ∷ zs))) r) g sizes.1 in
    let more : (suc k == length xs) ≡ false = ground (arith, get_elem?-lt xs (suc k) gs.0) in
    let (n, out, h, l, none) = loop-returns f v io t (suc k) m z zs q gs sizes.2 in
    (
      n,
      out,
      ap
            (λ (q : Run Round). q >>= λ r. elim r [
              | continue t ↦ loop false v io t (arrivals c (length xs) (suc k) (z ∷ zs))
              | finish t ↦ ok (
                  returned (pos t.total_bytes_read) (shared_after t)
                    (arrivals c (length xs) (suc k) (z ∷ zs)))
              | error value t ↦ ok (
                  returned value (shared_after_error io t)
                    (arrivals c (length xs) (suc k) (z ∷ zs)))
            ])
            (did ∙ ap (λ (b : Bool). ok (if b then finish t else continue t)) more)
          ∙ h,
      l,
      none,
    )

suffix-From :
    (xs ys : List (List ℕ)) (k : ℕ)
    → ((i : ℕ) → get_elem? xs (k + i) ≡ get_elem? ys i)
    → k + length ys ≡ length xs
    → From xs k ys
suffix-From xs [] k same e = omega (arith, e)
suffix-From xs (y ∷ ys) k same e =
    let here : k + 0 ≡ k = omega arith in
    (
      ap (get_elem? xs) (sym here) ∙ same 0,
      suffix-From xs ys (suc k)
          (λ i.
            let next : suc k + i ≡ k + suc i = omega arith in ap (get_elem? xs) next ∙ same (suc i))
          (omega (arith, e)),
    )

arrivals-AllGenuine :
    (c : Settings) (xs : List (List ℕ)) (k : ℕ) (ys : List (List ℕ))
    → From xs k ys
    → AllGenuine c xs (arrivals c (length xs) k ys)
arrivals-AllGenuine c xs k [] h = tt
arrivals-AllGenuine c xs k (y ∷ ys) h =
    (arrived k y [] 0 h.0, arrivals-AllGenuine c xs (suc k) ys h.1)

-- `getPacketizedBuffer` with `recvmsg`, nothing stored and sequence number 0 expected: if a whole
-- message comes in its order, in packets of 1 to `m` bytes, and the buffer has room for the message
-- and `m` bytes more, then the call returns, having read every packet, with the last bit set and nothing stored, and the
-- bytes it returns are the message.
pub get_packetized_buffer_returns :
    (c : Settings) (xs : List (List ℕ)) (f : Fits c xs) (m : ℕ) (very_first_read : Bool)
    (buf_len : ℕ) (io : Shared)
    → AllSized m xs
    → 0 < length xs
    → length (flatten xs) + m ≤ buf_len
    → buf_len ≤ length io.mem
    → io.exp_sequence ≡ 0
    → io.stored ≡ []
    → (n : ℕ) × (out : Shared) × (get_packetized_buffer false very_first_read buf_len io
          (arrivals c (length xs) 0 xs)
        ≡ ok (returned (pos n) out []))
      × (out.last ≡ true)
      × (out.stored ≡ [])
      × (take n out.mem ≡ flatten xs)
get_packetized_buffer_returns c [] f m v buf_len io sizes some_packets room inside exp none =
    absurd (omega arith)
get_packetized_buffer_returns c (x ∷ xs) f m v buf_len io sizes some_packets room inside exp none =
    let all = x ∷ xs in
    let from =
      suffix-From all all 0 (λ i. let e : 0 + i ≡ i = omega arith in ap (get_elem? all) e)
        (omega arith) in
    let (n, out, h, last, empty) =
      loop-returns f v io (start buf_len io) 0 m x xs
        (record {
          stored_is = none;
          expected_is = exp;
          first_is = refl;
          room_is = refl;
          max_is = omega arith;
          fits = room;
          inside = omega (arith, inside);
        })
        from sizes in
    let called : get_packetized_buffer false v buf_len io (arrivals c (length all) 0 all)
        ≡ ok (returned (pos n) out []) =
      unfold get_packetized_buffer in h in
    let g =
      get_packetized_buffer-Gathered c all f false v buf_len io (arrivals c (length all) 0 all)
        (arrivals-AllGenuine c all 0 all from) (omega arith) (rw none tt) called in
    let end : out.exp_sequence ≡ length all = (==_iff _ _).0 (sym g.last_is ∙ last) in
    (
      n,
      out,
      called,
      last,
      empty,
      g.written
          ∙ ap (λ b. flatten (between b out.exp_sequence all)) exp
          ∙ ap flatten (between_all all out.exp_sequence end),
    )
