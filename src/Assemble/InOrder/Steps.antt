-- ===== src/Assemble/InOrder/Steps.antt =====
-- A round of `getPacketizedBuffer` that reads the packet it expects, with nothing stored.
use ersap_ejfat.Base.{
  ℕ, suc, ◌+◌, ◌^◌, ◌≤◌, ◌<◌, ◌≡◌, refl, sym, ap, ◌∙◌, Bool, true, false, ◌||◌, List, [], some,
  ◌==◌, ==_iff, Bool-cases, inl, inr, if◌then◌else◌, length, get_elem?, get_elem?-lt, arith,
}
use ersap_ejfat.Base.Memory.{ok, ◌>>=◌}
use ersap_ejfat.Packetize.{Settings}
use ersap_ejfat.Assemble.{Event, received}
use ersap_ejfat.Assemble.Loop.{
  Locals, incr_32, sub_64, good, advance, stop, settle, drain, Round, continue, finish, put_aside,
  put_in_order, take_packet, with_header, after_drain, after_read, round,
}
use ersap_ejfat.Assemble.Turns.{drain-nil_good}
use ersap_ejfat.Assemble.Message.{Fits, re_packet, re_header}
use ersap_ejfat.Assemble.Reads.{read_packet_reads}

-- The state before packet `k`, with `left` bytes to come in packets of at most `m` bytes.
pub record Ready (k left m : ℕ) (s : Locals) : Type 0 where
  pub stored_is : s.stored ≡ []
  pub expected_is : s.expected_sequence ≡ k
  pub first_is : s.first_read_for_buf ≡ false
  pub room_is : s.too_little_room ≡ false
  pub max_is : s.max_packet_bytes ≤ m
  pub fits : left + m ≤ s.remaining_len
  pub inside : s.put_data_at + s.remaining_len ≤ length s.mem

advance-Ready :
    (v : Bool) (c : Settings) (s : Locals) (n_packets k n left m : ℕ)
    → Ready k (n + left) m s
    → n ≤ m
    → suc k < 2 ^ 32
    → (t : Locals) × (advance v (with_header s (re_header c n_packets k) n) n ≡ good t)
      × Ready (suc k) left m t
      × (t.packet_last ≡ (suc k == n_packets))
unfolding advance
advance-Ready v c s n_packets k n left m r le small = elim (Bool-cases (k == 0)) [
  | inl begins ↦ (
    record behind { max_packet_bytes = n; first_read_for_buf = false },
    ground arith,
    first,
    refl,
  )
  | inr later ↦ (behind, ground (arith, r.first_is), (other later), refl)
]
  where
    shorter : sub_64 s.remaining_len n + n ≡ s.remaining_len
    shorter = ground (arith, r.fits)

    next : incr_32 s.expected_sequence ≡ suc k
    next = omega (arith, r.expected_is, small)

    now : Locals
    now = with_header s (re_header c n_packets k) n

    behind : Locals
    behind = record now {
      put_data_at = now.put_data_at + n;
      remaining_len = sub_64 now.remaining_len n;
      total_bytes_read = now.total_bytes_read + n;
      expected_sequence = incr_32 now.expected_sequence;
      pkt_count = incr_32 now.pkt_count;
    }

    first :
        Ready (suc k) left m (record behind { max_packet_bytes = n; first_read_for_buf = false })
    first = record {
      stored_is = r.stored_is;
      expected_is = next;
      first_is = refl;
      room_is = r.room_is;
      max_is = le;
      fits = omega (arith, shorter, r.fits);
      inside = omega (arith, shorter, r.inside);
    }

    other : (k == 0) ≡ false → Ready (suc k) left m behind
    other later = record {
      stored_is = r.stored_is;
      expected_is = next;
      first_is = rw later r.first_is;
      room_is = r.room_is;
      max_is = r.max_is;
      fits = omega (arith, shorter, r.fits);
      inside = omega (arith, shorter, r.inside);
    }

settle_enough :
    (k left m : ℕ) (t : Locals)
    → Ready k left m t
    → settle (record t { stored = [] }) ≡ record t { stored = []; too_little_room = false }
unfolding settle
settle_enough k left m t r = elim (Bool-cases t.packet_last) [
  | inl last ↦ ground (arith, r.room_is)
  | inr more ↦ ground (arith, r.room_is, r.fits, r.max_is)
]

or_false :
    (b : Bool) (r q : Round) → ◌≡◌ {A = Round} (if b || false then r else q) (if b then r else q)
or_false true r q = refl
or_false false r q = refl

-- A datagram that comes alone, with no flag set.
abbrev pub event_of : List ℕ → Event
event_of bytes = record { datagram = received bytes [] 0; malloc_ok = true }

-- One round of the outer loop on the packet that is expected.
pub round-Ready :
    {c : Settings} {xs : List (List ℕ)} (f : Fits c xs) (v : Bool) (s : Locals) (k left m : ℕ)
    (chunk : List ℕ)
    → Ready k (length chunk + left) m s
    → get_elem? xs k ≡ some chunk
    → length chunk ≤ m
    → (t : Locals) × (round false v s (event_of (re_packet c (length xs) k chunk))
        ≡ ok (if suc k == length xs then finish t else continue t))
      × Ready (suc k) left m t
      × (t.packet_last ≡ (suc k == length xs))
unfolding round take_packet put_in_order
round-Ready {c} {xs} f v s k left m chunk r g le =
    let (mem', reads, same_length) =
      read_packet_reads f s.mem s.put_data_at s.remaining_len k chunk g
        (omega (arith, r.inside, r.fits)) in
    let s' = record s { mem = mem' } in
    let r' : Ready k (length chunk + left) m s' = record {
      stored_is = r.stored_is;
      expected_is = r.expected_is;
      first_is = r.first_is;
      room_is = r.room_is;
      max_is = r.max_is;
      fits = r.fits;
      inside = omega (arith, r.inside, same_length);
    } in
    let (t, advanced, q, last) =
      advance-Ready v c s' (length xs) k (length chunk) left m r' le
        (omega (arith, f.count_fits, get_elem?-lt xs k g)) in
    let u = record t { stored = []; too_little_room = false } in
    let now : (k == s.expected_sequence) ≡ true = (==_iff _ _).1 (sym r.expected_is) in
    let drained : drain v (with_header s' (re_header c (length xs) k) (length chunk)) (length chunk)
          s.stored
        ≡ ok (stop u) =
      ap (drain v (with_header s' (re_header c (length xs) k) (length chunk)) (length chunk))
        r.stored_is
      ∙ drain-nil_good v (with_header s' (re_header c (length xs) k) (length chunk)) (length chunk)
          t advanced
      ∙ ap (λ k. ok (stop k)) (settle_enough (suc k) left m t q) in
    (
      u,
      ap (λ z. z >>= after_read v s (event_of (re_packet c (length xs) k chunk))) reads
          ∙ ap
              (λ (b : Bool).
                if b
                then put_in_order v (with_header s' (re_header c (length xs) k) (length chunk))
                    (length chunk)
                else put_aside (with_header s' (re_header c (length xs) k) (length chunk)) k
                    (length chunk) true)
              now
          ∙ ap (λ z. z >>= λ d. ok (after_drain d)) drained
          ∙ ap (λ (b : Bool). ok (if b || false then finish u else continue u)) last
          ∙ ap ok (or_false (suc k == length xs) (finish u) (continue u)),
      record {
        stored_is = refl;
        expected_is = q.expected_is;
        first_is = q.first_is;
        room_is = refl;
        max_is = q.max_is;
        fits = q.fits;
        inside = q.inside;
      },
      last,
    )
