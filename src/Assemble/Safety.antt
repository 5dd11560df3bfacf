-- ===== src/Assemble/Safety.antt =====
-- What `getPacketizedBuffer` has put into the buffer when it returns, in whatever order the packets
-- of a message arrive, lost and repeated ones included.
use ersap_ejfat.Base.{
  ℕ, ◌^◌, ◌≤◌, ◌<◌, ◌≡◌, refl, sym, ap, subst, ◌∙◌, Bool, List, [], ◌∷◌, ◌==◌, inl, inr, length,
  take, flatten, between, between_refl, pos, arith,
}
use ersap_ejfat.Base.Memory.{ok, Run-cases}
use ersap_ejfat.Packetize.{Settings}
use ersap_ejfat.Assemble.{Event}
use ersap_ejfat.Assemble.Loop.{
  Shared, Locals, Round, continue, finish, error, round, returned, loop, start, shared_after,
  shared_after_error, get_packetized_buffer,
}
use ersap_ejfat.Assemble.Message.{Fits, Genuine}
use ersap_ejfat.Assemble.Invariant.{AllStored, Inv}
use ersap_ejfat.Assemble.Rounds.{Settled}
use ersap_ejfat.Assemble.Kept.{Keeps, round-Keeps}

module _ (xs : List (List ℕ)) (small : length xs < 2 ^ 32) (b len : ℕ) where
  -- What the caller of a call that began at sequence number `b` gets, with the value `n`: the first
  -- `n` bytes of the buffer are the chunks from `b` up to the next expected one, the last bit is set
  -- exactly if that is the end of the message, and the map holds packets of the message.
  pub record Gathered (n : ℕ) (out : Shared) : Type 0 where
    pub from : b ≤ out.exp_sequence
    pub upto : out.exp_sequence ≤ length xs
    pub inside : n ≤ length out.mem
    pub sized : length out.mem ≡ len
    pub written : take n out.mem ≡ flatten (between b out.exp_sequence xs)
    pub last_is : out.last ≡ (out.exp_sequence == length xs)
    pub stored_are : AllStored xs out.stored

  finish_gathers :
      (t : Locals)
      → Settled xs small b len t
      → AllStored xs t.stored
      → Gathered t.total_bytes_read (shared_after t)
  finish_gathers t h a = record {
    from = h.inv.from;
    upto = h.inv.upto;
    inside = omega (arith, h.inv.total, h.inv.inside);
    sized = h.inv.sized;
    written = ap (λ k. take k t.mem) h.inv.total ∙ h.inv.written;
    last_is = h.last_is;
    stored_are = a;
  }

abbrev pub AllGenuine : Settings → List (List ℕ) → List Event → Type 0
AllGenuine c xs [] = Unit {0}
AllGenuine c xs (e ∷ es) = Genuine c xs e.datagram × AllGenuine c xs es

module _ {c : Settings} {xs : List (List ℕ)} (f : Fits c xs) (b len : ℕ) where
  loop-Gathered :
      (use_recv_from v : Bool) (io : Shared) (s : Locals) (es : List Event) {n : ℕ} {out : Shared}
      {rest : List Event}
      → AllGenuine c xs es
      → Inv xs b len s
      → AllStored xs s.stored
      → loop use_recv_from v io s es ≡ ok (returned (pos n) out rest)
      → Gathered xs f.count_fits b len n out
  unfolding loop
  loop-Gathered u v io s [] g q a h = absurd (ground arith)
  loop-Gathered u v io s (e ∷ es) {n} {out} {rest} g q a h = elim (Run-cases (round u v s e)) [
    | inr (x, w) ↦ absurd (ground arith)
    | inl (r, w) ↦
        by_round r (round-Keeps xs f.count_fits b len f u v s e g.0 q a w) (rw w at h)
          (λ t. loop-Gathered u v io t es g.1)
  ]
    where
      by_round :
          (r : Round)
          → Keeps xs f.count_fits b len r
          → (elim r [
            | continue t ↦ loop u v io t es
            | finish t ↦ ok (returned (pos t.total_bytes_read) (shared_after t) es)
            | error value t ↦ ok (returned value (shared_after_error io t) es)
          ])
            ≡ ok (returned (pos n) out rest)
          → ((t : Locals)
              → Inv xs b len t
              → AllStored xs t.stored
              → loop u v io t es ≡ ok (returned (pos n) out rest)
              → Gathered xs f.count_fits b len n out)
          → Gathered xs f.count_fits b len n out
      by_round (continue t) k h later = later t k.0 k.1 h
      by_round (finish t) k h later =
          let value : t.total_bytes_read ≡ n = ground arith in
          let shared : shared_after t ≡ out = ground arith in
          subst (λ k. Gathered xs f.count_fits b len k out) value
            (subst (Gathered xs f.count_fits b len t.total_bytes_read) shared
              (finish_gathers xs f.count_fits b len t k.0 k.1))
      by_round (error value t) (j, negative) h later = absurd (ground arith)

-- `getPacketizedBuffer` with either reader, while the datagrams of one message arrive in any order,
-- some lost and some twice, with receive errors and failures of `malloc` in between. A call that
-- begins at a sequence number of the message, with packets of the message in the map, and returns a
-- byte count has gathered that many bytes: `Gathered` says what is in the buffer, what the last bit
-- means and what is in the map.
pub get_packetized_buffer-Gathered :
    (c : Settings) (xs : List (List ℕ)) (f : Fits c xs) (use_recv_from very_first_read : Bool)
    (buf_len : ℕ) (io : Shared) (events : List Event) {n : ℕ} {out : Shared} {rest : List Event}
    → AllGenuine c xs events
    → io.exp_sequence ≤ length xs
    → AllStored xs io.stored
    → get_packetized_buffer use_recv_from very_first_read buf_len io events
      ≡ ok (returned (pos n) out rest)
    → Gathered xs f.count_fits io.exp_sequence (length io.mem) n out
unfolding get_packetized_buffer
get_packetized_buffer-Gathered c xs f use_recv_from v buf_len io events g le a h =
    loop-Gathered f io.exp_sequence (length io.mem) use_recv_from v io (start buf_len io) events g
      (record {
        from = omega arith;
        upto = le;
        inside = omega arith;
        sized = refl;
        total = refl;
        written = ap flatten (sym (between_refl io.exp_sequence xs));
      })
      a h
