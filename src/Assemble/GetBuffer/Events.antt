-- ===== src/Assemble/GetBuffer/Events.antt =====
-- The events that a call of `getPacketizedBuffer` leaves.
use ersap_ejfat.Base.{ℕ, ◌≡◌, subst, Bool, List, [], ◌∷◌, inl, inr, ℤ, pos, arith}
use ersap_ejfat.Base.Memory.{ok, Run-cases}
use ersap_ejfat.Packetize.{Settings}
use ersap_ejfat.Assemble.{Event}
use ersap_ejfat.Assemble.Loop.{
  Shared, Locals, Round, continue, finish, error, round, shared_after, shared_after_error, start,
  returned, loop, get_packetized_buffer,
}
use ersap_ejfat.Assemble.Safety.{AllGenuine}

-- The events that a call leaves are a part of those it was given.
module _ (c : Settings) (xs : List (List ℕ)) where
  loop-rest :
      (u v : Bool) (io : Shared) (s : Locals) (es : List Event) {value : ℤ} {out : Shared}
      {rest : List Event}
      → AllGenuine c xs es
      → loop u v io s es ≡ ok (returned value out rest)
      → AllGenuine c xs rest
  unfolding loop
  loop-rest u v io s [] g h = absurd (ground arith)
  loop-rest u v io s (e ∷ es) {value} {out} {rest} g h = elim (Run-cases (round u v s e)) [
    | inr (x, w) ↦ absurd (ground arith)
    | inl (r, w) ↦ by_round r (rw w at h) (λ t. loop-rest u v io t es g.1)
  ]
    where
      by_round :
          (r : Round)
          → (elim r [
            | continue t ↦ loop u v io t es
            | finish t ↦ ok (returned (pos t.total_bytes_read) (shared_after t) es)
            | error value t ↦ ok (returned value (shared_after_error io t) es)
          ])
            ≡ ok (returned value out rest)
          → ((t : Locals) → loop u v io t es ≡ ok (returned value out rest) → AllGenuine c xs rest)
          → AllGenuine c xs rest
      by_round (continue t) k later = later t k
      by_round (finish t) k later =
          let same : es ≡ rest = ground arith in subst (AllGenuine c xs) same g.1
      by_round (error x t) k later =
          let same : es ≡ rest = ground arith in subst (AllGenuine c xs) same g.1

  pub get_packetized_buffer-rest :
      (u v : Bool) (len : ℕ) (io : Shared) (es : List Event) {value : ℤ} {out : Shared}
      {rest : List Event}
      → AllGenuine c xs es
      → get_packetized_buffer u v len io es ≡ ok (returned value out rest)
      → AllGenuine c xs rest
  unfolding get_packetized_buffer
  get_packetized_buffer-rest u v len io es g h = loop-rest u v io (start len io) es g h
