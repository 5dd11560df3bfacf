-- ===== src/Assemble/GetBuffer/Swallows.antt =====
-- Errors of `getPacketizedBuffer` that `getBuffer` does not pass on.
use ersap_ejfat.Base.{
  ℕ, ◌≡◌, refl, sym, ap, Bool, true, false, Option, none, some, List, [], ◌∷◌, pos, negsuc, arith,
}
use ersap_ejfat.Base.Memory.{Run, ok, fault, ◌>>=◌}
use ersap_ejfat.Assemble.{Event}
use ersap_ejfat.Assemble.Store.{Store, free_map}
use ersap_ejfat.Assemble.Loop.{
  Shared, Locals, Round, continue, finish, error, round, loop, start, returned, shared_after,
  shared_after_error, get_packetized_buffer,
}
use ersap_ejfat.Assemble.GetBuffer.{
  Malloc, done, only, fresh, no_copy, first_block, after_outcome, copy_loop, copy, points_to,
  with_user_buf, get_buffer,
}

-- If the first call ends with an error and the map can be freed, `getBuffer` without `noCopy`
-- returns 0, its value for success, and sets neither `*userBuf` nor `*userBufLen`.
pub get_buffer_swallows :
    (u : Bool) (malloc : Malloc) (last : Bool) (p : Option (List ℕ)) (user_buf_len k : ℕ)
    (block : List ℕ) (events : List Event) {out : Shared} {rest : List Event} {m : Store}
    → malloc first_block ≡ some block
    → get_packetized_buffer u true first_block (fresh block last) events
      ≡ ok (returned (negsuc k) out rest)
    → free_map out.stored ≡ ok m
    → get_buffer u malloc last (points_to p) (some user_buf_len) false events
      ≡ ok (done (only (pos 0)))
unfolding get_buffer copy copy_loop after_outcome
get_buffer_swallows u malloc last p user_buf_len k block events g e w =
    rw (g, get_buffer, copy) (rw (e, copy_loop) (rw (w, after_outcome) refl))

-- An error leaves `last` as it was.
loop-error_last :
    (u v : Bool) (io : Shared) (s : Locals) (es : List Event) {k : ℕ} {out : Shared}
    {rest : List Event}
    → loop u v io s es ≡ ok (returned (negsuc k) out rest)
    → out.last ≡ io.last
unfolding loop
loop-error_last u v io s [] h = absurd (ground arith)
loop-error_last u v io s (e ∷ es) {k} {out} {rest} h =
    by_round (round u v s e) h (λ t. loop-error_last u v io t es)
  where
    by_round :
        (q : Run Round)
        → (q >>= λ r. elim r [
          | continue t ↦ loop u v io t es
          | finish t ↦ ok (returned (pos t.total_bytes_read) (shared_after t) es)
          | error value t ↦ ok (returned value (shared_after_error io t) es)
        ])
          ≡ ok (returned (negsuc k) out rest)
        → ((t : Locals) → loop u v io t es ≡ ok (returned (negsuc k) out rest) → out.last ≡ io.last)
        → out.last ≡ io.last
    by_round (fault x) h later = absurd (ground arith)
    by_round (ok (continue t)) h later = later t h
    by_round (ok (finish t)) h later = absurd (ground arith)
    by_round (ok (error value t)) h later =
        let same : shared_after_error io t ≡ out = ground arith in
        sym (ap (λ (o : Shared). o.last) same)

-- With `noCopy`, and with `last`, which nothing sets before the call, true by chance: after any
-- error of `getPacketizedBuffer` that leaves a map that can be freed, `getBuffer` returns 0.
pub no_copy_swallows :
    (u : Bool) (malloc : Malloc) (mem : List ℕ) (len k : ℕ) (events : List Event) {out : Shared}
    {rest : List Event} {m : Store}
    → get_packetized_buffer u true len (fresh mem true) events ≡ ok (returned (negsuc k) out rest)
    → free_map out.stored ≡ ok m
    → get_buffer u malloc true (points_to (some mem)) (some len) true events
      ≡ ok (done (record { value = pos 0; user_buf = some out.mem; user_buf_len = none }))
unfolding get_buffer with_user_buf no_copy
no_copy_swallows u malloc mem len k events {out} e w =
    let last : out.last ≡ true =
      unfold get_packetized_buffer in
      loop-error_last u true (fresh mem true) (start len (fresh mem true)) events e in
    rw (e, get_buffer, with_user_buf, no_copy) (rw (last, w) refl)
