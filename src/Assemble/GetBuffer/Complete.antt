-- ===== src/Assemble/GetBuffer/Complete.antt =====
-- When `getBuffer` hands out a buffer, it holds the whole message.
use ersap_ejfat.Base.{
  ℕ, zero, suc, ◌+◌, ◌≡◌, refl, sym, ap, subst, ◌∙◌, Bool, true, false, Option, none, some, List,
  [], ◌++◌, ==_iff, inl, inr, length, take, flatten, between_refl, between_all, ℤ, pos, negsuc,
  arith,
}
use ersap_ejfat.Base.Memory.{ok, ◌>>=◌, Run-cases}
use ersap_ejfat.Packetize.{Settings}
use ersap_ejfat.Assemble.{Event, code, out_of_mem, out_of_order}
use ersap_ejfat.Assemble.Store.{Store, free_map}
use ersap_ejfat.Assemble.Loop.{Outcome, returned, waiting, get_packetized_buffer}
use ersap_ejfat.Assemble.Message.{Fits}
use ersap_ejfat.Assemble.Safety.{AllGenuine, Gathered, get_packetized_buffer-Gathered}
use ersap_ejfat.Assemble.GetBuffer.{
  Malloc, Returned, Result, done, blocked, only, fresh, free_then, Growing, rest_of, after_call,
  grow, Turn, next, leave, after_data, after_outcome, copy_loop, first_block, copy, points_to,
  get_buffer,
}
use ersap_ejfat.Assemble.GetBuffer.Events.{get_packetized_buffer-rest}
use ersap_ejfat.Assemble.GetBuffer.Blocks.{Allocates, Holds, after_call-Holds, grow-Holds}

module _ {c : Settings} {xs : List (List ℕ)} (f : Fits c xs) where
  -- If a buffer is handed out, the value is 0 and the buffer begins with the message.
  abbrev pub HandsOver : Result → Type 0
  HandsOver blocked = Unit {0}
  HandsOver (done r) =
      (b : List ℕ)
      → r.user_buf ≡ some b
      → (r.value ≡ pos 0) × ((len : ℕ) × (r.user_buf_len ≡ some len) × (take len b ≡ flatten xs))

  nothing_handed : (value : ℤ) → HandsOver (done (only value))
  nothing_handed value b e = absurd (ground arith)

  freed-HandsOver :
      (m : Store) (r : Returned) {t : Result}
      → HandsOver (done r)
      → free_then m r ≡ ok t
      → HandsOver t
  freed-HandsOver m r {t} h e = elim (Run-cases (free_map m)) [
    | inr (x, w) ↦ absurd (ground arith)
    | inl (m', w) ↦ let same : done r ≡ t = ground arith in subst HandsOver same h
  ]

  abbrev GoesOn : Turn → Type 0
  GoesOn (next h rest) = Holds f h × AllGenuine c xs rest
  GoesOn (leave r) = HandsOver r

  left-GoesOn :
      (m : Store) (r : Returned) {t : Turn}
      → HandsOver (done r)
      → (free_then m r >>= λ q. ok (leave q)) ≡ ok t
      → GoesOn t
  left-GoesOn m r {t} h e = elim (Run-cases (free_then m r)) [
    | inr (x, w) ↦ absurd (cc (ap (λ p. p >>= λ q. ok (leave q)) w))
    | inl (q, w) ↦
        let p : ok (leave q) ≡ ok t = sym (ap (λ p. p >>= λ q. ok (leave q)) w) ∙ e in
        let same : leave q ≡ t = ground arith in subst GoesOn same (freed-HandsOver m r h w)
  ]

  handed :
      (d : List ℕ) (total : ℕ)
      → take total d ≡ flatten xs
      → HandsOver (done (record { value = pos 0; user_buf = some d; user_buf_len = some total }))
  handed d total whole b e =
      let same : d ≡ b = ground arith in (refl, (total, refl, ap (take total) (sym same) ∙ whole))

  after_outcome-GoesOn :
      {malloc : Malloc} (a : Allocates malloc) (u : Bool) (g : Growing) (es : List Event)
      (o : Outcome) {t : Turn}
      → AllGenuine c xs es
      → Holds f g
      → get_packetized_buffer u g.first_read g.remaining_bytes (rest_of g) es ≡ ok o
      → after_outcome malloc g o ≡ ok t
      → GoesOn t
  unfolding after_outcome after_data
  after_outcome-GoesOn a u g es (waiting s) {t} q h w e =
      let same : leave blocked ≡ t = ground arith in subst GoesOn same tt
  after_outcome-GoesOn a u g es (returned (negsuc k) out rest) {t} q h w e =
      left-GoesOn out.stored (only (pos g.total_bytes)) (nothing_handed (pos g.total_bytes)) e
  after_outcome-GoesOn {malloc} a u g es (returned (pos n) out rest) {t} q h w e =
      by_last out.last refl e
    where
      got : Gathered xs f.count_fits g.shared.exp_sequence (length (rest_of g).mem) n out
      got =
          get_packetized_buffer-Gathered c xs f u g.first_read g.remaining_bytes (rest_of g) es q
            h.upto h.stored_are w

      behind : Holds f (after_call g n out)
      behind = after_call-Holds f g n out h got

      by_block :
          (o : Option Growing)
          → grow malloc (after_call g n out) ≡ o
          → (elim o [
            | none ↦ free_then out.stored (only (code out_of_mem)) >>= λ r. ok (leave r)
            | some h ↦ ok (next h rest)
          ])
            ≡ ok t
          → GoesOn t
      by_block none v e =
          left-GoesOn out.stored (only (code out_of_mem)) (nothing_handed (code out_of_mem)) e
      by_block (some h') v e =
          let same : next h' rest ≡ t = ground arith in
          subst GoesOn same (
            grow-Holds f a (after_call g n out) behind v,
            get_packetized_buffer-rest c xs u g.first_read g.remaining_bytes (rest_of g) es q w,
          )

      by_last :
          (last : Bool)
          → out.last ≡ last
          → after_data malloc last (after_call g n out) rest ≡ ok t
          → GoesOn t
      by_last true last e =
          let end : out.exp_sequence ≡ length xs = (==_iff _ _).0 (sym got.last_is ∙ last) in
          left-GoesOn out.stored _
            (handed (take g.total_bytes g.data_buf ++ out.mem) (g.total_bytes + n)
              (behind.written ∙ ap flatten (between_all xs out.exp_sequence end)))
            e
      by_last false more e = by_block (grow malloc (after_call g n out)) refl e

  copy_loop-HandsOver :
      {malloc : Malloc} (a : Allocates malloc) (u : Bool) (fuel : ℕ) (g : Growing) (es : List Event)
      {r : Result}
      → AllGenuine c xs es
      → Holds f g
      → copy_loop u malloc fuel g es ≡ ok r
      → HandsOver r
  unfolding copy_loop
  copy_loop-HandsOver a u zero g es {r} q h e =
      let same : blocked ≡ r = ground arith in subst HandsOver same tt
  copy_loop-HandsOver {malloc} a u (suc fuel) g es {r} q h e =
      elim (Run-cases (get_packetized_buffer u g.first_read g.remaining_bytes (rest_of g) es)) [
        | inr (x, w) ↦ absurd (ground (arith, rw w at e))
        | inl (o, w) ↦ elim (Run-cases (after_outcome malloc g o)) [
          | inr (x, v) ↦ absurd (ground (arith, rw (w, v) at e))
          | inl (t, v) ↦
              by_turn t (after_outcome-GoesOn a u g es o q h w v) (rw (w, v) at e)
                (λ h' rest. copy_loop-HandsOver a u fuel h' rest)
        ]
      ]
    where
      by_turn :
          (t : Turn)
          → GoesOn t
          → (elim t [ next h rest ↦ copy_loop u malloc fuel h rest | leave r ↦ ok r ]) ≡ ok r
          → ((h : Growing) (rest : List Event)
              → AllGenuine c xs rest
              → Holds f h
              → copy_loop u malloc fuel h rest ≡ ok r
              → HandsOver r)
          → HandsOver r
      by_turn (next h' rest) n e later = later h' rest n.1 n.0 e
      by_turn (leave l) n e later = let same : l ≡ r = ground arith in subst HandsOver same n

  copy-HandsOver :
      {malloc : Malloc} (a : Allocates malloc) (u last : Bool) (events : List Event) {r : Result}
      → AllGenuine c xs events
      → copy u malloc last events ≡ ok r
      → HandsOver r
  unfolding copy
  copy-HandsOver {malloc} a u last events {r} q e = by_block (malloc first_block) refl e
    where
      begin : List ℕ → Growing
      begin block = record {
        data_buf = block;
        data_buf_len = first_block;
        remaining_bytes = first_block;
        total_bytes = 0;
        first_read = true;
        shared = fresh [] last;
      }

      by_block :
          (o : Option (List ℕ))
          → malloc first_block ≡ o
          → (elim o [
            | none ↦ ok (done (only (code out_of_order)))
            | some block ↦ copy_loop u malloc (suc (length events)) (begin block) events
          ])
            ≡ ok r
          → HandsOver r
      by_block none w e =
          let same : done (only (code out_of_order)) ≡ r = ground arith in
          subst HandsOver same (nothing_handed (code out_of_order))
      by_block (some block) w e =
          copy_loop-HandsOver a u (suc (length events)) (begin block) events q
            (record {
              inside = omega arith;
              sized = a.sized first_block block w;
              limit = omega arith;
              upto = omega arith;
              written = ap flatten (sym (between_refl 0 xs));
              stored_are = tt;
            })
            e

-- `getBuffer` without `noCopy`, while the datagrams of one message arrive in any order, with losses,
-- repetitions and errors, and with an allocator whose blocks have the size asked for and are
-- smaller than 2 ^ 31 bytes: if it hands out a buffer, it returns 0 and the buffer begins with the
-- whole message, of the length that it reports, however often the block was enlarged.
pub get_buffer_complete :
    (c : Settings) (xs : List (List ℕ)) (f : Fits c xs) (malloc : Malloc) (a : Allocates malloc)
    (u last : Bool) (p : Option (List ℕ)) (user_buf_len : ℕ) (events : List Event) {r : Returned}
    {b : List ℕ}
    → AllGenuine c xs events
    → get_buffer u malloc last (points_to p) (some user_buf_len) false events ≡ ok (done r)
    → r.user_buf ≡ some b
    → (r.value ≡ pos 0) × ((len : ℕ) × (r.user_buf_len ≡ some len) × (take len b ≡ flatten xs))
unfolding get_buffer
get_buffer_complete c xs f malloc a u last p n events {r} {b} q e w =
    copy-HandsOver f a u last events q e b w
