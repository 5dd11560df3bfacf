-- ===== src/Plain/Engine.antt =====
-- `EjfatAssembleEngine::process` of ejfat/legacy/src/main/cpp/ejfat_assemble_engine.cpp: `getBuffer`,
-- and the buffer goes to the zmq socket, if there is one.
pub mod Tests
use ersap_ejfat.Base.{
  ℕ, ◌≡◌, refl, sym, ap, subst, ◌∙◌, Bool, true, false, Option, none, some, List, [], ◌∷◌, take,
  flatten, ℤ, pos, negsuc, if◌then◌else◌, arith,
}
use ersap_ejfat.Base.Memory.{Run, ok, fault, ◌>>=◌, Run-cases}
use ersap_ejfat.Packetize.{Settings}
use ersap_ejfat.Assemble.{Event}
use ersap_ejfat.Assemble.Store.{Store}
use ersap_ejfat.Assemble.Store
use ersap_ejfat.Assemble.Loop
use ersap_ejfat.Assemble.Loop.{Shared, returned}
use ersap_ejfat.Assemble.Message.{Fits}
use ersap_ejfat.Assemble.Safety.{AllGenuine}
use ersap_ejfat.Assemble.GetBuffer.{
  Malloc, Returned, Result, done, blocked, only, fresh, points_to, first_block,
}
use ersap_ejfat.Assemble.GetBuffer.Blocks.{Allocates}
use ersap_ejfat.Assemble.GetBuffer.Complete.{get_buffer_complete}
use ersap_ejfat.Assemble.GetBuffer.Swallows.{get_buffer_swallows}
use ersap_ejfat.Plain.{get_buffer}

-- What the caller's two variables hold, and what went to the socket; or the process ends, or waits.
pub data Processed : Type 0 where
  finished : (user_buf : Option (List ℕ)) (user_buf_len : ℕ) (zmq_sent : Bool) → Processed
  exits waits : Processed

abbrev or_else {ℓ} : {A : Type ℓ} → Option A → A → A
or_else none a = a
or_else (some b) a = b

abbrev or_keep : Option (List ℕ) → Option (List ℕ) → Option (List ℕ)
or_keep none p = p
or_keep (some b) p = some b

-- `zmq` says if there is a socket, `send_ok` is what `zmq_send` answers.
abbrev pub after_get : Bool → Bool → Option (List ℕ) → ℕ → Result → Processed
after_get zmq send_ok p n blocked = waits
after_get zmq send_ok p n (done r) = elim r.value [
  | negsuc k ↦ exits
  | pos v ↦
      if zmq
      then (if send_ok
          then finished (or_keep r.user_buf p) (or_else r.user_buf_len n) true
          else exits)
      else finished (or_keep r.user_buf p) (or_else r.user_buf_len n) false
]

after_get-finished :
    (zmq send_ok : Bool) (n : ℕ) (r : Returned) {b : List ℕ} {len : ℕ} {zmq_sent : Bool}
    → after_get zmq send_ok none n (done r) ≡ finished (some b) len zmq_sent
    → (or_keep r.user_buf none ≡ some b) × (or_else r.user_buf_len n ≡ len)
after_get-finished zmq send_ok n r {b} {len} {zmq_sent} e = by_value r.value zmq send_ok e
  where
    by_value :
        (v : ℤ) (zmq send_ok : Bool)
        → (elim v [
          | negsuc k ↦ exits
          | pos v ↦
              if zmq
              then (if send_ok
                  then finished (or_keep r.user_buf none) (or_else r.user_buf_len n) true
                  else exits)
              else finished (or_keep r.user_buf none) (or_else r.user_buf_len n) false
        ])
          ≡ finished (some b) len zmq_sent
        → (or_keep r.user_buf none ≡ some b) × (or_else r.user_buf_len n ≡ len)
    by_value (negsuc k) zmq send_ok e = absurd (ground arith)
    by_value (pos v) false send_ok e = ground arith
    by_value (pos v) true false e = absurd (ground arith)
    by_value (pos v) true true e = ground arith

or_keep-none : (o : Option (List ℕ)) {b : List ℕ} → or_keep o none ≡ some b → o ≡ some b
or_keep-none none e = e
or_keep-none (some a) e = e

unfoldable pub process :
    Bool → Bool → Malloc → Bool → Option (List ℕ) → ℕ → Bool → List Event → Run Processed
process zmq send_ok malloc last p n is_no_copy events =
    get_buffer malloc last (points_to p) (some n) is_no_copy events >>= λ r.
    ok (after_get zmq send_ok p n r)

-- `process` without `noCopy`, of a caller whose pointer is null, with an allocator that gives blocks
-- of the size asked for, smaller than 2 ^ 31 bytes, while the datagrams of one message arrive in any
-- order, with losses, repetitions and errors: if it ends with a buffer, the bytes of that buffer, as
-- many as it reports, are the message. With a socket these are the bytes that are sent.
pub process_delivers :
    (c : Settings) (xs : List (List ℕ)) (f : Fits c xs) (malloc : Malloc) (a : Allocates malloc)
    (zmq send_ok last : Bool) (n : ℕ) (events : List Event) {b : List ℕ} {len : ℕ} {zmq_sent : Bool}
    → AllGenuine c xs events
    → process zmq send_ok malloc last none n false events ≡ ok (finished (some b) len zmq_sent)
    → take len b ≡ flatten xs
unfolding process
process_delivers c xs f malloc a zmq send_ok last n events {b} {len} {zmq_sent} q e =
    by_result (get_buffer malloc last (points_to none) (some n) false events) refl e
  where
    by_result :
        (r : Run Result)
        → get_buffer malloc last (points_to none) (some n) false events ≡ r
        → (r >>= λ k. ok (after_get zmq send_ok none n k)) ≡ ok (finished (some b) len zmq_sent)
        → take len b ≡ flatten xs
    by_result (fault x) w e = absurd (ground arith)
    by_result (ok blocked) w e = absurd (ground arith)
    by_result (ok (done r)) w e =
        let p : after_get zmq send_ok none n (done r) ≡ finished (some b) len zmq_sent =
          ground arith in
        let (kept, size) = after_get-finished zmq send_ok n r p in
        let (_, (l, l_is, whole)) =
          get_buffer_complete c xs f malloc a false last none n events q w
            (or_keep-none r.user_buf kept) in
        let same : l ≡ len = sym (ap (λ o. or_else o n) l_is) ∙ size in
        ap (λ k. take k b) (sym same) ∙ whole

-- Let there be a zmq socket on which `zmq_send` succeeds, and a first block from `malloc`. If the first
-- call of `getPacketizedBuffer` ends with an error and leaves a map that can be freed, `process` sends
-- the null pointer of its caller, with the length that the caller had.
pub process_sends_null :
    (malloc : Malloc) (last : Bool) (n k : ℕ) (block : List ℕ) (events : List Event) {out : Shared}
    {rest : List Event} {m : Store}
    → malloc first_block ≡ some block
    → Loop.get_packetized_buffer false true first_block (fresh block last) events
      ≡ ok (returned (negsuc k) out rest)
    → Store.free_map out.stored ≡ ok m
    → process true true malloc last none n false events ≡ ok (finished none n true)
unfolding process
process_sends_null malloc last n k block events g e w =
    ap (λ q. q >>= λ r. ok (after_get true true none n r))
      (get_buffer_swallows false malloc last none n k block events g e w)
