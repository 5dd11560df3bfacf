-- ===== src/Assemble/GetBuffer/Fuel.antt =====
-- The fuel of `copy_loop` is enough: it ends because a call took the last event, never before.
use ersap_ejfat.Base.{
  ℕ, zero, suc, ◌<◌, ◌≡◌, refl, ap, Bool, true, false, Option, none, some, List, [], ◌∷◌, length, ℤ,
  pos, negsuc, arith,
}
use ersap_ejfat.Base.Memory.{Fault, Run, ok, fault, ◌>>=◌}
use ersap_ejfat.Assemble.{code, out_of_mem, Event}
use ersap_ejfat.Assemble.Store.{Store}
use ersap_ejfat.Assemble.Loop.{
  Shared, Locals, Round, continue, finish, error, round, loop, start, Outcome, returned, waiting,
  shared_after, shared_after_error, get_packetized_buffer,
}
use ersap_ejfat.Assemble.GetBuffer.{
  Malloc, Returned, Result, Growing, rest_of, grow, after_call, free_then, Turn, next, leave, only,
  after_data, after_outcome, copy_loop,
}

loop-rest_shorter :
    (u v : Bool) (io : Shared) (s : Locals) (es : List Event) {value : ℤ} {out : Shared}
    {rest : List Event}
    → loop u v io s es ≡ ok (returned value out rest)
    → length rest < length es
unfolding loop
loop-rest_shorter u v io s [] h = absurd (ground arith)
loop-rest_shorter u v io s (e ∷ es) {value} {out} {rest} h =
    by_round (round u v s e) h (λ t. loop-rest_shorter u v io t es)
  where
    by_round :
        (q : Run Round)
        → (q >>= λ r. elim r [
          | continue t ↦ loop u v io t es
          | finish t ↦ ok (returned (pos t.total_bytes_read) (shared_after t) es)
          | error x t ↦ ok (returned x (shared_after_error io t) es)
        ])
          ≡ ok (returned value out rest)
        → ((t : Locals) → loop u v io t es ≡ ok (returned value out rest) → length rest < length es)
        → length rest < suc (length es)
    by_round (fault x) h later = absurd (ground arith)
    by_round (ok (continue t)) h later = omega (arith, later t h)
    by_round (ok (finish t)) h later =
        let same : es ≡ rest = ground arith in omega (arith, ap (λ (k : List Event). length k) same)
    by_round (ok (error x t)) h later =
        let same : es ≡ rest = ground arith in omega (arith, ap (λ (k : List Event). length k) same)

freed_not_next :
    (m : Store) (r : Returned) {h : Growing} {es : List Event}
    → ¬ ((free_then m r >>= λ q. ok (leave q)) ≡ ok (next h es))
freed_not_next m r e = by_free (free_then m r) e
  where
    by_free :
        {h : Growing} {es : List Event} (q : Run Result)
        → ¬ ((q >>= λ k. ok (leave k)) ≡ ok (next h es))
    by_free (fault x) e = absurd (ground arith)
    by_free (ok k) e = absurd (ground arith)

-- The events a turn leaves are those its call left.
after_data-next :
    (malloc : Malloc) (last : Bool) (g : Growing) (rest : List Event) {h : Growing}
    {es : List Event}
    → after_data malloc last g rest ≡ ok (next h es)
    → rest ≡ es
unfolding after_data
after_data-next malloc true g rest {h} {es} e = absurd (freed_not_next _ _ e)
after_data-next malloc false g rest {h} {es} e = by_block (grow malloc g) e
  where
    by_block :
        (o : Option Growing)
        → (elim o [
          | none ↦ free_then g.shared.stored (only (code out_of_mem)) >>= λ r. ok (leave r)
          | some h ↦ ok (next h rest)
        ])
          ≡ ok (next h es)
        → rest ≡ es
    by_block none e = absurd (freed_not_next _ _ e)
    by_block (some h') e = ground arith

after_outcome-next :
    (u : Bool) (malloc : Malloc) (g : Growing) (es : List Event) (o : Outcome) {h : Growing}
    {rest : List Event}
    → get_packetized_buffer u g.first_read g.remaining_bytes (rest_of g) es ≡ ok o
    → after_outcome malloc g o ≡ ok (next h rest)
    → length rest < length es
unfolding after_outcome get_packetized_buffer
after_outcome-next u malloc g es (waiting s) w e = absurd (ground arith)
after_outcome-next u malloc g es (returned (negsuc k) out rest) w e =
    absurd (freed_not_next out.stored (only (pos g.total_bytes)) e)
after_outcome-next u malloc g es (returned (pos n) out rest') w e =
    let same = after_data-next malloc out.last (after_call g n out) rest' e in
    let less =
      loop-rest_shorter u g.first_read (rest_of g) (start g.remaining_bytes (rest_of g)) es w in
    omega (arith, less, ap (λ (k : List Event). length k) same)

module _ (u : Bool) (malloc : Malloc) where
  -- One turn of the loop: a call and what follows it.
  abbrev pub turn : Growing → List Event → Run Turn
  turn g events =
      get_packetized_buffer u g.first_read g.remaining_bytes (rest_of g) events
      >>= after_outcome malloc g

  -- The loop of `getBuffer` as a relation: turn after turn, up to one that leaves it.
  pub data LoopEnds : Growing → List Event → Run Result → Type 0 where
    leaves :
        (g : Growing) (events : List Event) (r : Result)
        → turn g events ≡ ok (leave r)
        → LoopEnds g events (ok r)
    fails :
        (g : Growing) (events : List Event) (x : Fault)
        → turn g events ≡ fault x
        → LoopEnds g events (fault x)
    goes_on :
        (g h : Growing) (events rest : List Event) (q : Run Result)
        → turn g events ≡ ok (next h rest)
        → LoopEnds h rest q
        → LoopEnds g events q

turn-shorter :
    (u : Bool) (malloc : Malloc) (g h : Growing) (es rest : List Event)
    → turn u malloc g es ≡ ok (next h rest)
    → length rest < length es
turn-shorter u malloc g h es rest e =
    by_call (get_packetized_buffer u g.first_read g.remaining_bytes (rest_of g) es) refl e
  where
    by_call :
        (q : Run Outcome)
        → get_packetized_buffer u g.first_read g.remaining_bytes (rest_of g) es ≡ q
        → (q >>= after_outcome malloc g) ≡ ok (next h rest)
        → length rest < length es
    by_call (fault x) w v = absurd (ground arith)
    by_call (ok o) w v = after_outcome-next u malloc g es o w v

-- On any finite list of answers of the system the loop of `getBuffer` ends, after a turn that returns,
-- fails or waits for a further answer, and `copy_loop` with more fuel than answers gives the result of
-- that turn.
pub copy_loop-LoopEnds :
    (u : Bool) (malloc : Malloc) (fuel : ℕ) (g : Growing) (events : List Event)
    → length events < fuel
    → LoopEnds u malloc g events (copy_loop u malloc fuel g events)
unfolding copy_loop
copy_loop-LoopEnds u malloc zero g es h = absurd (omega arith)
copy_loop-LoopEnds u malloc (suc fuel) g es h =
    by_turn (turn u malloc g es) refl
      (λ g' rest less. copy_loop-LoopEnds u malloc fuel g' rest (omega (arith, less, h)))
  where
    by_turn :
        (q : Run Turn)
        → turn u malloc g es ≡ q
        → ((g' : Growing) (rest : List Event)
            → length rest < length es
            → LoopEnds u malloc g' rest (copy_loop u malloc fuel g' rest))
        → LoopEnds u malloc g es
            (q >>= λ t. elim t [ next h rest ↦ copy_loop u malloc fuel h rest | leave r ↦ ok r ])
    by_turn (fault x) w later = fails g es x w
    by_turn (ok (leave r)) w later = leaves g es r w
    by_turn (ok (next g' rest)) w later =
        goes_on g g' es rest _ w (later g' rest (turn-shorter u malloc g g' es rest w))
