-- ===== src/EtAssemble/InOrder/Delivers.antt =====
-- `getBuffers` hands an event over once the last packet of its last source is in.
use ersap_ejfat.Base.{
  ℕ, suc, ◌^◌, ◌<◌, ◌≤◌, ◌≡◌, refl, sym, subst, ◌∙◌, Bool, true, false, Bool-cases, inl, inr, none,
  some, List, [], ◌∷◌, ◌==◌, ==_iff, ltb, length, get_elem?-lt, pos, arith,
}
use ersap_ejfat.Base.Memory.{Run, ok, ◌>>=◌}
use ersap_ejfat.LastBits.{contains}
use ersap_ejfat.EtAssemble.Maps.{Entry, Tables}
use ersap_ejfat.EtAssemble.Inner.{Step, next, handed, returns, throws}
use ersap_ejfat.EtAssemble.Invariant.{Inv}
use ersap_ejfat.EtAssemble.Packets.{arrived}
use ersap_ejfat.EtAssemble.Keys.{OneTick}
use ersap_ejfat.EtAssemble.Turns.{StepOk}
use ersap_ejfat.EtAssemble.Safety.{Inv-no_tables, AllHanded, Whole, AllHanded-Whole}
use ersap_ejfat.EtAssemble.Erased.{undefined}
use ersap_ejfat.EtAssemble.Finishes.{Once}
use ersap_ejfat.EtAssemble.{
  Event, Ended, waits, returned, thrown, run, no_tables, to_set, with_ids, get_buffers,
}
use ersap_ejfat.EtAssemble.InOrder.{Advanced}
use ersap_ejfat.EtAssemble.InOrder.Places.{step-Advances}
use ersap_ejfat.EtAssemble.InOrder.Pending.{Complete, Pending, Pending-Reports}
use ersap_ejfat.EtAssemble.InOrder.Whole.{InOrder, over, in_turn, still_Inv, get_buffers_in_order}

-- The chunk numbers behind the last packet.
abbrev pub numbers_sent :
    (buf_size : ℕ) (xs : ℕ → ℕ → List (List ℕ)) (Src : ℕ → ℕ → Type 0) (numbers : ℕ → ℕ → ℕ)
    (es : List Event)
    → InOrder buf_size xs Src numbers es
    → ℕ
    → ℕ
    → ℕ
numbers_sent buf_size xs Src _ _ (over numbers) = numbers
numbers_sent buf_size xs Src _ _
      (in_turn numbers c chunk after flags new es f src g small empty room later) =
    numbers_sent buf_size xs Src _ es later

to_set-contains : (x : ℕ) (xs : List ℕ) → contains x (to_set xs) ≡ contains x xs
to_set-contains x [] = refl
to_set-contains x (y ∷ xs) =
    let rest = to_set-contains x xs in
    elim (Bool-cases (contains y (to_set xs))) [
      | inr new ↦ rw (new, rest) refl
      | inl old ↦ elim (Bool-cases (x == y)) [
        | inr other ↦ rw (old, other) rest
        | inl same ↦
            let is_y : x ≡ y = (==_iff x y).0 same in
            rw (old, same) (subst (λ z. contains z (to_set xs) ≡ true) (sym is_y) old)
      ]
    ]

to_set-Once : (xs : List ℕ) → Once (to_set xs)
to_set-Once [] = tt
to_set-Once (x ∷ xs) = elim (Bool-cases (contains x (to_set xs))) [
  | inl old ↦ rw old (to_set-Once xs)
  | inr new ↦ rw new (new, to_set-Once xs)
]

module _ (buf_size : ℕ) (xs : ℕ → ℕ → List (List ℕ)) (tick : ℕ) (large : buf_size < 2 ^ 63)
    (one : 9984 ≤ buf_size) (ids : List ℕ) (once : Once ids)
    (no_zero : contains 0 ids ≡ false) where
  abbrev Delivers : Run (List (ℕ × Entry) × Ended) → Type 0
  Delivers m = (entry : ℕ × Entry) × (m ≡ ok (entry ∷ [], waits))

  -- When all chunks are in, no packet is left that could come.
  run_no_more :
      (numbers : ℕ → ℕ → ℕ) (es : List Event)
      → InOrder buf_size xs (OneTick tick ids) numbers es
      → Complete tick ids xs numbers
      → (t : Tables) → run undefined buf_size ids t es ≡ ok ([], waits)
  unfolding run
  run_no_more _ _ (over numbers) all t = refl
  run_no_more _ _ (in_turn numbers c chunk after flags new es f src g small empty room later) all
        t =
      let full : numbers c.tick c.data_id ≡ length (xs c.tick c.data_id) =
        subst (λ u. numbers u c.data_id ≡ length (xs u c.data_id)) (sym src.0)
          (all c.data_id src.1) in
      absurd (omega (arith, full, get_elem?-lt (xs c.tick c.data_id) (numbers c.tick c.data_id) g))

  after_step-Delivers :
      (numbers : ℕ → ℕ → ℕ) (es : List Event) (r : Step)
      → Advanced (Pending tick ids xs) (Complete tick ids xs) numbers r
      → StepOk buf_size xs (OneTick tick ids) ids r
      → InOrder buf_size xs (OneTick tick ids) numbers es
      → ((t : Tables)
          → Inv buf_size xs (OneTick tick ids) t
          → Pending tick ids xs t
          → t.held ≡ []
          → ((t' i : ℕ) → t.exp_sequence t' i ≡ numbers t' i)
          → Delivers (run undefined buf_size ids t es))
      → Delivers (elim r [
        | next t ↦ run undefined buf_size ids t es
        | handed tick entry t ↦
            run undefined buf_size ids t es >>= λ out. ok ((tick, entry) ∷ out.0, out.1)
        | returns value ↦ ok ([], returned value)
        | throws ↦ ok ([], thrown)
      ])
  after_step-Delivers numbers es (next t) (nothing, (n, q)) kept rest later =
      later t kept q nothing n
  after_step-Delivers numbers es (handed tick entry t) (nothing, (n, all)) kept rest later =
      let ran = run_no_more numbers es rest all t in ((tick, entry), rw ran refl)
  after_step-Delivers numbers es (returns value) bad kept rest later = absurd bad
  after_step-Delivers numbers es throws bad kept rest later = absurd bad

  run-Delivers :
      (numbers : ℕ → ℕ → ℕ) (es : List Event)
      (h : InOrder buf_size xs (OneTick tick ids) numbers es) (s : Tables)
      → Inv buf_size xs (OneTick tick ids) s
      → Pending tick ids xs s
      → s.held ≡ []
      → ((t i : ℕ) → s.exp_sequence t i ≡ numbers t i)
      → Complete tick ids xs (numbers_sent buf_size xs (OneTick tick ids) numbers es h)
      → Delivers (run undefined buf_size ids s es)
  unfolding run
  run-Delivers _ _ (over numbers) s v q nothing n all =
      absurd (q.1.1 (λ id c. n tick id ∙ all id c))
  run-Delivers _ _ (in_turn numbers c chunk after flags new es f src g small empty room later) s v q
        nothing n all =
      let (r, ran, good) =
        step-Advances undefined buf_size xs (OneTick tick ids) large ids (Pending tick ids xs)
          (Complete tick ids xs) s numbers c chunk after flags new v nothing n f g small empty room
          (Pending-Reports tick ids xs once no_zero numbers s c.tick c.data_id n v.keys v.ends q
            src) in
      let kept =
        still_Inv buf_size xs (OneTick tick ids) large one ids s _ r v
          (arrived c (numbers c.tick c.data_id) chunk after flags (some new) true f src g small
            empty)
          ran in
      rw ran (
        after_step-Delivers _ es r good kept later
          (λ t w p e m. run-Delivers _ es later t w p e m all))

-- Let every buffer have room for one packet, let the fifo have an id and no id 0, and let every id of
-- it have a message of at least one chunk that fits in its buffer. Let all packets be of one tick and of
-- those ids, those of every source in their order from number 0 to its last, those of different sources
-- in any order between them, and let ET always give an entry and a buffer. Then `getBuffers`, asked for
-- at least one id, hands the event over: it never reads freed memory, throws or returns, and it puts
-- exactly one entry back into ET, which has that tick and in the buffer of every id its whole message.
pub get_buffers-Delivers :
    (buf_size : ℕ) (xs : ℕ → ℕ → List (List ℕ)) (tick count some_id : ℕ) (ids : List ℕ)
    (events : List Event)
    → buf_size < 2 ^ 63
    → 9984 ≤ buf_size
    → contains 0 ids ≡ false
    → contains some_id ids ≡ true
    → ((id : ℕ) → contains id ids ≡ true → 1 ≤ length (xs tick id))
    → (h : InOrder buf_size xs (OneTick tick (to_set ids)) (λ t id. 0) events)
    → Complete tick
        (to_set ids)
        xs
        (numbers_sent buf_size xs (OneTick tick (to_set ids)) (λ t id. 0) events h)
    → (entry : ℕ × Entry) × (get_buffers undefined buf_size (pos (suc count)) (some ids) events
        ≡ ok (entry ∷ [], waits))
      × Whole xs tick (to_set ids) entry.0 entry.1
unfolding get_buffers with_ids
get_buffers-Delivers buf_size xs tick count some_id ids events large one no_zero member chunks h
      all =
    let (entry, ran) =
      run-Delivers buf_size xs tick large one (to_set ids) (to_set-Once ids)
        (to_set-contains 0 ids ∙ no_zero) (λ t id. 0) events h no_tables
        (Inv-no_tables buf_size xs (OneTick tick (to_set ids)) (Unit {0}) undefined
          (λ b. inl (tt, refl)))
        (
          tt,
          (
            none_sent,
            λ done.
                empty some_id (to_set-contains some_id ids ∙ member)
                  (done some_id (to_set-contains some_id ids ∙ member)),
          ),
        )
        refl (λ t i. refl) all in
    let positive : ltb (suc count) 1 ≡ false = ground arith in
    let whole : get_buffers undefined buf_size (pos (suc count)) (some ids) events
        ≡ ok (entry ∷ [], waits) =
      rw positive ran in
    let (log', ran', put_back) =
      get_buffers_in_order buf_size xs (OneTick tick (to_set ids)) count ids events large one h in
    let both : ◌≡◌ {A = Run (List (ℕ × Entry) × Ended)} (ok (log', waits))
        (ok (entry ∷ [], waits)) =
      sym ran' ∙ whole in
    let same : log' ≡ entry ∷ [] = cc in
    (
      entry,
      whole,
      (subst (AllHanded (Whole xs tick (to_set ids))) same
          (AllHanded-Whole buf_size xs tick (to_set ids) log' put_back)).0,
    )
  where
    empty : (id : ℕ) → contains id (to_set ids) ≡ true → 0 ≡ length (xs tick id) → ⊥
    empty id c e = omega (arith, chunks id (sym (to_set-contains id ids) ∙ c), e)

    none_sent :
        (id : ℕ)
        → contains id (to_set ids) ≡ true
        → 0 ≡ length (xs tick id)
        → (b : Bool) × (none ≡ some b)
    none_sent id c e = absurd (empty id c e)
