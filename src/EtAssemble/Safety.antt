-- ===== src/EtAssemble/Safety.antt =====
-- `getBuffers` on any packets of the messages: memory safety, what is put back into ET, and whole events.
use ersap_ejfat.Base.{
  ℕ, ◌^◌, ◌<◌, ◌≤◌, ◌≡◌, ◌⊎◌, refl, ap, ◌∙◌, true, Option, none, some, List, [], ◌∷◌, ltb, take,
  flatten, ℤ, pos, negsuc, Bool-cases, inl, inr, arith,
}
use ersap_ejfat.Base.Memory.{Run, ok, fault, use_after_free, ◌>>=◌}
use ersap_ejfat.LastBits.{find, contains}
use ersap_ejfat.EtAssemble.Maps.{Entry, Tables}
use ersap_ejfat.EtAssemble.Keys.{OneTick, find_all}
use ersap_ejfat.EtAssemble.Invariant.{Content, Inv}
use ersap_ejfat.EtAssemble.Turns.{HandedOver, StepOk}
use ersap_ejfat.EtAssemble.Drains.{ReadAs}
use ersap_ejfat.EtAssemble.Packets.{Arrives}
use ersap_ejfat.EtAssemble.Steps.{step-Ends}
use ersap_ejfat.EtAssemble.Inner.{Freed, throws, Step, next, handed, returns}
use ersap_ejfat.EtAssemble.{
  Event, Ended, returned, thrown, run, no_tables, to_set, with_ids, get_buffers,
}

abbrev pub AllArrive : ℕ → (ℕ → ℕ → List (List ℕ)) → (ℕ → ℕ → Type 0) → List Event → Type 0
AllArrive buf_size xs Src [] = Unit {0}
AllArrive buf_size xs Src (e ∷ es) = Arrives buf_size xs Src e × AllArrive buf_size xs Src es

abbrev pub AllHanded {ℓ} : (ℕ → Entry → Type ℓ) → List (ℕ × Entry) → Type ℓ
AllHanded P [] = Unit
AllHanded P ((tick, entry) ∷ log) = P tick entry × AllHanded P log

-- The ids as the code has them: none if it could not get them.
abbrev pub id_set : Option (List ℕ) → List ℕ
id_set none = []
id_set (some ids) = to_set ids

module _ (buf_size : ℕ) (xs : ℕ → ℕ → List (List ℕ)) (Src : ℕ → ℕ → Type 0) (U : Type 0)
    (freed : Freed) (honest : (bytes : List ℕ) → ReadAs U (freed bytes) bytes) where
  abbrev pub Ran : List ℕ → Run (List (ℕ × Entry) × Ended) → Type 0
  Ran ids m =
      (U × (m ≡ fault use_after_free))
      ⊎ ((out : List (ℕ × Entry) × Ended) × (m ≡ ok out)
          × AllHanded (λ tick entry. HandedOver buf_size xs Src ids tick entry) out.0)

  pub Inv-no_tables : Inv buf_size xs Src no_tables
  Inv-no_tables = record {
    content = λ t e q i. absurd (cc);
    unused = λ t q i. refl;
    held_are = tt;
    ends = λ t i b q. absurd (ground (arith, q));
    keys = tt;
  }

  module _ (large : buf_size < 2 ^ 63) (room_for_one : 9984 ≤ buf_size) where
    after_step-Ran :
        (ids : List ℕ) (es : List Event) (r : Step)
        → StepOk buf_size xs Src ids r
        → ((t : Tables) → Inv buf_size xs Src t → Ran ids (run freed buf_size ids t es))
        → Ran ids (elim r [
          | next t ↦ run freed buf_size ids t es
          | handed tick entry t ↦
              run freed buf_size ids t es >>= λ out. ok ((tick, entry) ∷ out.0, out.1)
          | returns value ↦ ok ([], returned value)
          | throws ↦ ok ([], thrown)
        ])
    after_step-Ran ids es (next t) kept later = later t kept
    after_step-Ran ids es (handed tick entry t) kept later = elim (later t kept.0) [
      | inl (u, e) ↦ inl (u, rw e refl)
      | inr (out, ran, all) ↦ inr (((tick, entry) ∷ out.0, out.1), rw ran refl, (kept.1, all))
    ]
    after_step-Ran ids es (returns value) kept later = inr (([], returned value), refl, tt)
    after_step-Ran ids es throws kept later = inr (([], thrown), refl, tt)

    run-Ran :
        (ids : List ℕ) (s : Tables) (es : List Event)
        → Inv buf_size xs Src s
        → AllArrive buf_size xs Src es
        → Ran ids (run freed buf_size ids s es)
    unfolding run
    run-Ran ids s [] v h = inr (([], Ended.waits), refl, tt)
    run-Ran ids s (e ∷ es) v h =
        elim (step-Ends buf_size xs Src large room_for_one ids U freed honest s e v h.0) [
          | inl (u, bad) ↦ inl (u, rw bad refl)
          | inr (r, ran, kept) ↦
              rw ran (after_step-Ran ids es r kept (λ t v'. run-Ran ids t es v' h.1))
        ]

    pub get_buffers-Ran :
        (count : ℤ) (ids : Option (List ℕ)) (events : List Event)
        → AllArrive buf_size xs Src events
        → Ran (id_set ids) (get_buffers freed buf_size count ids events)
    unfolding get_buffers with_ids
    get_buffers-Ran (negsuc k) ids events h = inr (([], returned (negsuc 0)), refl, tt)
    get_buffers-Ran (pos n) none events h = inr (([], returned (negsuc 0)), ground arith, tt)
    get_buffers-Ran (pos n) (some ids) events h = elim (Bool-cases (ltb n 1)) [
      | inl few ↦ rw few (inr (([], returned (negsuc 0)), refl, tt))
      | inr enough ↦ rw enough (run-Ran (to_set ids) no_tables events Inv-no_tables h)
    ]

-- A read of a freed block is undefined behaviour or gives what the block held.
abbrev pub Reads : Freed → Type 0
Reads freed = (bytes : List ℕ) → (freed bytes ≡ fault use_after_free) ⊎ (freed bytes ≡ ok bytes)

Reads-ReadAs :
    (freed : Freed) → Reads freed → (bytes : List ℕ) → ReadAs (Unit {0}) (freed bytes) bytes
Reads-ReadAs freed reads bytes = elim (reads bytes) [ inl e ↦ inl (tt, e) | inr e ↦ inr e ]

AllHanded-map :
    {P Q : ℕ → Entry → Type 0}
    → ((tick : ℕ) (entry : Entry) → P tick entry → Q tick entry)
    → (log : List (ℕ × Entry)) → AllHanded P log
    → AllHanded Q log
AllHanded-map f [] h = tt
AllHanded-map f ((tick, entry) ∷ log) h = (f tick entry h.0, AllHanded-map f log h.1)

-- Every buffer of the entry holds the first chunks of its message, and that of at least one source of
-- the tick the whole message.
abbrev pub HandedPart : ℕ → (ℕ → ℕ → List (List ℕ)) → (ℕ → ℕ → Type 0) → ℕ → Entry → Type 0
HandedPart buf_size xs Src tick entry =
    ((i : ℕ) → (k : ℕ) × Content buf_size xs Src tick i k (entry i))
    × ((i : ℕ) × Src tick i × (take (entry i).written (entry i).block ≡ flatten (xs tick i)))

HandedOver-HandedPart :
    (buf_size : ℕ) (xs : ℕ → ℕ → List (List ℕ)) (Src : ℕ → ℕ → Type 0) (ids : List ℕ) (tick : ℕ)
    (entry : Entry)
    → HandedOver buf_size xs Src ids tick entry
    → HandedPart buf_size xs Src tick entry
HandedOver-HandedPart buf_size xs Src ids tick entry (m, all) =
    let (i, src, found) = all.source in (all.prefix, (i, src, all.whole i true found))

pub AllHanded-HandedPart :
    (buf_size : ℕ) (xs : ℕ → ℕ → List (List ℕ)) (Src : ℕ → ℕ → Type 0) (ids : List ℕ)
    (log : List (ℕ × Entry))
    → AllHanded (λ tick entry. HandedOver buf_size xs Src ids tick entry) log
    → AllHanded (λ tick entry. HandedPart buf_size xs Src tick entry) log
AllHanded-HandedPart buf_size xs Src ids log h =
    AllHanded-map (HandedOver-HandedPart buf_size xs Src ids) log h

-- Let every buffer have room for one packet, and let a read of a freed block be undefined behaviour or
-- give what the block held. Whatever packets of the messages `xs` come, in any order, lost or repeated,
-- `getBuffers` never reads or writes outside a block: it reads a freed block, or it returns, throws or
-- waits for a packet, and in every entry that it has put back into ET each buffer holds the first chunks
-- of its message, and that of at least one source of the tick the whole message.
pub get_buffers-AllHanded :
    (freed : Freed) (buf_size : ℕ) (xs : ℕ → ℕ → List (List ℕ)) (Src : ℕ → ℕ → Type 0) (count : ℤ)
    (ids : Option (List ℕ)) (events : List Event)
    → Reads freed
    → buf_size < 2 ^ 63
    → 9984 ≤ buf_size
    → AllArrive buf_size xs Src events
    → (get_buffers freed buf_size count ids events ≡ fault use_after_free)
      ⊎ ((out : List (ℕ × Entry) × Ended) × (get_buffers freed buf_size count ids events ≡ ok out)
          × AllHanded (λ tick entry. HandedPart buf_size xs Src tick entry) out.0)
get_buffers-AllHanded freed buf_size xs Src count ids events reads large one h =
    elim (get_buffers-Ran buf_size xs Src (Unit {0}) freed (Reads-ReadAs freed reads) large one
      count ids events h) [
        | inl (u, e) ↦ inl e
        | inr (out, ran, all) ↦
            inr (out, ran, AllHanded-HandedPart buf_size xs Src (id_set ids) out.0 all)
      ]

-- A whole event: the message of every id.
abbrev pub Whole : (ℕ → ℕ → List (List ℕ)) → ℕ → List ℕ → ℕ → Entry → Type 0
Whole xs tick ids t entry =
    (t ≡ tick)
    × ((id : ℕ)
        → contains id ids ≡ true
        → take (entry id).written (entry id).block ≡ flatten (xs tick id))

HandedOver-Whole :
    (buf_size : ℕ) (xs : ℕ → ℕ → List (List ℕ)) (tick : ℕ) (ids : List ℕ) (t : ℕ) (entry : Entry)
    → HandedOver buf_size xs (OneTick tick ids) ids t entry
    → Whole xs tick ids t entry
HandedOver-Whole buf_size xs tick ids t entry (m, all) =
    let (i, src, own) = all.source in
    let same : t ≡ tick = src.0 in
    (
      same,
      λ id c.
          let (last, found) = find_all tick ids m all.keys all.counted id c in
          all.whole id last (ap (λ u. find u id m) same ∙ found) ∙ ap (λ u. flatten (xs u id)) same,
    )

pub AllHanded-Whole :
    (buf_size : ℕ) (xs : ℕ → ℕ → List (List ℕ)) (tick : ℕ) (ids : List ℕ) (log : List (ℕ × Entry))
    → AllHanded (λ t entry. HandedOver buf_size xs (OneTick tick ids) ids t entry) log
    → AllHanded (Whole xs tick ids) log
AllHanded-Whole buf_size xs tick ids log h =
    AllHanded-map (HandedOver-Whole buf_size xs tick ids) log h

-- Let every buffer have room for one packet, let all packets be of one tick and of the ids of the fifo,
-- and let a read of a freed block be undefined behaviour or give what the block held. Whatever packets
-- come, in any order, lost or repeated, `getBuffers` reads a freed block, or it returns, throws or waits
-- for a packet, and every entry that it has put back into ET is the whole event: the tick is that one,
-- and the buffer of every id holds its whole message.
pub get_buffers-Whole :
    (freed : Freed) (buf_size : ℕ) (xs : ℕ → ℕ → List (List ℕ)) (tick : ℕ) (count : ℤ)
    (ids : List ℕ) (events : List Event)
    → Reads freed
    → buf_size < 2 ^ 63
    → 9984 ≤ buf_size
    → AllArrive buf_size xs (OneTick tick (to_set ids)) events
    → (get_buffers freed buf_size count (some ids) events ≡ fault use_after_free)
      ⊎ ((out : List (ℕ × Entry) × Ended) × (get_buffers freed buf_size count (some ids) events
            ≡ ok out)
          × AllHanded (Whole xs tick (to_set ids)) out.0)
get_buffers-Whole freed buf_size xs tick count ids events reads large one h =
    elim (get_buffers-Ran buf_size xs (OneTick tick (to_set ids)) (Unit {0}) freed
      (Reads-ReadAs freed reads) large one count (some ids) events h) [
        | inl (u, e) ↦ inl e
        | inr (out, ran, all) ↦
            inr (out, ran, AllHanded-Whole buf_size xs tick (to_set ids) out.0 all)
      ]
