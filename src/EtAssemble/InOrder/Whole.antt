-- ===== src/EtAssemble/InOrder/Whole.antt =====
-- `getBuffers` on packets in order, from the first one on.
use ersap_ejfat.Base.{
  ℕ, suc, ◌+◌, ◌^◌, ◌<◌, ◌≤◌, ◌≡◌, refl, sym, subst, ◌∙◌, true, false, inl, inr, some, List, [],
  ◌∷◌, ltb, length, get_elem?, flatten, pos, arith,
}
use ersap_ejfat.Base.Memory.{Run, ok, fault, use_after_free, ◌>>=◌}
use ersap_ejfat.Packetize.{Settings}
use ersap_ejfat.Assemble.{received}
use ersap_ejfat.Assemble.Message.{Fits, re_packet}
use ersap_ejfat.EtAssemble.Maps.{Entry, Tables, set_at_2}
use ersap_ejfat.EtAssemble.Inner.{Step, next, handed, returns, throws}
use ersap_ejfat.EtAssemble.Invariant.{Inv}
use ersap_ejfat.EtAssemble.Packets.{Empty, Arrives, arrived}
use ersap_ejfat.EtAssemble.{Event, step}
use ersap_ejfat.EtAssemble.Turns.{HandedOver, StepOk}
use ersap_ejfat.EtAssemble.Steps.{step-Ends}
use ersap_ejfat.EtAssemble.Safety.{
  Inv-no_tables, AllArrive, AllHanded, HandedPart, AllHanded-HandedPart, get_buffers-Ran,
}
use ersap_ejfat.EtAssemble.Erased.{undefined}
use ersap_ejfat.EtAssemble.{
  Ended, waits, returned, thrown, run, no_tables, to_set, with_ids, get_buffers,
}
use ersap_ejfat.EtAssemble.InOrder.{Advanced}
use ersap_ejfat.EtAssemble.InOrder.Places.{step-Advances}

-- The packets of every source come in their order, from chunk number `numbers tick id` on, those of
-- different sources and ticks in any order between them; every message fits in its buffer, and an
-- entry can always be had.
pub data InOrder (buf_size : ℕ) (xs : ℕ → ℕ → List (List ℕ)) (Src : ℕ → ℕ → Type 0)
    : (ℕ → ℕ → ℕ) → List Event → Type 0 where
  over : (numbers : ℕ → ℕ → ℕ) → InOrder buf_size xs Src numbers []
  in_turn :
      (numbers : ℕ → ℕ → ℕ) (c : Settings) (chunk after : List ℕ) (flags : ℕ) (new : Entry)
      (es : List Event)
      → Fits c (xs c.tick c.data_id)
      → Src c.tick c.data_id
      → get_elem? (xs c.tick c.data_id) (numbers c.tick c.data_id) ≡ some chunk
      → length chunk ≤ 9984
      → Empty buf_size (some new)
      → length (flatten (xs c.tick c.data_id)) ≤ buf_size
      → InOrder buf_size xs Src
          (set_at_2 numbers c.tick c.data_id (numbers c.tick c.data_id + 1))
          es
      → InOrder buf_size xs Src numbers (
          record {
            datagram =
                received
                  (re_packet c (length (xs c.tick c.data_id)) (numbers c.tick c.data_id) chunk)
                  after
                  flags;
            fresh = some new;
            has_buf = true;
          }
          ∷ es)

pub InOrder-AllArrive :
    (buf_size : ℕ) (xs : ℕ → ℕ → List (List ℕ)) (Src : ℕ → ℕ → Type 0) (numbers : ℕ → ℕ → ℕ)
    (es : List Event)
    → InOrder buf_size xs Src numbers es
    → AllArrive buf_size xs Src es
InOrder-AllArrive buf_size xs Src _ _ (over numbers) = tt
InOrder-AllArrive buf_size xs Src _ _
      (in_turn numbers c chunk after flags new es f src g small empty room later) =
    (
      arrived c (numbers c.tick c.data_id) chunk after flags (some new) true f src g small empty,
      InOrder-AllArrive buf_size xs Src _ es later,
    )

module _ (buf_size : ℕ) (xs : ℕ → ℕ → List (List ℕ)) (Src : ℕ → ℕ → Type 0)
    (large : buf_size < 2 ^ 63) (one : 9984 ≤ buf_size) (ids : List ℕ) where
  -- The invariant is kept by a step that goes well.
  pub still_Inv :
      (s : Tables) (e : Event) (r : Step)
      → Inv buf_size xs Src s
      → Arrives buf_size xs Src e
      → step undefined buf_size ids s e ≡ ok r
      → StepOk buf_size xs Src ids r
  still_Inv s e r v h ran =
      elim (step-Ends buf_size xs Src large one ids (Unit {0}) undefined (λ b. inl (tt, refl)) s e v
        h) [
          | inl (u, bad) ↦ let clash : fault use_after_free ≡ ok r = sym bad ∙ ran in absurd (cc)
          | inr (q, did, kept) ↦
              let both : ok q ≡ ok r = sym did ∙ ran in
              let same : q ≡ r = cc in subst (λ k. StepOk buf_size xs Src ids k) same kept
        ]

  abbrev pub Waits : Run (List (ℕ × Entry) × Ended) → Type 0
  Waits m = (log : List (ℕ × Entry)) × (m ≡ ok (log, waits))

  after_step-Waits :
      (numbers : ℕ → ℕ → ℕ) (es : List Event) (r : Step)
      → Advanced (λ s. Unit {0}) (λ m. Unit {0}) numbers r
      → StepOk buf_size xs Src ids r
      → ((t : Tables)
          → Inv buf_size xs Src t
          → t.held ≡ []
          → ((t' i : ℕ) → t.exp_sequence t' i ≡ numbers t' i)
          → Waits (run undefined buf_size ids t es))
      → Waits (elim r [
        | next t ↦ run undefined buf_size ids t es
        | handed tick entry t ↦
            run undefined buf_size ids t es >>= λ out. ok ((tick, entry) ∷ out.0, out.1)
        | returns value ↦ ok ([], returned value)
        | throws ↦ ok ([], thrown)
      ])
  after_step-Waits numbers es (next t) (nothing, (n, q)) kept later = later t kept nothing n
  after_step-Waits numbers es (handed tick entry t) (nothing, (n, d)) kept later =
      let (log, ran) = later t kept.0 nothing n in ((tick, entry) ∷ log, rw ran refl)
  after_step-Waits numbers es (returns value) bad kept later = absurd bad
  after_step-Waits numbers es throws bad kept later = absurd bad

  pub run-Waits :
      (numbers : ℕ → ℕ → ℕ) (es : List Event)
      → InOrder buf_size xs Src numbers es
      → (s : Tables) → Inv buf_size xs Src s
      → s.held ≡ []
      → ((t i : ℕ) → s.exp_sequence t i ≡ numbers t i)
      → Waits (run undefined buf_size ids s es)
  unfolding run
  run-Waits _ _ (over numbers) s v nothing n = ([], refl)
  run-Waits _ _ (in_turn numbers c chunk after flags new es f src g small empty room later) s v
        nothing n =
      let (r, ran, good) =
        step-Advances undefined buf_size xs Src large ids (λ s. Unit {0}) (λ m. Unit {0}) s numbers
          c chunk after flags new v nothing n f g small empty room
          (λ u p a b n e. ((λ q. tt), (λ q. tt))) in
      let kept =
        still_Inv s _ r v
          (arrived c (numbers c.tick c.data_id) chunk after flags (some new) true f src g small
            empty)
          ran in
      rw ran (after_step-Waits _ es r good kept (run-Waits _ es later))

-- What is put back into ET, with the map of last bits of every entry.
pub get_buffers_in_order :
    (buf_size : ℕ) (xs : ℕ → ℕ → List (List ℕ)) (Src : ℕ → ℕ → Type 0) (count : ℕ) (ids : List ℕ)
    (events : List Event)
    → buf_size < 2 ^ 63
    → 9984 ≤ buf_size
    → InOrder buf_size xs Src (λ tick id. 0) events
    → (log : List (ℕ × Entry)) × (get_buffers undefined buf_size (pos (suc count)) (some ids) events
        ≡ ok (log, waits))
      × AllHanded (λ tick entry. HandedOver buf_size xs Src (to_set ids) tick entry) log
unfolding get_buffers with_ids
get_buffers_in_order buf_size xs Src count ids events large one h =
    let (log, ran) =
      run-Waits buf_size xs Src large one (to_set ids) (λ tick id. 0) events h no_tables
        (Inv-no_tables buf_size xs Src (Unit {0}) undefined (λ b. inl (tt, refl))) refl
        (λ t i. refl) in
    let some_id : ltb (suc count) 1 ≡ false = ground arith in
    let whole : get_buffers undefined buf_size (pos (suc count)) (some ids) events
        ≡ ok (log, waits) =
      rw some_id ran in
    elim (get_buffers-Ran buf_size xs Src (Unit {0}) undefined (λ b. inl (tt, refl)) large one
      (pos (suc count)) (some ids) events (InOrder-AllArrive buf_size xs Src _ events h)) [
        | inl (u, bad) ↦
            let clash : ◌≡◌ {A = Run (List (ℕ × Entry) × Ended)} (fault use_after_free)
                (ok (log, waits)) =
              sym bad ∙ whole in
            absurd (cc)
        | inr (out, did, all) ↦
            let both : ok out ≡ ok (log, waits) = sym did ∙ whole in
            let same : out ≡ (log, waits) = cc in
            (
              log,
              whole,
              subst
                  (λ (o : List (ℕ × Entry) × Ended).
                    AllHanded (λ tick entry. HandedOver buf_size xs Src (to_set ids) tick entry)
                      o.0)
                  same all,
            )
      ]

-- Let every buffer have room for one packet, and every message fit in its buffer; let the packets of
-- every source come in their order from number 0 on, those of different sources and ticks in any order
-- between them, and let ET always give an entry and a buffer. Then `getBuffers`, asked for at least one
-- id, never reads freed memory, never throws and never returns: it has taken every packet and waits for
-- the next one. In every entry that it has put back into ET each buffer holds the first chunks of its
-- message, and that of at least one source of the tick the whole message.
pub get_buffers-InOrder :
    (buf_size : ℕ) (xs : ℕ → ℕ → List (List ℕ)) (Src : ℕ → ℕ → Type 0) (count : ℕ) (ids : List ℕ)
    (events : List Event)
    → buf_size < 2 ^ 63
    → 9984 ≤ buf_size
    → InOrder buf_size xs Src (λ tick id. 0) events
    → (log : List (ℕ × Entry)) × (get_buffers undefined buf_size (pos (suc count)) (some ids) events
        ≡ ok (log, waits))
      × AllHanded (λ tick entry. HandedPart buf_size xs Src tick entry) log
get_buffers-InOrder buf_size xs Src count ids events large one h =
    let (log, ran, all) = get_buffers_in_order buf_size xs Src count ids events large one h in
    (log, ran, AllHanded-HandedPart buf_size xs Src (to_set ids) log all)
