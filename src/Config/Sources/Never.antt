-- ===== src/Config/Sources/Never.antt =====
-- `process` of the ET engine never returns to its caller.
use ersap_ejfat.Base.{
  ℕ, zero, suc, ◌≡◌, ◌≢◌, subst, Bool, true, false, not, ◌==◌, ltb, leb, Option, none, some, List,
  [], ◌∷◌, ◌++◌, length, if◌then◌else◌, ℤ, pos, negsuc,
}
use ersap_ejfat.Base.Memory.{Run, ok, fault, ◌>>=◌, slice}
use ersap_ejfat.Wire.{ReHeader, parse_re_header, header_bytes}
use ersap_ejfat.Assemble.{Received, recv_failed, received}
use ersap_ejfat.EtAssemble.Maps.{Entry, Held, Tables, take_held}
use ersap_ejfat.EtAssemble.Inner.{
  Freed, Place, Step, next, handed, returns, throws, no_room, write_data, report, after_write,
  drain,
}
use ersap_ejfat.EtAssemble.{
  Event, vector_limit, max_held, store_early, by_order, check_first, first_of_tick, place,
  data_size, step, Ended, waits, thrown, returned, run, no_tables, to_set, with_ids, get_buffers,
}
use ersap_ejfat.Config.Sources.{finished, process}

-- The step does not return a value of 0 or more.
abbrev Goes : Run Step → Type 0
Goes (fault e) = Unit {0}
Goes (ok (returns (pos n))) = ⊥
Goes (ok (returns (negsuc k))) = Unit
Goes (ok (next s)) = Unit
Goes (ok (handed tick entry s)) = Unit
Goes (ok throws) = Unit

bind-Goes {ℓ} :
    {A : Type ℓ} (m : Run A) (rest : A → Run Step) → ((a : A) → Goes (rest a)) → Goes (m >>= rest)
bind-Goes (fault e) rest h = tt
bind-Goes (ok a) rest h = h a

elim-Goes : (b : Bool) (m n : Run Step) → Goes m → Goes n → Goes (elim b [ true ↦ m | false ↦ n ])
elim-Goes true m n h k = h
elim-Goes false m n h k = k

if-Goes : (b : Bool) (m n : Run Step) → Goes m → Goes n → Goes (if b then m else n)
if-Goes true m n h k = h
if-Goes false m n h k = k

module _ (freed : Freed) (buf_size : ℕ) (ids : List ℕ) where
  after_write-Goes :
      (again : Tables → Held → Run Step) (p : Place) (q : Bool × Tables)
      → ((t : Tables) (h : Held) → Goes (again t h))
      → Goes (after_write buf_size again p q)
  unfolding after_write
  after_write-Goes again p (true, s) h = tt
  after_write-Goes again p (false, s) h = by_held (take_held p.expected p.data_id p.tick s.held)
    where
      by_held :
          (o : Option (Held × List Held))
          → Goes (elim o [
            | none ↦ ok (next s)
            | some r ↦
                if no_room buf_size p.total (length r.0.bytes)
                then ok throws
                else again (record s { held = r.1 }) r.0
          ])
      by_held none = tt
      by_held (some r) = if-Goes (no_room buf_size p.total (length r.0.bytes)) _ _ tt (h _ r.0)

  drain-Goes :
      (fuel : ℕ) (s : Tables) (p : Place) (last : Bool) (from : Run (List ℕ))
      → Goes (drain freed buf_size ids fuel s p last from)
  unfolding drain
  drain-Goes zero s p last from = tt
  drain-Goes (suc fuel) s p last from = bind-Goes (write_data s p from) _ (λ w.
      after_write-Goes _ w.1 (report ids w.0 w.1 last)
        (λ t h. drain-Goes fuel t w.1 h.last (freed h.bytes)))

  module _ (h : ReHeader) (n : ℕ) (packet : List ℕ) where
    by_order-Goes : (s : Tables) (p : Place) → Goes (by_order freed buf_size ids s p h n packet)
    unfolding by_order store_early
    by_order-Goes s p = if-Goes (h.sequence == p.expected) _ _ (drain-Goes _ s p h.last _) (
        if-Goes (ltb h.sequence p.expected) _ _ tt (
          if-Goes (leb max_held (length s.held)) _ _ tt (
            if-Goes (leb vector_limit n) _ _ tt
              (bind-Goes (slice packet header_bytes n) _ (λ bytes. tt)))))

    check_first-Goes :
        (s : Tables) (p : Place) → Goes (check_first freed buf_size ids s p h n packet)
    unfolding check_first
    check_first-Goes s p =
        elim-Goes (h.sequence == 0) _ _ (if-Goes (not h.first) _ _ tt (by_order-Goes _ p))
          (if-Goes h.first _ _ tt (by_order-Goes s p))

    place-Goes :
        (s : Tables) (e : Event) (there : Option Entry)
        → Goes (place freed buf_size ids s e h n packet there)
    unfolding place first_of_tick
    place-Goes s e none = by_entry e.fresh
      where
        by_entry :
            (fresh : Option Entry) → Goes (first_of_tick freed buf_size ids s e h n packet fresh)
        by_entry none = tt
        by_entry (some entry) = if-Goes (not e.has_buf) _ _ tt (check_first-Goes _ _)
    place-Goes s e (some entry) =
        if-Goes (not e.has_buf) _ _ tt
          (if-Goes (no_room buf_size (entry h.data_id).written n) _ _ tt (check_first-Goes s _))

  step-Goes : (s : Tables) (e : Event) → Goes (step freed buf_size ids s e)
  unfolding step
  step-Goes s e = by_datagram e.datagram
    where
      by_datagram :
          (r : Received)
          → Goes (elim r [
            | recv_failed ↦ ok (returns (negsuc 0))
            | received bytes after flags ↦
                let h = parse_re_header (bytes ++ after) in
                place freed buf_size ids s e h
                  (data_size (length bytes))
                  (bytes ++ after)
                  (s.buffers h.tick)
          ])
      by_datagram recv_failed = tt
      by_datagram (received bytes after flags) = place-Goes _ _ _ s e _

  -- Nor does `getBuffers`.
  abbrev NotDone : Run (List (ℕ × Entry) × Ended) → Type 0
  NotDone (fault e) = Unit {0}
  NotDone (ok (log, returned (pos n))) = ⊥
  NotDone (ok (log, returned (negsuc k))) = Unit
  NotDone (ok (log, waits)) = Unit
  NotDone (ok (log, thrown)) = Unit

  put-NotDone :
      (tick : ℕ) (entry : Entry) (m : Run (List (ℕ × Entry) × Ended))
      → NotDone m
      → NotDone (m >>= λ out. ok ((tick, entry) ∷ out.0, out.1))
  put-NotDone tick entry (fault e) h = tt
  put-NotDone tick entry (ok (log, returned (pos n))) h = h
  put-NotDone tick entry (ok (log, returned (negsuc k))) h = tt
  put-NotDone tick entry (ok (log, waits)) h = tt
  put-NotDone tick entry (ok (log, thrown)) h = tt

  run-NotDone : (s : Tables) (es : List Event) → NotDone (run freed buf_size ids s es)
  unfolding run
  run-NotDone s [] = tt
  run-NotDone s (e ∷ es) =
      by_step (step freed buf_size ids s e) (step-Goes s e) (λ t. run-NotDone t es)
    where
      by_step :
          (m : Run Step)
          → Goes m
          → ((t : Tables) → NotDone (run freed buf_size ids t es))
          → NotDone (
              m >>= λ r. elim r [
                | next t ↦ run freed buf_size ids t es
                | handed tick entry t ↦
                    run freed buf_size ids t es >>= λ out. ok ((tick, entry) ∷ out.0, out.1)
                | returns value ↦ ok ([], returned value)
                | throws ↦ ok ([], thrown)
              ])
      by_step (fault e) h later = tt
      by_step (ok (next t)) h later = later t
      by_step (ok (handed tick entry t)) h later = put-NotDone tick entry _ (later t)
      by_step (ok (returns (pos n))) h later = h
      by_step (ok (returns (negsuc k))) h later = tt
      by_step (ok throws) h later = tt

  not_finished :
      (m : Run (List (ℕ × Entry) × Ended)) (out : List (ℕ × Entry) × Ended)
      → NotDone m
      → m ≡ ok out
      → process out.1 ≢ finished
  unfolding process
  not_finished m (log, waits) h e q = absurd (cc)
  not_finished m (log, thrown) h e q = absurd (cc)
  not_finished m (log, returned (negsuc k)) h e q = absurd (cc)
  not_finished m (log, returned (pos n)) h e q = subst NotDone e h

if-NotDone :
    (freed : Freed) (buf_size : ℕ) (ids : List ℕ) (b : Bool) (m n : Run (List (ℕ × Entry) × Ended))
    → NotDone freed buf_size ids m
    → NotDone freed buf_size ids n
    → NotDone freed buf_size ids (if b then m else n)
if-NotDone freed buf_size ids true m n h k = h
if-NotDone freed buf_size ids false m n h k = k

get_buffers-NotDone :
    (freed : Freed) (buf_size : ℕ) (count : ℤ) (ids : Option (List ℕ)) (es : List Event)
    → NotDone freed buf_size [] (get_buffers freed buf_size count ids es)
unfolding get_buffers with_ids
get_buffers-NotDone freed buf_size (negsuc k) ids es = tt
get_buffers-NotDone freed buf_size (pos n) none es =
    if-NotDone freed buf_size [] (ltb n 1) _ _ tt tt
get_buffers-NotDone freed buf_size (pos n) (some ids) es =
    if-NotDone freed buf_size [] (ltb n 1) _ _ tt
      (run-NotDone freed buf_size (to_set ids) no_tables es)

-- `process` of the ET engine never returns: whatever comes, `getBuffers` waits for the next packet, or
-- throws, or returns an error, on which the program exits.
pub process_never_returns :
    (freed : Freed) (buf_size : ℕ) (count : ℤ) (ids : Option (List ℕ)) (events : List Event)
    (out : List (ℕ × Entry) × Ended)
    → get_buffers freed buf_size count ids events ≡ ok out
    → process out.1 ≢ finished
process_never_returns freed buf_size count ids events out e =
    not_finished freed buf_size [] _ out (get_buffers-NotDone freed buf_size count ids events) e
