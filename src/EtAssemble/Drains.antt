-- ===== src/EtAssemble/Drains.antt =====
-- The inner loop of `getBuffers`, with the early packets that follow: it does not leave the block, and
-- its fuel is enough.
use ersap_ejfat.Base.{
  ℕ, zero, suc, ◌+◌, ◌^◌, ◌<◌, ◌≤◌, ◌≡◌, refl, sym, ap, subst, ◌∙◌, Bool, true, false, Bool-cases,
  ◌⊎◌, inl, inr, Option, none, some, List, ◌++◌, ◌==◌, if◌then◌else◌, length, take, drop, get_elem?,
  arith,
}
use ersap_ejfat.Base.Memory.{Run, ok, fault, use_after_free, ◌>>=◌, write, write_fits}
use ersap_ejfat.EtAssemble.Maps.{Held, Tables, take_held}
use ersap_ejfat.EtAssemble.Keys.{Found, take_held-Found}
use ersap_ejfat.EtAssemble.Invariant.{IsHeld, Inv, At, Chunk}
use ersap_ejfat.EtAssemble.Inner.{
  Freed, Place, Step, next, handed, throws, write_data, report, after_write, drain, no_room,
}
use ersap_ejfat.EtAssemble.Written.{written_to, Inv-now, At-now, next_number}
use ersap_ejfat.EtAssemble.Turns.{StepOk, Reported, report-Reported}

-- A read gives the bytes, or it is a use after free, and then `U` holds.
abbrev pub ReadAs : Type 0 → Run (List ℕ) → List ℕ → Type 0
ReadAs U from bytes = (U × (from ≡ fault use_after_free)) ⊎ (from ≡ ok bytes)

module _ (buf_size : ℕ) (xs : ℕ → ℕ → List (List ℕ)) (Src : ℕ → ℕ → Type 0)
    (large : buf_size < 2 ^ 63) (ids : List ℕ) (U : Type 0) (freed : Freed)
    (honest : (bytes : List ℕ) → ReadAs U (freed bytes) bytes) where
  -- The call returns, and what it returns is as it should be, or it has read freed memory.
  abbrev pub Ends : Run Step → Type 0
  Ends m =
      (U × (m ≡ fault use_after_free)) ⊎ ((r : Step) × (m ≡ ok r) × StepOk buf_size xs Src ids r)

  after_write-Ends :
      (again : Tables → Held → Run Step) (p : Place) (q : Bool × Tables)
      → Reported buf_size xs Src ids p q
      → ((t : Tables) (h : Held)
          → Inv buf_size xs Src t
          → At buf_size xs Src t p
          → Chunk buf_size xs Src p h.last h.bytes
          → p.total + length h.bytes ≤ buf_size
          → suc (length t.held) ≡ length q.1.held
          → Ends (again t h))
      → Src p.tick p.data_id
      → length (xs p.tick p.data_id) < 2 ^ 32
      → Ends (after_write buf_size again p q)
  unfolding after_write
  after_write-Ends again p (true, s) h later src few = inr (handed p.tick p.entry s, refl, h)
  after_write-Ends again p (false, s) (v, a) later src few =
      by_held (take_held p.expected p.data_id p.tick s.held) (λ r.
        take_held-Found (IsHeld buf_size xs Src) p.expected p.data_id p.tick s.held r v.held_are)
    where
      by_held :
          (o : Option (Held × List Held))
          → ((r : Held × List Held)
              → o ≡ some r
              → Found (IsHeld buf_size xs Src) p.expected p.data_id p.tick s.held r)
          → Ends (elim o [
            | none ↦ ok (next s)
            | some r ↦
                if no_room buf_size p.total (length r.0.bytes)
                then ok throws
                else again (record s { held = r.1 }) r.0
          ])
      by_held none found = inr (next s, refl, v)
      by_held (some r) found = elim (Bool-cases (no_room buf_size p.total (length r.0.bytes))) [
        | inl full ↦ rw full (inr (throws, refl, tt))
        | inr room ↦
            let f = found r refl in
            let inside = (v.content p.tick p.entry a.buffer_is p.data_id) in
            rw room (
              later (record s { held = r.1 }) r.0
                (record {
                  content = v.content;
                  unused = v.unused;
                  held_are = f.rest_hold;
                  ends = v.ends;
                  keys = v.keys;
                })
                (record {
                  buffer_is = a.buffer_is;
                  expected_is = a.expected_is;
                  total_is = a.total_is;
                })
                (record {
                  chunk_is =
                      sym (λ j. get_elem? (xs (f.tick_is j) (f.id_is j)) (f.sequence_is j))
                      ∙ f.holds.chunk_is;
                  last_is = f.holds.last_is ∙ λ j.
                      suc (f.sequence_is j) == length (xs (f.tick_is j) (f.id_is j));
                  src = src;
                  few = few;
                })
                (ground
                  (arith, room, f.holds.short, inside.inside, inside.sized, a.total_is, large))
                f.smaller)
      ]

  pub drain-Ends :
      (fuel : ℕ) (s : Tables) (p : Place) (last : Bool) (from : Run (List ℕ)) (bytes : List ℕ)
      → ReadAs U from bytes
      → Inv buf_size xs Src s
      → At buf_size xs Src s p
      → Chunk buf_size xs Src p last bytes
      → p.total + length bytes ≤ buf_size
      → length s.held < fuel
      → Ends (drain freed buf_size ids fuel s p last from)
  unfolding drain write_data
  drain-Ends zero s p last from bytes reads v a c room enough = absurd (omega arith)
  drain-Ends (suc fuel) s p last from bytes (inl (u, e)) v a c room enough = inl (u, rw e refl)
  drain-Ends (suc fuel) s p last from bytes (inr reads) v a c room enough =
      let inside = v.content p.tick p.entry a.buffer_is p.data_id in
      let block =
        take p.total (p.entry p.data_id).block
        ++ (bytes ++ drop (p.total + length bytes) (p.entry p.data_id).block) in
      let w : write (p.entry p.data_id).block p.total bytes ≡ ok block =
        write_fits (p.entry p.data_id).block p.total bytes (omega (arith, room, inside.sized)) in
      let done = written_to buf_size xs Src s p bytes block in
      let v' = Inv-now buf_size xs Src s p last bytes block v a c w in
      let a' = At-now buf_size xs Src s p last bytes block v a c w in
      let next_is = next_number buf_size xs Src s p last bytes block v a c w in
      let (rep, kept) = report-Reported buf_size xs Src ids done.0 done.1 last v' a' c.src (
        c.last_is
        ∙ ap (λ n. n == length (xs p.tick p.data_id)) (omega (arith, next_is) ∙ a'.expected_is)) in
      let ends =
        after_write-Ends (λ t h. drain freed buf_size ids fuel t done.1 h.last (freed h.bytes))
          done.1 (report ids done.0 done.1 last) rep
          (λ t h v a c room less.
            drain-Ends fuel t done.1 h.last (freed h.bytes) h.bytes (honest h.bytes) v a c room
              (omega (arith, enough, less, ap (λ (m : List Held). length m) kept)))
          c.src c.few in
      subst Ends
        (sym (
          ap
            (λ q.
              (q >>= λ bytes. write (p.entry p.data_id).block p.total bytes >>= λ block.
              ok (written_to buf_size xs Src s p bytes block))
              >>= λ w.
                  after_write buf_size
                    (λ t h. drain freed buf_size ids fuel t w.1 h.last (freed h.bytes)) w.1
                    (report ids w.0 w.1 last))
            reads
          ∙ ap
              (λ q. (q >>= λ block. ok (written_to buf_size xs Src s p bytes block)) >>= λ w.
                after_write buf_size
                  (λ t h. drain freed buf_size ids fuel t w.1 h.last (freed h.bytes)) w.1
                  (report ids w.0 w.1 last))
              w))
        ends
