-- ===== src/Assemble/Turns.antt =====
-- The turns of the inner loop of `getPacketizedBuffer`, as equations.
use ersap_ejfat.Base.{ℕ, ◌≡◌, refl, Bool, true, false, [], ◌∷◌, ◌==◌, ◌⊎◌, inl, inr}
use ersap_ejfat.Base.Memory.{ok, ◌>>=◌}
use ersap_ejfat.Assemble.Store.{Stored, Store, free_map}
use ersap_ejfat.Assemble.Loop.{
  Locals, Checked, good, bad, advance, stop, refused, settle, restore, drain,
}

pub Checked-cases : (r : Checked) → ((t : Locals) × (r ≡ good t)) ⊎ ((t : Locals) × (r ≡ bad t))
Checked-cases (good t) = inl (t, refl)
Checked-cases (bad t) = inr (t, refl)

module _ (v : Bool) (s : Locals) (n : ℕ) (t : Locals) where
  pub drain-nil_good :
      advance v s n ≡ good t → drain v s n [] ≡ ok (stop (settle (record t { stored = [] })))
  unfolding drain
  drain-nil_good w = rw (w, drain)

  pub drain-nil_bad :
      advance v s n ≡ bad t → drain v s n [] ≡ ok (refused (record t { stored = [] }))
  unfolding drain
  drain-nil_bad w = rw (w, drain)

  pub drain-cons_bad :
      (k : ℕ) (p : Stored) (rest : Store)
      → advance v s n ≡ bad t
      → drain v s n ((k, p) ∷ rest)
        ≡ (free_map ((k, p) ∷ rest) >>= λ m. ok (refused (record t { stored = m })))
  unfolding drain
  drain-cons_bad k p rest w = rw (w, drain)

  pub drain-cons_next :
      (k : ℕ) (p : Stored) (rest : Store)
      → advance v s n ≡ good t
      → (k == t.expected_sequence) ≡ true
      → drain v s n ((k, p) ∷ rest) ≡ (restore t p rest >>= λ u. drain v u p.n_bytes rest)
  unfolding drain
  drain-cons_next k p rest w h = rw (w, drain) (rw h)

  pub drain-cons_later :
      (k : ℕ) (p : Stored) (rest : Store)
      → advance v s n ≡ good t
      → (k == t.expected_sequence) ≡ false
      → drain v s n ((k, p) ∷ rest) ≡ ok (stop (record t { stored = (k, p) ∷ rest }))
  unfolding drain
  drain-cons_later k p rest w h = rw (w, drain) (rw h)
