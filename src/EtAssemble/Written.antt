-- ===== src/EtAssemble/Written.antt =====
-- The maps of `getBuffers` after a copy: the invariant is kept.
use mathlib.Core.Option.{some-injective}
use ersap_ejfat.Base.{
  ℕ, ◌+◌, ◌≡◌, refl, sym, ap₂, subst, ◌∙◌, Bool, true, ◌&&◌, Bool-cases, inl, inr, none, some, List,
  ◌==◌, ==_iff, length, get_elem?-lt, arith,
}
use ersap_ejfat.Base.Memory.{ok, write}
use ersap_ejfat.Assemble.Loop.{incr_32}
use ersap_ejfat.LastBits.{find}
use ersap_ejfat.EtAssemble.Maps.{Entry, Tables, set_at, set_at_2}
use ersap_ejfat.EtAssemble.Invariant.{Content, Content-write, Inv, At, Chunk}
use ersap_ejfat.EtAssemble.Inner.{Place}

module _ (buf_size : ℕ) (xs : ℕ → ℕ → List (List ℕ)) (Src : ℕ → ℕ → Type 0) where
  -- What `write_data` gives, with the block that was written.
  abbrev pub written_to : Tables → Place → List ℕ → List ℕ → Tables × Place
  written_to s p bytes block =
      let entry =
        set_at p.entry p.data_id (record { block = block; written = p.total + length bytes }) in
      (
        record s {
          buffers = set_at s.buffers p.tick (some entry);
          exp_sequence = set_at_2 s.exp_sequence p.tick p.data_id (incr_32 p.expected);
        },
        record p { entry = entry; expected = incr_32 p.expected; total = p.total + length bytes },
      )

  module _ (s : Tables) (p : Place) (last : Bool) (bytes block : List ℕ) (v : Inv buf_size xs Src s)
      (a : At buf_size xs Src s p) (c : Chunk buf_size xs Src p last bytes)
      (w : write (p.entry p.data_id).block p.total bytes ≡ ok block) where
    abbrev now : Tables
    now = (written_to s p bytes block).0

    abbrev entry_now : Entry
    entry_now = (written_to s p bytes block).1.entry

    pub next_number : incr_32 p.expected ≡ p.expected + 1
    next_number = omega (arith, get_elem?-lt (xs p.tick p.data_id) p.expected c.chunk_is, c.few)

    pub same_tick : (p.tick == p.tick) ≡ true
    same_tick = (==_iff p.tick p.tick).1 refl

    pub same_id : (p.data_id == p.data_id) ≡ true
    same_id = (==_iff p.data_id p.data_id).1 refl

    own_Content :
        Content buf_size xs Src p.tick p.data_id
          (incr_32 p.expected)
          (record { block = block; written = p.total + length bytes })
    own_Content =
        let old : Content buf_size xs Src p.tick p.data_id p.expected (p.entry p.data_id) =
          subst (λ k. Content buf_size xs Src p.tick p.data_id k (p.entry p.data_id))
            (sym a.expected_is) (v.content p.tick p.entry a.buffer_is p.data_id) in
        let w' : write (p.entry p.data_id).block (p.entry p.data_id).written bytes ≡ ok block =
          subst (λ n. write (p.entry p.data_id).block n bytes ≡ ok block) a.total_is w in
        let got =
          Content-write buf_size xs Src p.tick p.data_id p.expected (p.entry p.data_id) bytes block
            old c.chunk_is w' in
        subst
          (λ n.
            Content buf_size xs Src p.tick p.data_id (incr_32 p.expected)
              (record { block = block; written = n + length bytes }))
          (sym a.total_is)
          (subst
            (λ k.
              Content buf_size xs Src p.tick p.data_id k
                (record { block = block; written = (p.entry p.data_id).written + length bytes }))
            (sym next_number) got)

    entry_Content :
        (i : ℕ) → Content buf_size xs Src p.tick i (now.exp_sequence p.tick i) (entry_now i)
    entry_Content i = elim (Bool-cases (p.data_id == i)) [
      | inl same ↦
          rw (same_tick, same)
            (subst
              (λ j.
                Content buf_size xs Src p.tick j (incr_32 p.expected)
                  (record { block = block; written = p.total + length bytes }))
              ((==_iff _ _).0 same) own_Content)
      | inr other ↦ rw (same_tick, other) (v.content p.tick p.entry a.buffer_is i)
    ]

    Content-now :
        (t : ℕ) (e : Entry)
        → now.buffers t ≡ some e
        → (i : ℕ) → Content buf_size xs Src t i (now.exp_sequence t i) (e i)
    Content-now t e q i = elim (Bool-cases (p.tick == t)) [
      | inl same ↦
          let here : some entry_now ≡ some e = rw same at q in
          let given : entry_now ≡ e = some-injective entry_now e here in
          subst (λ u. Content buf_size xs Src u i (now.exp_sequence u i) (e i))
            ((==_iff _ _).0 same)
            (subst
              (λ (f : Entry). Content buf_size xs Src p.tick i (now.exp_sequence p.tick i) (f i))
              given (entry_Content i))
      | inr other ↦
          let there : s.buffers t ≡ some e = rw other at q in rw other (v.content t e there i)
    ]

    ends_now :
        (t i : ℕ) (b : Bool)
        → find t i s.end_condition ≡ some b
        → now.exp_sequence t i ≡ length (xs t i)
    ends_now t i b q = elim (Bool-cases (p.tick == t && p.data_id == i)) [
      | inr other ↦ rw other (v.ends t i b q)
      | inl same ↦
          let here : p.tick ≡ t = (==_iff _ _).0 (ground (arith, same)) in
          let own : p.data_id ≡ i = (==_iff _ _).0 (ground (arith, same)) in
          let q' : find p.tick p.data_id s.end_condition ≡ some b =
            ap₂ (λ t i. find t i s.end_condition) here own ∙ q in
          absurd (
            omega (
              arith,
              v.ends p.tick p.data_id b q',
              a.expected_is,
              get_elem?-lt (xs p.tick p.data_id) p.expected c.chunk_is,
            ))
    ]

    pub Inv-now : Inv buf_size xs Src now
    Inv-now = record {
      content = Content-now;
      unused = λ t q i. elim (Bool-cases (p.tick == t)) [
        | inl same ↦ let q' : some entry_now ≡ none = rw same at q in absurd (cc)
        | inr other ↦ let q' : s.buffers t ≡ none = rw other at q in rw other (v.unused t q' i)
      ];
      held_are = v.held_are;
      ends = ends_now;
      keys = v.keys;
    }

    pub At-now : At buf_size xs Src now (written_to s p bytes block).1
    At-now = record {
      buffer_is = rw same_tick refl;
      expected_is = rw (same_tick, same_id) refl;
      total_is = rw same_id refl;
    }
