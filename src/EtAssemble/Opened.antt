-- ===== src/EtAssemble/Opened.antt =====
-- The maps of `getBuffers` with the new entry for a tick.
use mathlib.Core.Option.{some-injective}
use ersap_ejfat.Base.{
  ℕ, ◌≡◌, refl, sym, ap, ap₂, subst, ◌∙◌, Bool-cases, inl, inr, none, some, List, ◌==◌, ==_iff,
  length, take, get_elem?, get_elem?-lt, ◌&&◌, arith,
}
use ersap_ejfat.LastBits.{find}
use ersap_ejfat.Packetize.{Settings}
use ersap_ejfat.EtAssemble.Maps.{Entry, Tables, set_at, set_at_2}
use ersap_ejfat.EtAssemble.Invariant.{Content, Inv}

module _ (buf_size : ℕ) (xs : ℕ → ℕ → List (List ℕ)) (Src : ℕ → ℕ → Type 0) (c : Settings) (k : ℕ)
    (chunk : List ℕ) (g : get_elem? (xs c.tick c.data_id) k ≡ some chunk) where
  -- The maps with the new entry.
  abbrev pub opened : Tables → Entry → Tables
  opened s entry = record s {
    buffers = set_at s.buffers c.tick (some entry);
    exp_sequence = set_at_2 s.exp_sequence c.tick c.data_id 0;
  }

  Content-new :
      (t i n : ℕ) (e : Entry)
      → ((e i).written ≡ 0) × (length (e i).block ≡ buf_size)
      → n ≡ 0
      → Content buf_size xs Src t i n (e i)
  Content-new t i n e (z, l) q = rw q (record {
    upto = omega arith;
    counted = z;
    holds = ap (λ m. take m (e i).block) z;
    inside = omega (arith, z);
    sized = l;
  })

  number_opened :
      (s : Tables) (entry : Entry) (t i : ℕ)
      → s.exp_sequence t i ≡ 0
      → (opened s entry).exp_sequence t i ≡ 0
  number_opened s entry t i q = elim (Bool-cases (c.tick == t && c.data_id == i)) [
    | inl same ↦ rw same refl
    | inr other ↦ rw other q
  ]

  pub Inv-opened :
      (s : Tables) (entry : Entry)
      → Inv buf_size xs Src s
      → s.buffers c.tick ≡ none
      → ((i : ℕ) → ((entry i).written ≡ 0) × (length (entry i).block ≡ buf_size))
      → Inv buf_size xs Src (opened s entry)
  Inv-opened s entry v none_yet new = record {
    content = λ t e q i. elim (Bool-cases (c.tick == t)) [
      | inl same ↦
          let given : some entry ≡ some e = rw same at q in
          Content-new t i _ e
            (subst (λ (f : Entry). ((f i).written ≡ 0) × (length (f i).block ≡ buf_size))
              (some-injective entry e given) (new i))
            (number_opened s entry t i
              (v.unused t (ap s.buffers (sym ((==_iff _ _).0 same)) ∙ none_yet) i))
      | inr other ↦
          let there : s.buffers t ≡ some e = rw other at q in rw other (v.content t e there i)
    ];
    unused = λ t q i. elim (Bool-cases (c.tick == t)) [
      | inl same ↦ let q' : some entry ≡ none = rw same at q in absurd (cc)
      | inr other ↦ let q' : s.buffers t ≡ none = rw other at q in rw other (v.unused t q' i)
    ];
    held_are = v.held_are;
    ends = λ t i b q. elim (Bool-cases (c.tick == t && c.data_id == i)) [
      | inr other ↦ rw other (v.ends t i b q)
      | inl same ↦
          let here : c.tick ≡ t = (==_iff _ _).0 (ground (arith, same)) in
          let own : c.data_id ≡ i = (==_iff _ _).0 (ground (arith, same)) in
          let q' : find c.tick c.data_id s.end_condition ≡ some b =
            ap₂ (λ t i. find t i s.end_condition) here own ∙ q in
          absurd (
            omega (
              arith,
              v.ends c.tick c.data_id b q',
              v.unused c.tick none_yet c.data_id,
              get_elem?-lt (xs c.tick c.data_id) k g,
            ))
    ];
    keys = v.keys;
  }
