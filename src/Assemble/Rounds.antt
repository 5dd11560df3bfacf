-- ===== src/Assemble/Rounds.antt =====
-- One round of `getPacketizedBuffer` keeps the invariant.
use ersap_ejfat.Base.{
  ℕ, ◌+◌, ◌^◌, ◌<◌, ◌≡◌, sym, ap, ap₂, subst, ◌∙◌, Bool, ◌||◌, List, [], ◌∷◌, ◌++◌, append-nil, ltb,
  ◌==◌, ==_iff, Bool-cases, inl, inr, length, take, drop, get_elem?, get_elem?-lt, flatten, between,
  between-suc, flatten-concat, take_add, arith,
}
use ersap_ejfat.Base.Memory.{Run, ok, fault, ◌>>=◌, Run-cases, write}
use ersap_ejfat.Assemble.Store.{Stored, Store, free_map}
use ersap_ejfat.Assemble.Loop.{
  Locals, sub_64, incr_32, good, advance, Drained, stop, refused, settle, restore, drain,
}
use ersap_ejfat.Assemble.Turns.{
  Checked-cases, drain-nil_good, drain-nil_bad, drain-cons_bad, drain-cons_next, drain-cons_later,
}
use ersap_ejfat.Assemble.Message.{Filled, write-Filled}
use ersap_ejfat.Assemble.Invariant.{IsStored, AllStored, Inv, Current}

-- What `advance` sets when the first bit is right.
record Advanced (s t : Locals) (n : ℕ) : Type 0 where
  mem_is : t.mem ≡ s.mem
  put_is : t.put_data_at ≡ s.put_data_at + n
  remaining_is : t.remaining_len ≡ sub_64 s.remaining_len n
  total_is : t.total_bytes_read ≡ s.total_bytes_read + n
  expected_is : t.expected_sequence ≡ incr_32 s.expected_sequence
  last_is : t.packet_last ≡ s.packet_last

advance-Advanced :
    (v : Bool) (s : Locals) (n : ℕ) (t : Locals) → advance v s n ≡ good t → Advanced s t n
unfolding advance
advance-Advanced v s n t e = record {
  mem_is = ground arith;
  put_is = ground arith;
  remaining_is = ground arith;
  total_is = ground arith;
  expected_is = ground arith;
  last_is = ground arith;
}

settle_room : (t : Locals) → (x : Bool) × (settle t ≡ record t { too_little_room = x })
unfolding settle
settle_room t = elim (Bool-cases t.packet_last) [
  | inl last ↦ (t.too_little_room, ground arith)
  | inr more ↦ (t.too_little_room || ltb t.remaining_len t.max_packet_bytes, ground arith)
]

module _ (xs : List (List ℕ)) (small : length xs < 2 ^ 32) (b len : ℕ) where
  -- After a round, or a turn of the inner loop: the last packet is the current one exactly if all
  -- have been put in order.
  pub record Settled (t : Locals) : Type 0 where
    pub inv : Inv xs b len t
    pub last_is : t.packet_last ≡ (t.expected_sequence == length xs)

  Advanced-Settled :
      (s t : Locals) (n : ℕ) (chunk : List ℕ)
      → Current xs b len s n chunk
      → Advanced s t n
      → Settled t
  Advanced-Settled s t n chunk c a =
      let below = get_elem?-lt xs s.expected_sequence c.chunk_is in
      let next : t.expected_sequence ≡ s.expected_sequence + 1 = omega (arith, a.expected_is) in
      record {
        inv = record {
          from = omega arith;
          upto = omega arith;
          sized = ap (λ (m : List ℕ). length m) a.mem_is ∙ c.inv.sized;
          inside = ground arith;
          total = ground arith;
          written =
              ap₂ take a.put_is a.mem_is
              ∙ take_add s.put_data_at n s.mem
              ∙ ap₂ ◌++◌ c.inv.written c.placed
              ∙ sym (flatten-concat (between b s.expected_sequence xs) chunk)
              ∙ ap flatten (sym (between-suc b s.expected_sequence xs c.inv.from c.chunk_is))
              ∙ ap (λ e. flatten (between b e xs)) (sym next);
        };
        last_is = ground (arith, c.last_is, a.last_is);
      }

  with_room : (t : Locals) (x : Bool) → Settled t → Settled (record t { too_little_room = x })
  with_room t x h = record {
    inv = record {
      from = h.inv.from;
      upto = h.inv.upto;
      inside = h.inv.inside;
      sized = h.inv.sized;
      total = h.inv.total;
      written = h.inv.written;
    };
    last_is = h.last_is;
  }

  settle-Settled : (t : Locals) → Settled t → Settled (settle t)
  settle-Settled t h = let (x, e) = settle_room t in subst Settled (sym e) (with_room t x h)

  restore-Current :
      (t : Locals) (k : ℕ) (p : Stored) (rest : Store) {u : Locals}
      → Settled t
      → IsStored xs k p
      → k ≡ t.expected_sequence
      → restore t p rest ≡ ok u
      → Current xs b len u p.n_bytes p.block
  unfolding restore
  restore-Current t k p rest {u} h q e r = elim (Bool-cases p.live) [
    | inr freed ↦ absurd (ground arith)
    | inl live ↦ elim (Run-cases (write t.mem t.put_data_at p.block)) [
      | inr (_, w) ↦ absurd (ground arith)
      | inl (mem', w) ↦
          let f : Filled t.mem mem' t.put_data_at p.block =
            write-Filled t.mem t.put_data_at p.block [] (rw append-nil w) in
          let mem_is : u.mem ≡ mem' = ground arith in
          let put_is : u.put_data_at ≡ t.put_data_at = ground arith in
          let expected_is : u.expected_sequence ≡ t.expected_sequence = ground arith in
          let total_is : u.total_bytes_read ≡ t.total_bytes_read = ground arith in
          let last_is : u.packet_last ≡ p.last = ground arith in
          record {
            inv = record {
              from = ground (arith, h.inv.from);
              upto = ground (arith, h.inv.upto);
              inside = ground (arith, h.inv.inside, f.same_length);
              sized = ground (arith, h.inv.sized, f.same_length);
              total = ground (arith, h.inv.total);
              written =
                  ap₂ take put_is mem_is
                  ∙ f.before
                  ∙ h.inv.written
                  ∙ ap (λ e. flatten (between b e xs)) (sym expected_is);
            };
            chunk_is = ap (get_elem? xs) (expected_is ∙ sym e) ∙ q.chunk_is;
            size_is = q.size_is;
            fits = ground (arith, f.room, f.same_length, q.size_is);
            placed = ap₂ take q.size_is (ap₂ drop put_is mem_is) ∙ f.placed;
            last_is = ground (arith, q.last_is);
          }
    ]
  ]

  -- The same with another map of stored packets.
  with_stored : (t : Locals) (m : Store) → Settled t → Settled (record t { stored = m })
  with_stored t m h = record {
    inv = record {
      from = h.inv.from;
      upto = h.inv.upto;
      inside = h.inv.inside;
      sized = h.inv.sized;
      total = h.inv.total;
      written = h.inv.written;
    };
    last_is = h.last_is;
  }

  abbrev pub Left : Drained → Type 0
  Left (refused t) = Unit {0}
  Left (stop t) = Settled t × AllStored xs t.stored

  settle-stored : (t : Locals) → (settle t).stored ≡ t.stored
  unfolding settle
  settle-stored t = ground arith

  refused-Left :
      (m : Run Store) (t : Locals) {d : Drained}
      → (m >>= λ m'. ok (refused (record t { stored = m' }))) ≡ ok d
      → Left d
  refused-Left (ok m) t {d} e =
      let r : refused (record t { stored = m }) ≡ d = cc in subst Left r tt
  refused-Left (fault x) t e = absurd (cc)

  -- However far the inner loop goes.
  pub drain-Left :
      (v : Bool) (s : Locals) (n : ℕ) (m : Store) (chunk : List ℕ) {d : Drained}
      → Current xs b len s n chunk
      → AllStored xs m
      → drain v s n m ≡ ok d
      → Left d
  drain-Left v s n [] chunk {d} c a e = elim (Checked-cases (advance v s n)) [
    | inr (t, w) ↦
        let r : refused (record t { stored = [] }) ≡ d = cc (drain-nil_bad v s n t w) in
        subst Left r tt
    | inl (t, w) ↦
        let h = Advanced-Settled s t n chunk c (advance-Advanced v s n t w) in
        let stopped : stop (settle (record t { stored = [] })) ≡ d =
          cc (drain-nil_good v s n t w) in
        subst Left stopped (
          settle-Settled (record t { stored = [] }) (with_stored t [] h),
          rw (settle-stored (record t { stored = [] })) tt,
        )
  ]
  drain-Left v s n ((k, p) ∷ rest) chunk {d} c a e = elim (Checked-cases (advance v s n)) [
    | inr (t, w) ↦
        refused-Left (free_map ((k, p) ∷ rest)) t (sym (drain-cons_bad v s n t k p rest w) ∙ e)
    | inl (t, w) ↦
        let h = Advanced-Settled s t n chunk c (advance-Advanced v s n t w) in
        elim (Bool-cases (k == t.expected_sequence)) [
          | inr later ↦
              let stopped : stop (record t { stored = (k, p) ∷ rest }) ≡ d =
                cc (drain-cons_later v s n t k p rest w later) in
              subst Left stopped (with_stored t ((k, p) ∷ rest) h, a)
          | inl next ↦ elim (Run-cases (restore t p rest)) [
            | inr (x, r) ↦ absurd (
                cc (
                  drain-cons_next v s n t k p rest w next,
                  ap (λ q. q >>= λ (u : Locals). drain v u p.n_bytes rest) r,
                ))
            | inl (u, r) ↦
                drain-Left v u p.n_bytes rest p.block
                  (restore-Current t k p rest h a.0 ((==_iff _ _).0 next) r) a.1
                  (sym (
                      drain-cons_next v s n t k p rest w next
                      ∙ ap (λ q. q >>= λ (u : Locals). drain v u p.n_bytes rest) r)
                    ∙ e)
          ]
        ]
  ]
