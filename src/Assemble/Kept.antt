-- ===== src/Assemble/Kept.antt =====
-- What a round of `getPacketizedBuffer` keeps, on every branch.
use ersap_ejfat.Base.{
  ℕ, suc, ◌^◌, ◌<◌, ◌≡◌, refl, sym, ap, subst, ◌∙◌, Bool, true, ◌||◌, List, some, ltb, leb, ◌==◌,
  ==_iff, Bool-cases, inl, inr, length, take, drop, get_elem?, ℤ, negsuc, arith,
}
use ersap_ejfat.Base.Memory.{ok, ◌>>=◌, Run-cases, slice, slice-eq-ok}
use ersap_ejfat.Packetize.{Settings}
use ersap_ejfat.Wire.{ReHeader}
use ersap_ejfat.Assemble.{Event, Read, failed, packet, read_by}
use ersap_ejfat.Assemble.Store.{Stored, emplace, free_map}
use ersap_ejfat.Assemble.Loop.{
  Locals, Drained, stop, refused, drain, Round, continue, finish, error, free_and_return, put_aside,
  put_in_order, take_packet, with_header, after_drain, after_read, round, max_stored,
}
use ersap_ejfat.Assemble.Message.{Fits, Genuine, Filled, ReadsChunk, re_header}
use ersap_ejfat.Assemble.Reads.{read_by-ReadsChunk}
use ersap_ejfat.Assemble.Invariant.{AllStored, emplace-AllStored, Inv, Current}
use ersap_ejfat.Assemble.Rounds.{Settled, Left, drain-Left}

-- An error value is negative.
abbrev pub IsNegative : ℤ → Type 0
IsNegative value = (k : ℕ) × (value ≡ negsuc k)

module _ (xs : List (List ℕ)) (small : length xs < 2 ^ 32) (b len : ℕ) where
  abbrev pub Keeps : Round → Type 0
  Keeps (continue t) = Inv xs b len t × AllStored xs t.stored
  Keeps (finish t) = Settled xs small b len t × AllStored xs t.stored
  Keeps (error value t) = IsNegative value

  freed-Keeps : (k : ℕ) (s : Locals) {r : Round} → free_and_return (negsuc k) s ≡ ok r → Keeps r
  unfolding free_and_return
  freed-Keeps k s {r} e = elim (Run-cases (free_map s.stored)) [
    | inr (x, w) ↦ absurd (ground arith)
    | inl (m, w) ↦
        let same : error (negsuc k) (record s { stored = m }) ≡ r = ground arith in
        subst Keeps same (k, refl)
  ]

  -- A packet of the message, just read, is put aside.
  put_aside-Keeps :
      (s : Locals) (sequence n : ℕ) (malloc_ok : Bool) (chunk : List ℕ) {r : Round}
      → Inv xs b len s
      → AllStored xs s.stored
      → get_elem? xs sequence ≡ some chunk
      → n ≡ length chunk
      → take n (drop s.put_data_at s.mem) ≡ chunk
      → s.packet_last ≡ (suc sequence == length xs)
      → s.packet_first ≡ (sequence == 0)
      → put_aside s sequence n malloc_ok ≡ ok r
      → Keeps r
  unfolding put_aside
  put_aside-Keeps s sequence n malloc_ok chunk {r} i a g size placed last first e =
      elim (Bool-cases (ltb sequence s.expected_sequence)) [
        | inl old ↦ freed-Keeps 3 s (rw old at e)
        | inr new ↦ elim (Bool-cases (leb max_stored (length s.stored))) [
          | inl full ↦ freed-Keeps 3 s (rw (new, full) at e)
          | inr room ↦ elim (Bool-cases malloc_ok) [
            | inr empty ↦ freed-Keeps 5 s (rw (new, room, empty) at e)
            | inl given ↦ kept (rw (new, room, given) at e)
          ]
        ]
      ]
    where
      kept :
          (slice s.mem s.put_data_at n >>= λ block. ok (
              continue (record s {
                stored =
                    emplace sequence
                      (record {
                        block = block;
                        n_bytes = n;
                        last = s.packet_last;
                        first = s.packet_first;
                        live = true;
                      })
                      s.stored;
              })))
            ≡ ok r
          → Keeps r
      kept e = elim (Run-cases (slice s.mem s.put_data_at n)) [
        | inr (x, w) ↦ absurd (ground arith)
        | inl (block, w) ↦
            let content : block ≡ chunk = (slice-eq-ok s.mem s.put_data_at n w).1 ∙ placed in
            let v : Stored = record {
              block = block;
              n_bytes = n;
              last = s.packet_last;
              first = s.packet_first;
              live = true;
            } in
            let same : continue (record s { stored = emplace sequence v s.stored }) ≡ r =
              ground arith in
            subst Keeps same (
              record {
                from = i.from;
                upto = i.upto;
                inside = i.inside;
                sized = i.sized;
                total = i.total;
                written = i.written;
              },
              emplace-AllStored xs sequence v s.stored
                  (record {
                    chunk_is = rw content g;
                    size_is = rw content size;
                    last_is = last;
                    first_is = first;
                  })
                  a,
            )
      ]

  put_in_order-Keeps :
      (v : Bool) (s : Locals) (n : ℕ) (chunk : List ℕ) {r : Round}
      → Current xs b len s n chunk
      → AllStored xs s.stored
      → put_in_order v s n ≡ ok r
      → Keeps r
  put_in_order-Keeps v s n chunk {r} c a e = elim (Run-cases (drain v s n s.stored)) [
    | inr (x, w) ↦ absurd (unfold put_in_order in ground arith)
    | inl (d, w) ↦
        left d (drain-Left xs small b len v s n s.stored chunk c a w)
          (unfold put_in_order in rw w at e)
  ]
    where
      left : (d : Drained) → Left xs small b len d → ok (after_drain d) ≡ ok r → Keeps r
      left (refused t) h e =
          let same : error (negsuc 4) t ≡ r = ground arith in subst Keeps same (4, refl)
      left (stop t) h e = elim (Bool-cases (t.packet_last || t.too_little_room)) [
        | inl ends ↦ let same : finish t ≡ r = ground arith in subst Keeps same h
        | inr goes_on ↦ let same : continue t ≡ r = ground arith in subst Keeps same (h.0.inv, h.1)
      ]

  -- The state behind a read, before the packet is looked at.
  take_packet-Keeps :
      (c : Settings) (v : Bool) (s : Locals) (mem' : List ℕ) (h : ReHeader) (n i : ℕ)
      (chunk : List ℕ) (malloc_ok : Bool) {r : Round}
      → Inv xs b len s
      → AllStored xs s.stored
      → get_elem? xs i ≡ some chunk
      → h ≡ re_header c (length xs) i
      → n ≡ length chunk
      → Filled s.mem mem' s.put_data_at chunk
      → take_packet v (record s { mem = mem' }) h n malloc_ok ≡ ok r
      → Keeps r
  unfolding take_packet
  take_packet-Keeps c v s mem' h n i chunk malloc_ok {r} q a g hd size f e =
      elim (Bool-cases (h.sequence == s.expected_sequence)) [
        | inl now ↦
            let here : i ≡ s.expected_sequence = sym number ∙ (==_iff _ _).0 now in
            put_in_order-Keeps v (with_header (record s { mem = mem' }) h n) n chunk
              (record {
                inv = moved;
                chunk_is = ap (get_elem? xs) (sym here) ∙ g;
                size_is = size;
                fits = omega (arith, size, f.room, f.same_length);
                placed = rw size f.placed;
                last_is = ap (λ k. k.last) hd ∙ ap (λ k. suc k == length xs) here;
              })
              a (rw now at e)
        | inr later ↦
            put_aside-Keeps (with_header (record s { mem = mem' }) h n) h.sequence n malloc_ok chunk
              moved a (ap (get_elem? xs) number ∙ g) size (rw size f.placed)
              (ap (λ k. k.last) hd ∙ ap (λ k. suc k == length xs) (sym number))
              (ap (λ k. k.first) hd ∙ ap (λ k. k == 0) (sym number)) (rw later at e)
      ]
    where
      number : h.sequence ≡ i
      number = ap (λ k. k.sequence) hd

      moved : Inv xs b len (with_header (record s { mem = mem' }) h n)
      moved = record {
        from = q.from;
        upto = q.upto;
        inside = omega (arith, q.inside, f.same_length);
        sized = f.same_length ∙ q.sized;
        total = q.total;
        written = f.before ∙ q.written;
      }

  pub round-Keeps :
      {c : Settings} (f : Fits c xs) (use_recv_from v : Bool) (s : Locals) (e : Event) {r : Round}
      → Genuine c xs e.datagram
      → Inv xs b len s
      → AllStored xs s.stored
      → round use_recv_from v s e ≡ ok r
      → Keeps r
  round-Keeps {c} f use_recv_from v s e {r} g q a h =
      elim (Run-cases (read_by use_recv_from s.mem s.put_data_at s.remaining_len e.datagram)) [
        | inr (x, w) ↦ absurd (unfold round in cc (ap (λ m. m >>= after_read v s e) w))
        | inl ((mem', rd), w) ↦
            read_one mem' rd
              (read_by-ReadsChunk f use_recv_from s.mem s.put_data_at s.remaining_len e.datagram g
                w)
              (unfold round in sym (ap (λ m. m >>= after_read v s e) w) ∙ h)
      ]
    where
      read_one :
          (mem' : List ℕ) (rd : Read)
          → ReadsChunk c xs s.mem mem' s.put_data_at rd
          → after_read v s e (mem', rd) ≡ ok r
          → Keeps r
      read_one mem' (failed value) negative k =
          let same : error value (record s { mem = mem' }) ≡ r = ground arith in
          subst Keeps same negative
      read_one mem' (packet hd n) (i, chunk, at, head, size, filled) k =
          take_packet-Keeps c v s mem' hd n i chunk e.malloc_ok q a at head size filled k
