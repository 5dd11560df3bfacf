-- ===== src/Assemble/GetBuffer/Blocks.antt =====
-- The block of `getBuffer`: what it holds after a call and after `realloc`.
use mathlib.Core.Option
use ersap_ejfat.Base.{
  ℕ, ◌^◌, ◌≤◌, ◌<◌, ◌≡◌, refl, sym, ap, subst, ◌∙◌, Option, none, some, List, ◌++◌, ltb, Bool-cases,
  inl, inr, length, length-append, length-take, length-drop, take_all, take, drop, take-append_le,
  take-append_add, flatten, flatten-append, between, between_join, arith,
}
use ersap_ejfat.Packetize.{Settings}
use ersap_ejfat.Assemble.Loop.{Shared}
use ersap_ejfat.Assemble.Message.{Fits}
use ersap_ejfat.Assemble.Invariant.{AllStored}
use ersap_ejfat.Assemble.Safety.{Gathered}
use ersap_ejfat.Assemble.GetBuffer.{
  Malloc, Growing, sub_32, rest_of, after_call, realloc, double_32, grow,
}

-- `malloc` gives a block of the size asked for, and none of 2 ^ 31 bytes or more.
pub record Allocates (malloc : Malloc) : Type 0 where
  pub sized : (n : ℕ) (block : List ℕ) → malloc n ≡ some block → length block ≡ n
  pub limit : (n : ℕ) (block : List ℕ) → malloc n ≡ some block → n < 2 ^ 31

-- A block that `realloc` has enlarged, with the old one in front.
realloc-eq-some :
    {malloc : Malloc} (q : Allocates malloc) (block : List ℕ) (n : ℕ) {b : List ℕ}
    → length block ≤ n
    → realloc malloc block n ≡ some b
    → (length b ≡ n) × (n < 2 ^ 31) × ((k : ℕ) → k ≤ length block → take k b ≡ take k block)
realloc-eq-some {malloc} q block n {b} le e = by_block (malloc n) refl e
  where
    by_block :
        (o : Option (List ℕ))
        → malloc n ≡ o
        → Option.map (λ more. take n (block ++ drop (length block) more)) o ≡ some b
        → (length b ≡ n) × (n < 2 ^ 31) × ((k : ℕ) → k ≤ length block → take k b ≡ take k block)
    by_block none w e = absurd (ground arith)
    by_block (some more) w e =
        let size : length (block ++ drop (length block) more) ≡ n = omega (
          arith,
          q.sized n more w,
          length-append {0} block (drop (length block) more),
          length-drop (length block) more,
        ) in
        let all = take_all n (block ++ drop (length block) more) (omega (arith, size)) in
        let given : take n (block ++ drop (length block) more) ≡ b = ground arith in
        let same : block ++ drop (length block) more ≡ b = sym all ∙ given in
        (
          sym (ap (λ (m : List ℕ). length m) same) ∙ size,
          q.limit n more w,
          λ k le. sym (ap (take k) same) ∙ take-append_le k block (drop (length block) more) le,
        )

module _ {c : Settings} {xs : List (List ℕ)} (f : Fits c xs) where
  -- The block holds the message up to the next expected packet.
  pub record Holds (g : Growing) : Type 0 where
    pub inside : g.total_bytes ≤ length g.data_buf
    pub sized : length g.data_buf ≡ g.data_buf_len
    pub limit : g.data_buf_len < 2 ^ 31
    pub upto : g.shared.exp_sequence ≤ length xs
    pub written : take g.total_bytes g.data_buf ≡ flatten (between 0 g.shared.exp_sequence xs)
    pub stored_are : AllStored xs g.shared.stored

  pub after_call-Holds :
      (g : Growing) (n : ℕ) (out : Shared)
      → Holds g
      → Gathered xs f.count_fits g.shared.exp_sequence (length (rest_of g).mem) n out
      → Holds (after_call g n out)
  after_call-Holds g n out h q =
      let size = length-take g.total_bytes g.data_buf h.inside in
      record {
        inside =
            omega
              (arith, size, q.inside, length-append {0} (take g.total_bytes g.data_buf) out.mem);
        sized = omega (
          arith,
          size,
          h.inside,
          h.sized,
          q.sized,
          length-append {0} (take g.total_bytes g.data_buf) out.mem,
          length-drop g.total_bytes g.data_buf,
        );
        limit = h.limit;
        upto = q.upto;
        written =
            take-append_add (take g.total_bytes g.data_buf) out.mem g.total_bytes n (sym size)
            ∙ ap (◌++◌ (take g.total_bytes g.data_buf)) q.written
            ∙ ap (λ b. b ++ flatten (between g.shared.exp_sequence out.exp_sequence xs)) h.written
            ∙ sym (flatten-append (between 0 g.shared.exp_sequence xs) _)
            ∙ ap flatten (between_join g.shared.exp_sequence out.exp_sequence xs q.from);
        stored_are = q.stored_are;
      }

  pub grow-Holds :
      {malloc : Malloc} (a : Allocates malloc) (g : Growing) {h : Growing}
      → Holds g
      → grow malloc g ≡ some h
      → Holds h
  unfolding grow
  grow-Holds {malloc} a g {h} q e =
      elim (Bool-cases (ltb g.remaining_bytes g.shared.bytes_per_packet)) [
        | inr enough ↦
            let p : some g ≡ some h = rw enough at e in
            let same : g ≡ h = ground arith in subst Holds same q
        | inl small ↦
            by_block (realloc malloc g.data_buf (double_32 g.data_buf_len)) refl (rw small at e)
      ]
    where
      by_block :
          (o : Option (List ℕ))
          → realloc malloc g.data_buf (double_32 g.data_buf_len) ≡ o
          → Option.map
              (λ block. record g {
                data_buf = block;
                data_buf_len = double_32 g.data_buf_len;
                remaining_bytes = sub_32 (double_32 g.data_buf_len) g.total_bytes;
              })
              o
            ≡ some h
          → Holds h
      by_block none w e = absurd (ground arith)
      by_block (some block) w e =
          let (size, limit, front) =
            realloc-eq-some a g.data_buf (double_32 g.data_buf_len)
              (omega (arith, q.sized, q.limit)) w in
          let same : record g {
            data_buf = block;
            data_buf_len = double_32 g.data_buf_len;
            remaining_bytes = sub_32 (double_32 g.data_buf_len) g.total_bytes;
          }
              ≡ h =
            ground arith in
          subst Holds same (record {
            inside = omega (arith, size, q.inside, q.sized, q.limit);
            sized = size;
            limit = limit;
            upto = q.upto;
            written = front g.total_bytes q.inside ∙ q.written;
            stored_are = q.stored_are;
          })
