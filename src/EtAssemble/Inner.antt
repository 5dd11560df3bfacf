-- ===== src/EtAssemble/Inner.antt =====
-- The inner loop of `getBuffers`: a packet in order, and the stored ones behind it.
use ersap_ejfat.Base.{
  ℕ, zero, suc, ◌+◌, ◌%◌, ◌^◌, Bool, true, false, none, some, List, ltb, if◌then◌else◌, length, ℤ,
}
use ersap_ejfat.Base.Memory.{Run, ok, fault, out_of_fuel, ◌>>=◌, write}
use ersap_ejfat.Assemble.Loop.{incr_32}
use ersap_ejfat.LastBits.{all_last_bits_received}
use ersap_ejfat.EtAssemble.Maps.{Entry, Held, Tables, set_at, set_at_2, set_end, take_held}

-- Where a packet goes: its entry, the next expected number, and the bytes there so far.
pub record Place : Type 0 where
  pub tick : ℕ
  pub data_id : ℕ
  pub entry : Entry
  pub expected : ℕ
  pub total : ℕ

-- How the work on a packet ends: read the next one, a tick is complete and its entry put back into
-- ET, `getBuffers` returns, or an exception leaves it.
pub data Step : Type 0 where
  next : Tables → Step
  handed : ℕ → Entry → Tables → Step
  returns : ℤ → Step
  throws : Step

-- `totalBytesWritten + nBytes > bufSizeMax`, as size_t.
abbrev pub no_room : ℕ → ℕ → ℕ → Bool
no_room buf_size total n = ltb buf_size ((total + n) % 2 ^ 64)

-- What a read of a block gives once the block is freed: C++ leaves it undefined, and it depends on the
-- allocator.
abbrev pub Freed : Type 0
Freed = List ℕ → Run (List ℕ)

-- The data at `readDataFrom` is copied behind what is there, and the counts move on.
unfoldable pub write_data : Tables → Place → Run (List ℕ) → Run (Tables × Place)
write_data s p from = from >>= λ bytes. write (p.entry p.data_id).block p.total bytes >>= λ block.
    let entry =
      set_at p.entry p.data_id (record { block = block; written = p.total + length bytes }) in
    ok (
      record s {
        buffers = set_at s.buffers p.tick (some entry);
        exp_sequence = set_at_2 s.exp_sequence p.tick p.data_id (incr_32 p.expected);
      },
      record p { entry = entry; expected = incr_32 p.expected; total = p.total + length bytes },
    )

-- The last packet of a source: is the tick complete?
unfoldable pub report : List ℕ → Tables → Place → Bool → Bool × Tables
report ids s p false = (false, s)
report ids s p true =
    let r = all_last_bits_received p.tick ids (set_end p.tick p.data_id s.end_condition) in
    (r.0, record s { end_condition = r.1 })

-- Behind a copy: `again` is the next turn of the inner loop, on an early packet.
unfoldable pub after_write : ℕ → (Tables → Held → Run Step) → Place → Bool × Tables → Run Step
after_write buf_size again p (true, s) = ok (handed p.tick p.entry s)
after_write buf_size again p (false, s) = elim (take_held p.expected p.data_id p.tick s.held) [
  | none ↦ ok (next s)
  | some r ↦
      if no_room buf_size p.total (length r.0.bytes)
      then ok throws
      else again (record s { held = r.1 }) r.0
]

-- The inner loop. Every turn but the first takes a packet out of the map, so that fuel above its
-- size is enough. `erase` frees the vector of that packet, and `readDataFrom` points into it.
unfoldable pub drain : Freed → ℕ → List ℕ → ℕ → Tables → Place → Bool → Run (List ℕ) → Run Step
drain freed buf_size ids zero s p last from = fault out_of_fuel
drain freed buf_size ids (suc fuel) s p last from = write_data s p from >>= λ w.
    after_write buf_size (λ t h. drain freed buf_size ids fuel t w.1 h.last (freed h.bytes)) w.1
      (report ids w.0 w.1 last)
