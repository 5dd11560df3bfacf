-- ===== src/EndToEnd/InOrder.antt =====
-- A whole buffer from `sendPacketizedBuffer` to `getPacketizedBuffer`, with the datagrams in their
-- order.
use ersap_ejfat.Base.{
  ℕ, suc, ◌+◌, ◌^◌, ◌≤◌, ◌<◌, ◌≡◌, refl, sym, ap, ◌∙◌, Bool, true, false, ◌&&◌, List, [], ◌∷◌, ◌++◌,
  ◌==◌, length, take, drop, flatten, pos, arith,
}
use ersap_ejfat.Base.Memory.{ok}
use ersap_ejfat.Wire.{lb_header_bytes, set_re_metadata}
use ersap_ejfat.Packetize.{SendResult, Settings, datagram, incr_32, success, send_packetized_buffer}
use ersap_ejfat.Packetize.Chunks.{datagrams_of, is_empty}
use ersap_ejfat.Packetize.Retry.{send_packetized_buffer-Sends}
use ersap_ejfat.Assemble.{Event}
use ersap_ejfat.Assemble.Loop.{Shared, returned, get_packetized_buffer}
use ersap_ejfat.Assemble.Message.{Fits, re_packet}
use ersap_ejfat.Assemble.InOrder.{arrivals, get_packetized_buffer_returns}
use ersap_ejfat.Assemble.InOrder.Steps.{event_of}
use ersap_ejfat.EndToEnd.{and_true, is_empty-length, drop-datagram, length-flatten}

-- The load balancer takes its header off each datagram.
abbrev pub forward_all : List (List ℕ) → List Event
forward_all [] = []
forward_all (d ∷ ds) = event_of (drop lb_header_bytes d) ∷ forward_all ds

forward_all-datagrams_of :
    (c : Settings) (first : Bool) (k n : ℕ) (ys : List (List ℕ))
    → c.last_buffer ≡ true
    → first ≡ (k == 0)
    → k + length ys ≡ n
    → n < 2 ^ 32
    → forward_all (datagrams_of c first k ys) ≡ arrivals c n k ys
unfolding datagrams_of
forward_all-datagrams_of c first k n [] l f e h = refl
forward_all-datagrams_of c first k n (y ∷ ys) l f e h =
    let next : incr_32 k ≡ suc k = omega (arith, e, h) in
    let last : (is_empty ys && c.last_buffer) ≡ (suc k == n) =
      ap (λ b. is_empty ys && b) l
      ∙ sym (and_true (is_empty ys))
      ∙ is_empty-length ys
      ∙ (ground (arith, e)) in
    let head : drop lb_header_bytes (datagram c first (is_empty ys && c.last_buffer) k y)
        ≡ re_packet c n k y =
      drop-datagram c first (is_empty ys && c.last_buffer) k y ∙ λ j.
      set_re_metadata (f j) (last j) c.tick k c.version c.data_id ++ y in
    let rest : forward_all (datagrams_of c false (suc k) ys) ≡ arrivals c n (suc k) ys =
      forward_all-datagrams_of c false (suc k) n ys l (ground arith) (omega (arith, e)) h in
    λ j. event_of (head j) ∷ (ap (λ i. forward_all (datagrams_of c false i ys)) next ∙ rest) j

some_chunks : (xs : List (List ℕ)) → 0 < length (flatten xs) → 0 < length xs
some_chunks [] h = h
some_chunks (x ∷ xs) h = omega arith

-- A buffer with data, of less than 2 ^ 31 bytes, goes out as a whole message and
-- `sendPacketizedBuffer` returns 0. If the datagrams come in their order, `getPacketizedBuffer` with
-- `recvmsg`, nothing stored and sequence number 0 expected, on a buffer with room for the data and
-- `m` bytes more, returns with the last bit set and nothing stored, and the bytes that it returns are
-- those of the buffer.
pub receive-send_in_order :
    (c : Settings) (data_buffer : List ℕ) (m next : ℕ) (answers : List SendResult)
    (ds : List (List ℕ)) (very_first_read : Bool) (buf_len : ℕ) (io : Shared)
    → c.tick < 2 ^ 64
    → c.data_id < 2 ^ 16
    → c.last_buffer ≡ true
    → 0 < length data_buffer
    → length data_buffer < 2 ^ 31
    → send_packetized_buffer c data_buffer (length data_buffer) (pos m) 0 true answers
      ≡ success next ds
    → length data_buffer + m ≤ buf_len
    → buf_len ≤ length io.mem
    → io.exp_sequence ≡ 0
    → io.stored ≡ []
    → (n : ℕ) × (out : Shared) × (get_packetized_buffer false very_first_read buf_len io
          (forward_all ds)
        ≡ ok (returned (pos n) out []))
      × (out.last ≡ true)
      × (out.stored ≡ [])
      × (take n out.mem ≡ data_buffer)
receive-send_in_order c data_buffer m next answers ds v len io ht hd l some_data h sent room inside
      exp stored =
    let (xs, whole, sized, ds_are, _) =
      send_packetized_buffer-Sends c data_buffer m 0 next true answers ds h (omega arith) sent in
    let size : length (flatten xs) ≡ length data_buffer = ap (λ (b : List ℕ). length b) whole in
    let small : length xs < 2 ^ 32 = omega (arith, length-flatten m xs sized, size) in
    let f : Fits c xs = record { tick_fits = ht; data_id_fits = hd; count_fits = small } in
    let (n, out, called, last, empty, got) =
      get_packetized_buffer_returns c xs f m v len io sized
        (some_chunks xs (omega (arith, size, some_data))) (omega (arith, size)) inside exp stored in
    let came : arrivals c (length xs) 0 xs ≡ forward_all ds = sym (
      ap forward_all ds_are
      ∙ forward_all-datagrams_of c true 0 (length xs) xs l refl (omega arith) small) in
    (
      n,
      out,
      ap (get_packetized_buffer false v len io) (sym came) ∙ called,
      last,
      empty,
      got ∙ whole,
    )
