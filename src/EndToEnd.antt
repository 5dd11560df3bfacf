-- ===== src/EndToEnd.antt =====
-- From `sendPacketizedBuffer` through the load balancer, which takes off its own header, to
-- `getPacketizedBuffer`.
pub mod InOrder
pub mod Tests
use ersap_ejfat.Base.{
  ℕ, zero, suc, ◌+◌, ◌-◌, ◌%◌, ◌^◌, ◌≤◌, ◌<◌, ◌≡◌, refl, sym, ap, ap₂, subst, ◌∙◌, Bool, true,
  false, ◌&&◌, List, [], ◌∷◌, ◌++◌, Option, some, none, ◌==◌, if◌then◌else◌, Bool-cases, inl, inr,
  length, length-append, take, drop, get_elem?, get_elem?-lt, drop-append, flatten, between,
  between_all, ==_iff, ℤ, pos, arith,
}
use ersap_ejfat.Base.Memory.{Run, ok}
use ersap_ejfat.Wire.{lb_header_bytes, set_lb_metadata, set_re_metadata}
use ersap_ejfat.Wire.RoundTrip.{length-set_lb_metadata}
use ersap_ejfat.Packetize.{SendResult, Settings, datagram, incr_32, success, send_packetized_buffer}
use ersap_ejfat.Packetize.Chunks.{AllSized, datagrams_of, is_empty}
use ersap_ejfat.Packetize.Retry.{Sends, send_packetized_buffer-Sends}
use ersap_ejfat.Assemble.{Received, recv_failed, received, Event}
use ersap_ejfat.Assemble.Loop.{Shared, returned, get_packetized_buffer}
use ersap_ejfat.Assemble.Message.{Fits, re_packet, Genuine, lost, arrived}
use ersap_ejfat.Assemble.Safety.{AllGenuine, Gathered, get_packetized_buffer-Gathered}

-- What one receive call may give while only these datagrams are on their way: one of them without
-- the header of the load balancer, or an error.
pub data FromSender (ds : List (List ℕ)) : Received → Type 0 where
  dropped : FromSender ds recv_failed
  forwarded :
      (i : ℕ) (d after : List ℕ) (flags : ℕ)
      → get_elem? ds i ≡ some d
      → FromSender ds (received (drop lb_header_bytes d) after flags)

abbrev pub AllFromSender : List (List ℕ) → List Event → Type 0
AllFromSender ds [] = Unit {0}
AllFromSender ds (e ∷ es) = FromSender ds e.datagram × AllFromSender ds es

pub is_empty-length : (xs : List (List ℕ)) → is_empty xs ≡ (1 == suc (length xs))
is_empty-length [] = refl
is_empty-length (x ∷ xs) = ground arith

pub and_true : (b : Bool) → b ≡ (b && true)
and_true true = refl
and_true false = refl

-- Datagram `i` of a series that begins at sequence number `k`.
datagrams_of-get :
    (c : Settings) (xs : List (List ℕ)) (first : Bool) (k i : ℕ) (d : List ℕ)
    → k + length xs < 2 ^ 32
    → get_elem? (datagrams_of c first k xs) i ≡ some d
    → (chunk : List ℕ) × (get_elem? xs i ≡ some chunk)
      × (d ≡ datagram c (first && (i == 0)) ((suc i == length xs) && c.last_buffer) (k + i) chunk)
unfolding datagrams_of
datagrams_of-get c [] first k i d h e = absurd (cc)
datagrams_of-get c (x ∷ xs) first k zero d h e =
    let head = datagram c first (is_empty xs && c.last_buffer) k x in
    let found : head ≡ d = cc in
    let number : k ≡ k + 0 = omega arith in
    (
      x,
      refl,
      sym found ∙ λ j.
          datagram c (and_true first j) (is_empty-length xs j && c.last_buffer) (number j) x,
    )
datagrams_of-get c (x ∷ xs) first k (suc i) d h e =
    let (chunk, g, whole) = datagrams_of-get c xs false (incr_32 k) i d (omega arith) e in
    let number : incr_32 k + i ≡ k + suc i = omega arith in
    let not_first : false ≡ (first && (suc i == 0)) = ground arith in
    let last : (suc i == length xs) ≡ (suc (suc i) == suc (length xs)) = ground arith in
    (chunk, g, whole ∙ λ j. datagram c (not_first j) (last j && c.last_buffer) (number j) chunk)

-- The load balancer's header is the first 12 bytes.
pub drop-datagram :
    (c : Settings) (first last : Bool) (i : ℕ) (chunk : List ℕ)
    → drop lb_header_bytes (datagram c first last i chunk)
      ≡ set_re_metadata first last c.tick i c.version c.data_id ++ chunk
unfolding datagram
drop-datagram c first last i chunk =
    drop-append (set_lb_metadata c.tick c.version c.protocol) _ 12
      (sym (length-set_lb_metadata c.tick c.version c.protocol))

module _ (c : Settings) (xs : List (List ℕ)) (small : length xs < 2 ^ 32)
    (l : c.last_buffer ≡ true) where
  -- Behind the load balancer the datagrams are those that the receiver expects of the message.
  FromSender-Genuine : (r : Received) → FromSender (datagrams_of c true 0 xs) r → Genuine c xs r
  FromSender-Genuine _ dropped = lost
  FromSender-Genuine _ (forwarded i d after flags e) =
      let (chunk, g, whole) = datagrams_of-get c xs true 0 i d (omega arith) e in
      let number : 0 + i ≡ i = omega arith in
      let last : ((suc i == length xs) && c.last_buffer) ≡ (suc i == length xs) =
        ap (λ b. (suc i == length xs) && b) l ∙ sym (and_true _) in
      let sent_as : d ≡ datagram c (i == 0) (suc i == length xs) i chunk =
        whole ∙ λ j. datagram c (i == 0) (last j) (number j) chunk in
      let bytes : re_packet c (length xs) i chunk ≡ drop lb_header_bytes d = sym (
        ap (drop lb_header_bytes) sent_as
        ∙ drop-datagram c (i == 0) (suc i == length xs) i chunk) in
      subst (λ b. Genuine c xs (received b after flags)) bytes (arrived i chunk after flags g)

  AllFromSender-AllGenuine :
      (es : List Event) → AllFromSender (datagrams_of c true 0 xs) es → AllGenuine c xs es
  AllFromSender-AllGenuine [] g = tt
  AllFromSender-AllGenuine (e ∷ es) g =
      (FromSender-Genuine e.datagram g.0, AllFromSender-AllGenuine es g.1)

pub length-flatten : (m : ℕ) (xs : List (List ℕ)) → AllSized m xs → length xs ≤ length (flatten xs)
length-flatten m [] h = omega arith
length-flatten m (x ∷ xs) h =
    omega (arith, length-append {0} x (flatten xs), length-flatten m xs h.2)

-- One buffer of less than 2 ^ 31 bytes goes out as a whole message, and `sendPacketizedBuffer`
-- returns 0, whatever `sendmsg` answered on the way. Its datagrams reach `getPacketizedBuffer` in any
-- order, with losses, repetitions and receive errors. If that call, which expects sequence number 0
-- and has nothing stored, returns a byte count with the last bit set, the first bytes of its buffer,
-- that many of them, are the bytes that were sent.
pub receive-send :
    (c : Settings) (data_buffer : List ℕ) (m next : ℕ) (answers : List SendResult)
    (ds : List (List ℕ)) (use_recv_from very_first_read : Bool) (buf_len : ℕ) (io : Shared)
    (events : List Event) {n : ℕ} {out : Shared} {rest : List Event}
    → c.tick < 2 ^ 64
    → c.data_id < 2 ^ 16
    → c.last_buffer ≡ true
    → length data_buffer < 2 ^ 31
    → send_packetized_buffer c data_buffer (length data_buffer) (pos m) 0 true answers
      ≡ success next ds
    → AllFromSender ds events
    → io.exp_sequence ≡ 0
    → io.stored ≡ []
    → get_packetized_buffer use_recv_from very_first_read buf_len io events
      ≡ ok (returned (pos n) out rest)
    → out.last ≡ true
    → take n out.mem ≡ data_buffer
receive-send c data_buffer m next answers ds u v len io events {n} {out} {rest} ht hd l h sent
      arrive exp stored got last =
    let (xs, whole, sized, ds_are, _) =
      send_packetized_buffer-Sends c data_buffer m 0 next true answers ds h (omega arith) sent in
    let small : length xs < 2 ^ 32 =
      omega (arith, length-flatten m xs sized, ap (λ (b : List ℕ). length b) whole) in
    let f : Fits c xs = record { tick_fits = ht; data_id_fits = hd; count_fits = small } in
    let genuine =
      AllFromSender-AllGenuine c xs small l events
        (subst (λ d. AllFromSender d events) ds_are arrive) in
    let g =
      get_packetized_buffer-Gathered c xs f u v len io events genuine (omega arith) (rw stored tt)
        got in
    let end : out.exp_sequence ≡ length xs = (==_iff _ _).0 (sym g.last_is ∙ last) in
    g.written
    ∙ ap (λ b. flatten (between b out.exp_sequence xs)) exp
    ∙ ap flatten (between_all xs out.exp_sequence end)
    ∙ whole
