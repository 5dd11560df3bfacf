-- ===== src/Services/Delivery.antt =====
-- From the bytes that ERSAP gives to the packetizer service to the output of the assembler service, with
-- the datagrams in their order.
use ersap_ejfat.Base.{
  replicate, ℕ, ◌+◌, ◌-◌, ◌^◌, ◌≤◌, ◌<◌, ◌≡◌, refl, sym, ap, subst, ◌∙◌, Bool, true, false, not,
  ◌||◌, Option, none, some, List, [], ◌++◌, length, take, drop, take-append-drop, ℤ, pos, arith,
}
use ersap_ejfat.Base.Memory.{ok, ◌>>=◌}
use ersap_ejfat.Packetize.{SendResult, sent, message_too_long, success, send_packetized_buffer}
use ersap_ejfat.Packetize.Chunks.{chunks, datagrams_of}
use ersap_ejfat.Packetize.Retry.{shrink, send_packetized_buffer_finishes}
use ersap_ejfat.Packetize.Mtu.{
  max_payload, resolve_mtu, resolve_mtu-le, positive_payload, send_buffer,
}
use ersap_ejfat.Assemble.{Event}
use ersap_ejfat.Assemble.Store.{free_map}
use ersap_ejfat.Assemble.Loop.{Shared, returned, get_packetized_buffer}
use ersap_ejfat.Assemble.GetBuffer.{
  Malloc, done, fresh, first_block, after_outcome, after_data, copy_loop, copy, get_buffer,
}
use ersap_ejfat.Assemble.GetBuffer.Blocks.{Allocates}
use ersap_ejfat.EndToEnd.InOrder.{forward_all, receive-send_in_order}
use ersap_ejfat.Plain.Engine.{process, after_get}
use ersap_ejfat.Services.Configure.{Service}
use ersap_ejfat.Services.Packetizer
use ersap_ejfat.Services.Packetizer.{settings, finished}
use ersap_ejfat.Services.RoundTrip.{input, execute-process, process-finished}
use ersap_ejfat.Services.Assembler.{output, given, execute}

-- The first call of `getPacketizedBuffer` has read the last packet: `getBuffer` returns its block.
copy_returns :
    (malloc : Malloc) (last : Bool) (block : List ℕ) (events : List Event) (n : ℕ) (out : Shared)
    → malloc first_block ≡ some block
    → get_packetized_buffer false true first_block
        (record (fresh [] last) { mem = drop 0 block })
        events
      ≡ ok (returned (pos n) out [])
    → out.last ≡ true
    → out.stored ≡ []
    → copy false malloc last events
      ≡ ok (
          done (record {
            value = pos 0;
            user_buf = some (take 0 block ++ out.mem);
            user_buf_len = some (0 + n);
          }))
unfolding copy copy_loop after_outcome after_data free_map
copy_returns malloc last block events n out given_block called is_last empty =
    rw (given_block, copy, called, is_last, empty) refl

-- A value of 0 goes on to the caller, over the zmq socket if there is one.
after_get_buffer :
    (zmq send_ok : Bool) (buf_len n : ℕ) (b : List ℕ)
    → (not zmq || send_ok) ≡ true
    → given (
        after_get zmq send_ok none buf_len
          (done (record { value = pos 0; user_buf = some b; user_buf_len = some n })))
      ≡ output (some b)
unfolding given
after_get_buffer true true buf_len n b goes = refl
after_get_buffer false send_ok buf_len n b goes = refl
after_get_buffer true false buf_len n b goes = let clash : false ≡ true = goes in absurd (cc)

module _ (zmq send_ok : Bool) (malloc : Malloc) (last : Bool) (buf_len : ℕ)
    (goes : (not zmq || send_ok) ≡ true) where
  execute-output :
      (block : List ℕ) (events : List Event) (n : ℕ) (out : Shared)
      → malloc first_block ≡ some block
      → get_packetized_buffer false true first_block
          (record (fresh [] last) { mem = drop 0 block })
          events
        ≡ ok (returned (pos n) out [])
      → out.last ≡ true
      → out.stored ≡ []
      → execute zmq send_ok malloc last buf_len events
        ≡ ok (output (some (take 0 block ++ out.mem)))
  unfolding execute process get_buffer
  execute-output block events n out given_block called is_last empty =
      ap (λ m. (m >>= λ r. ok (after_get zmq send_ok none buf_len r)) >>= λ q. ok (given q))
        (copy_returns malloc last block events n out given_block called is_last empty)
      ∙ ap ok (after_get_buffer zmq send_ok buf_len (0 + n) _ goes)

-- ERSAP gives the packetizer service a tick below 2 ^ 32, the number of its data bytes, from 1 to 91056,
-- and the data, and its `process` returns. If the datagrams come to the assembler service in their
-- order, each without the header of the load balancer, and `malloc` gives the first block, and `zmq_send`
-- succeeds if there is a zmq socket, then its `execute` returns, and the block of its output begins with
-- the data.
execute-execute :
    (ioctl : List ℕ → Option ℤ) (s : Service) (tick : ℕ) (bytes : List ℕ)
    (answers : List SendResult) (ds : List (List ℕ)) (zmq send_ok : Bool) (malloc : Malloc)
    (last : Bool) (buf_len : ℕ) (block : List ℕ)
    → tick < 2 ^ 32
    → 0 < length bytes
    → length bytes ≤ 91056
    → s.data_id < 2 ^ 16
    → Packetizer.execute ioctl s (input tick bytes) answers ≡ ok (finished ds)
    → Allocates malloc
    → malloc first_block ≡ some block
    → (not zmq || send_ok) ≡ true
    → (rest : List ℕ) × (execute zmq send_ok malloc last buf_len (forward_all ds)
        ≡ ok (output (some (bytes ++ rest))))
unfolding send_buffer
execute-execute ioctl s tick bytes answers ds zmq send_ok malloc last buf_len block small some_data
      few id_fits ran a given_block goes =
    let (next, went) =
      process-finished _ ds
        (sym (execute-process tick bytes small (omega (arith, few)) ioctl s answers) ∙ ran) in
    let (m, is_mtu, room, payload) =
      positive_payload (settings s tick) bytes (resolve_mtu ioctl s.interface s.mtu) answers next ds
        some_data (omega (arith, few)) went in
    let (n, out, called, is_last, empty, got) =
      receive-send_in_order (settings s tick) bytes (m - 56) next answers ds true first_block
        (record (fresh [] last) { mem = drop 0 block }) (omega (arith, small)) id_fits refl
        some_data (omega (arith, few))
        (subst
          (λ p.
            send_packetized_buffer (settings s tick) bytes (length bytes) p 0 true answers
            ≡ success next ds)
          payload went)
        (omega (arith, few, resolve_mtu-le ioctl s.interface s.mtu m is_mtu))
        (omega (arith, a.sized first_block block given_block)) refl refl in
    let begins : out.mem ≡ bytes ++ drop n out.mem =
      sym (take-append-drop n out.mem) ∙ ap (λ b. b ++ drop n out.mem) got in
    (
      drop n out.mem,
      execute-output zmq send_ok malloc last buf_len goes block (forward_all ds) n out given_block
            called is_last empty
          ∙ ap (λ b. ok (output (some b))) begins,
    )

-- ERSAP gives the packetizer service a tick below 2 ^ 32, the number of its data bytes, from 1 to 91056,
-- and the data. Its MTU is one with room for data, `sendmsg` refuses the first packet as too big `k`
-- times, with a payload left after `k` cuts to 80 %, and then sends every packet. The datagrams come to
-- the assembler service in their order, each without the header of the load balancer; `malloc` gives the
-- first block, and `zmq_send` succeeds if there is a zmq socket. Then both calls of `execute` return, and
-- the block of the output begins with the data.
pub execute-execute_returns :
    (ioctl : List ℕ → Option ℤ) (s : Service) (tick : ℕ) (bytes : List ℕ) (u k n : ℕ)
    (zmq send_ok : Bool) (malloc : Malloc) (last : Bool) (buf_len : ℕ) (block : List ℕ)
    → tick < 2 ^ 32
    → 0 < length bytes
    → length bytes ≤ 91056
    → s.data_id < 2 ^ 16
    → resolve_mtu ioctl s.interface s.mtu ≡ pos u
    → 56 ≤ u
    → 0 < shrink k (u - 56)
    → length bytes ≤ n
    → Allocates malloc
    → malloc first_block ≡ some block
    → (not zmq || send_ok) ≡ true
    → (ds : List (List ℕ)) × (rest : List ℕ) × (Packetizer.execute ioctl s
          (input tick bytes)
          (replicate k message_too_long ++ replicate n sent)
        ≡ ok (finished ds))
      × (execute zmq send_ok malloc last buf_len (forward_all ds)
          ≡ ok (output (some (bytes ++ rest))))
unfolding send_buffer Packetizer.process
execute-execute_returns ioctl s tick bytes u k n zmq send_ok malloc last buf_len block small
      some_data few id_fits is_mtu room left enough a given_block goes =
    let answers = replicate k message_too_long ++ replicate n sent in
    let ds = datagrams_of (settings s tick) true 0 (chunks n (shrink k (u - 56)) bytes) in
    let payload : max_payload (resolve_mtu ioctl s.interface s.mtu) ≡ pos (u - 56) =
      ap max_payload is_mtu ∙ ground (arith, room) in
    let went =
      send_packetized_buffer_finishes (settings s tick) bytes (u - 56) 0 k n some_data
        (omega (arith, few)) (omega arith) enough left in
    let ran : Packetizer.execute ioctl s (input tick bytes) answers ≡ ok (finished ds) =
      execute-process tick bytes small (omega (arith, few)) ioctl s answers
      ∙ ap
          (λ p. ok (
            Packetizer.process
              (send_packetized_buffer (settings s tick) bytes (length bytes) p 0 true answers)))
          payload
      ∙ ap (λ o. ok (Packetizer.process o)) went in
    let (rest, got) =
      execute-execute ioctl s tick bytes answers ds zmq send_ok malloc last buf_len block small
        some_data few id_fits ran a given_block goes in
    (ds, rest, ran, got)
