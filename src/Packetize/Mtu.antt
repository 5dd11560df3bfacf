-- ===== src/Packetize/Mtu.antt =====
-- `getMTU` and `sendBuffer`: the largest UDP payload that the interface can take, and one call of
-- `sendPacketizedBuffer` for the whole buffer. The socket calls return no value that is used; a
-- string is a list of bytes.
use ersap_ejfat.Base.{
  ℕ, zero, suc, ◌+◌, ◌-◌, ◌^◌, ◌≤◌, ◌<◌, ◌≡◌, refl, sym, subst, Bool, true, false, Option, none,
  some, List, [], ◌∷◌, ◌++◌, ltb, ltb→lt, if◌then◌else◌, Bool-cases, inl, inr, length,
  length-append, ℤ, pos, negsuc, arith,
}
use ersap_ejfat.Wire.{set_lb_metadata, set_re_metadata}
use ersap_ejfat.Wire.RoundTrip.{length-set_lb_metadata, length-set_re_metadata}
use ersap_ejfat.Packetize.{
  SendResult, Settings, Outcome, success, datagram, incr_32, round, send_packetized_buffer,
}
use ersap_ejfat.Packetize.Chunks.{AllSized, datagrams_of}
use ersap_ejfat.Packetize.Retry.{
  Sends, send_packetized_buffer-Sends, send_packetized_buffer_livelock,
}

-- `getMTU`: what the ioctl says, if it succeeds, and 1500 otherwise.
unfoldable pub get_mtu : Option ℤ → ℤ
get_mtu none = pos 1500
get_mtu (some mtu) = mtu

abbrev eth0 : List ℕ
eth0 = b'e' ∷ b't' ∷ b'h' ∷ b'0' ∷ []

abbrev local_host : List ℕ
local_host = b'1' ∷ b'2' ∷ b'7' ∷ b'.' ∷ b'0' ∷ b'.' ∷ b'0' ∷ b'.' ∷ b'1' ∷ []

-- `if (host.empty()) host = …`
unfoldable pub or_default : List ℕ → List ℕ → List ℕ
or_default [] default = default
or_default (c ∷ cs) default = c ∷ cs

-- The MTU that is used: the caller's, or the interface's if that is 0; at most 9000, and 1400 if it
-- is still 0. `ioctl` is the kernel's answer to SIOCGIFMTU for an interface.
clamp_mtu : ℤ → ℤ
clamp_mtu (pos zero) = pos 1400
clamp_mtu (pos (suc m)) = if ltb 9000 (suc m) then pos 9000 else pos (suc m)
clamp_mtu (negsuc m) = negsuc m

unfoldable pub resolve_mtu : (List ℕ → Option ℤ) → List ℕ → ℤ → ℤ
unfolding clamp_mtu get_mtu or_default
resolve_mtu ioctl interface (pos zero) = clamp_mtu (get_mtu (ioctl (or_default interface eth0)))
resolve_mtu ioctl interface (pos (suc m)) = clamp_mtu (pos (suc m))
resolve_mtu ioctl interface (negsuc m) = clamp_mtu (negsuc m)

-- `mtu - 20 - 8 - HEADER_BYTES`, with the 28 bytes of both headers.
abbrev pub max_payload : ℤ → ℤ
max_payload (pos m) = if ltb m 56 then negsuc (55 - m) else pos (m - 56)
max_payload (negsuc m) = negsuc (m + 56)

-- `buffer` is the memory from the pointer on. The host that the datagrams go to, and what `sendPacketizedBuffer` returns.
unfoldable pub send_buffer :
    (List ℕ → Option ℤ)
    → Settings
    → List ℕ
    → ℕ
    → List ℕ
    → List ℕ
    → ℤ
    → List SendResult
    → List ℕ × Outcome
send_buffer ioctl c buffer buf_len host interface mtu answers =
    let payload = max_payload (resolve_mtu ioctl interface mtu) in
    (
      or_default host local_host,
      send_packetized_buffer (record c { last_buffer = true }) buffer buf_len payload 0 true
          answers,
    )

-- Every datagram, with 20 bytes of IPv4 and 8 bytes of UDP header, fits in `mtu` bytes.
abbrev pub AllFit : ℕ → List (List ℕ) → Type 0
AllFit mtu [] = Unit {0}
AllFit mtu (d ∷ ds) = (20 + 8 + length d ≤ mtu) × AllFit mtu ds

length-datagram :
    (c : Settings) (first last : Bool) (sequence : ℕ) (bytes : List ℕ)
    → length (datagram c first last sequence bytes) ≡ 28 + length bytes
unfolding datagram
length-datagram c first last sequence bytes = omega (
  arith,
  length-append {0} (set_lb_metadata c.tick c.version c.protocol)
      (set_re_metadata first last c.tick sequence c.version c.data_id ++ bytes),
  length-append {0} (set_re_metadata first last c.tick sequence c.version c.data_id) bytes,
  length-set_lb_metadata c.tick c.version c.protocol,
  length-set_re_metadata first last c.tick sequence c.version c.data_id,
)

datagrams_of-AllFit :
    (c : Settings) (m : ℕ) (xs : List (List ℕ)) (first : Bool) (sequence : ℕ)
    → AllSized m xs
    → AllFit (m + 56) (datagrams_of c first sequence xs)
unfolding datagrams_of
datagrams_of-AllFit c m [] first sequence h = tt
datagrams_of-AllFit c m (x ∷ xs) first sequence h = (
  omega (arith, length-datagram c first _ sequence x),
  datagrams_of-AllFit c m xs false (incr_32 sequence) h.2,
)

-- With a negative payload limit nothing is ever sent.
negative_waits :
    (c : Settings) (buffer : List ℕ) (m next : ℕ) (ds : List (List ℕ))
    → 0 < length buffer
    → length buffer < 2 ^ 31
    → send_packetized_buffer c buffer (length buffer) (negsuc m) 0 true [] ≡ success next ds
    → ⊥
unfolding send_packetized_buffer
negative_waits c buffer m next ds h k e = ground arith

negative_fails :
    (c : Settings) (buffer : List ℕ) (m : ℕ) (a : SendResult) (answers : List SendResult) (next : ℕ)
    (ds : List (List ℕ))
    → 0 < length buffer
    → length buffer < 2 ^ 31
    → send_packetized_buffer c buffer (length buffer) (negsuc m) 0 true (a ∷ answers)
      ≡ success next ds
    → ⊥
unfolding send_packetized_buffer round
negative_fails c buffer m a answers next ds h k e = ground arith

negative_payload :
    (c : Settings) (buffer : List ℕ) (m : ℕ) (answers : List SendResult) (next : ℕ)
    (ds : List (List ℕ))
    → 0 < length buffer
    → length buffer < 2 ^ 31
    → send_packetized_buffer c buffer (length buffer) (negsuc m) 0 true answers ≡ success next ds
    → ⊥
negative_payload c buffer m [] next ds h k e = negative_waits c buffer m next ds h k e
negative_payload c buffer m (a ∷ answers) next ds h k e =
    negative_fails c buffer m a answers next ds h k e

clamp_mtu-le : (mtu : ℤ) (u : ℕ) → clamp_mtu mtu ≡ pos u → u ≤ 9000
unfolding clamp_mtu
clamp_mtu-le (pos zero) u e = ground arith
clamp_mtu-le (pos (suc m)) u e = ground arith
clamp_mtu-le (negsuc m) u e = ground arith

pub resolve_mtu-le :
    (ioctl : List ℕ → Option ℤ) (interface : List ℕ) (mtu : ℤ) (u : ℕ)
    → resolve_mtu ioctl interface mtu ≡ pos u
    → u ≤ 9000
unfolding resolve_mtu
resolve_mtu-le ioctl interface (pos zero) u e =
    clamp_mtu-le (get_mtu (ioctl (or_default interface eth0))) u e
resolve_mtu-le ioctl interface (pos (suc m)) u e = clamp_mtu-le (pos (suc m)) u e
resolve_mtu-le ioctl interface (negsuc m) u e = clamp_mtu-le (negsuc m) u e

-- A limit that lets a call on a buffer with data end with 0 leaves room for data.
pub positive_payload :
    (c : Settings) (buffer : List ℕ) (mtu : ℤ) (answers : List SendResult) (next : ℕ)
    (ds : List (List ℕ))
    → 0 < length buffer
    → length buffer < 2 ^ 31
    → send_packetized_buffer c buffer (length buffer) (max_payload mtu) 0 true answers
      ≡ success next ds
    → (u : ℕ) × (mtu ≡ pos u) × (56 < u) × (max_payload mtu ≡ pos (u - 56))
positive_payload c buffer (negsuc m) answers next ds h k e =
    absurd (negative_payload c buffer (m + 56) answers next ds h k e)
positive_payload c buffer (pos m) answers next ds h k e = elim (Bool-cases (ltb 56 m)) [
  | inl room ↦ (m, refl, ltb→lt _ _ room, ground arith)
  | inr tight ↦ elim (Bool-cases (ltb m 56)) [
    | inl below ↦
        let p : max_payload (pos m) ≡ negsuc (55 - m) = ground arith in
        absurd (negative_payload c buffer (55 - m) answers next ds h k (subst Ends p e))
    | inr level ↦
        let p : max_payload (pos m) ≡ pos 0 = ground arith in
        absurd (
          (send_packetized_buffer_livelock c buffer 0 0 true h k (omega arith)).0 answers next ds
            (subst Ends p e))
  ]
]
  where
    Ends : ℤ → Type 0
    Ends payload =
        send_packetized_buffer c buffer (length buffer) payload 0 true answers ≡ success next ds

-- `sendBuffer` on a buffer of 1 to 2 ^ 31 - 1 bytes, if it returns 0: the MTU in use lies between 57
-- and 9000, every datagram with its IP and UDP headers fits in it, and the datagrams carry the whole
-- buffer as one series, from sequence number 0, the first and the last bit at its ends.
pub send_buffer-AllFit :
    (ioctl : List ℕ → Option ℤ) (c : Settings) (buffer host interface : List ℕ) (mtu : ℤ)
    (answers : List SendResult) (next : ℕ) (ds : List (List ℕ))
    → 0 < length buffer
    → length buffer < 2 ^ 31
    → (send_buffer ioctl c buffer (length buffer) host interface mtu answers).1 ≡ success next ds
    → (u : ℕ) × (resolve_mtu ioctl interface mtu ≡ pos u)
      × (56 < u)
      × (u ≤ 9000)
      × AllFit u ds
      × Sends (record c { last_buffer = true }) (u - 56) true 0 buffer [] next ds
unfolding send_buffer
send_buffer-AllFit ioctl c buffer host interface mtu answers next ds h k e =
    let c' = record c { last_buffer = true } in
    let (u, m, room, p) =
      positive_payload c' buffer (resolve_mtu ioctl interface mtu) answers next ds h k e in
    let s = send_packetized_buffer-Sends c' buffer (u - 56) 0 next true answers ds k (omega arith) (
      subst
        (λ payload.
          send_packetized_buffer c' buffer (length buffer) payload 0 true answers ≡ success next ds)
        p e) in
    let whole : u - 56 + 56 ≡ u = omega arith in
    let fit : AllFit u (datagrams_of c' true 0 s.0) =
      rw whole at (datagrams_of-AllFit c' (u - 56) s.0 true 0 s.2) in
    (u, m, room, resolve_mtu-le ioctl interface mtu u m, subst (AllFit u) (sym s.3) fit, s)
