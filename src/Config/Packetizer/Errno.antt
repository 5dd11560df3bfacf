-- ===== src/Config/Packetizer/Errno.antt =====
-- `errno` in `EjfatPacketizeEngine::parseConfigFile`: it is tested behind every `strtol`, and never set
-- to 0 before one.
use ersap_ejfat.Base.{
  ℕ, ◌≡◌, ◌⊎◌, refl, ap, ◌∙◌, false, inl, inr, List, [], ◌∷◌, ◌++◌, some, pos, arith,
}
use ersap_ejfat.Base.Memory.{Run, ok, fault, ◌>>=◌}
use ersap_ejfat.Config.{line_fields}
use ersap_ejfat.Config.Number.{Strtol, erange, same}
use ersap_ejfat.Config.Packetizer.{
  Key, port, mtu, version, delay, protocol, data_id, debug, host, interface, other, keys, key_of,
  Engine, assign, parse_lines, parse_config_file,
}
use ersap_ejfat.Config.Packetizer.Lines.{AllFields, parse_lines-last}

-- What the manual says of `strtol`: it sets errno on an error only; ERANGE if the value is out of range.
abbrev pub KeepsErrno : Strtol → Type 0
KeepsErrno strtol =
    (val : List ℕ) (errno : ℕ) → ((strtol val errno).1 ≡ errno) ⊎ ((strtol val errno).1 ≡ erange)

-- A number that is out of range, and a 0.
abbrev pub IsTooLarge : Strtol → List ℕ → Type 0
IsTooLarge strtol val = (errno : ℕ) → (strtol val errno).1 ≡ erange

abbrev pub IsZero : Strtol → List ℕ → Type 0
IsZero strtol val = (errno : ℕ) → strtol val errno ≡ (pos 0, errno)

abbrev pub data_id_name : List ℕ
data_id_name = b'd' ∷ b'a' ∷ b't' ∷ b'a' ∷ b'I' ∷ b'd' ∷ []

abbrev pub delay_name : List ℕ
delay_name = b'd' ∷ b'e' ∷ b'l' ∷ b'a' ∷ b'y' ∷ []

-- No line sets the data id.
abbrev pub NoDataId : List (List ℕ × List ℕ) → Type 0
NoDataId [] = Unit {0}
NoDataId ((key, val) ∷ kvs) = (same key data_id_name ≡ false) × NoDataId kvs

assign-erange :
    (strtol : Strtol)
    → KeepsErrno strtol
    → (k : Key) (val : List ℕ) (s : ℕ × Engine) → s.0 ≡ erange
    → (assign strtol k val s).0 ≡ erange
unfolding assign
assign-erange strtol keeps k val (errno, e) stale =
    elim k as (λ k. (assign strtol k val (errno, e)).0 ≡ erange) [
      | port ↦ after_strtol
      | mtu ↦ after_strtol
      | version ↦ after_strtol
      | delay ↦ after_strtol
      | protocol ↦ after_strtol
      | data_id ↦ after_strtol
      | debug ↦ stale
      | host ↦ stale
      | interface ↦ stale
      | other ↦ stale
    ]
  where
    after_strtol : (strtol val errno).1 ≡ erange
    after_strtol = elim (keeps val errno) [ inl kept ↦ kept ∙ stale | inr set ↦ set ]

assign-data_id :
    (strtol : Strtol) (key val : List ℕ) (s : ℕ × Engine)
    → same key data_id_name ≡ false
    → (assign strtol (key_of keys key) val s).1.data_id ≡ s.1.data_id
unfolding assign
assign-data_id strtol key val s not_id = ground (arith, not_id)

parse_lines-cons :
    (strtol : Strtol) (line : List ℕ) (lines : List (List ℕ)) (key val : List ℕ) (s : ℕ × Engine)
    → line_fields line ≡ ok (key, val)
    → parse_lines strtol (line ∷ lines) s
      ≡ parse_lines strtol lines (assign strtol (key_of keys key) val s)
unfolding parse_lines
parse_lines-cons strtol line lines key val s e = rw e refl

parse_lines-append :
    (strtol : Strtol) (xs ys : List (List ℕ)) (s t : ℕ × Engine)
    → parse_lines strtol xs s ≡ ok t
    → parse_lines strtol (xs ++ ys) s ≡ parse_lines strtol ys t
unfolding parse_lines
parse_lines-append strtol [] ys s t e = let same : s ≡ t = cc in ap (parse_lines strtol ys) same
parse_lines-append strtol (x ∷ xs) ys s t e =
    by_fields (line_fields x) e (λ s'. parse_lines-append strtol xs ys s' t)
  where
    by_fields :
        (m : Run (List ℕ × List ℕ))
        → (m >>= λ kv. parse_lines strtol xs (assign strtol (key_of keys kv.0) kv.1 s)) ≡ ok t
        → ((s' : ℕ × Engine)
            → parse_lines strtol xs s' ≡ ok t
            → parse_lines strtol (xs ++ ys) s' ≡ parse_lines strtol ys t)
        → (m >>= λ kv. parse_lines strtol (xs ++ ys) (assign strtol (key_of keys kv.0) kv.1 s))
          ≡ parse_lines strtol ys t
    by_fields (fault x) e later = absurd (cc)
    by_fields (ok kv) e later = later _ e

-- Lines with two fields are read, a stale ERANGE stays, and the data id changes only where it is set.
parse_lines-erange :
    (strtol : Strtol)
    → KeepsErrno strtol
    → (lines : List (List ℕ)) (kvs : List (List ℕ × List ℕ)) (s : ℕ × Engine) → AllFields lines kvs
    → s.0 ≡ erange
    → (out : ℕ × Engine) × (parse_lines strtol lines s ≡ ok out) × (out.0 ≡ erange)
unfolding parse_lines
parse_lines-erange strtol keeps [] [] s h e = (s, refl, e)
parse_lines-erange strtol keeps [] (kv ∷ kvs) s h e = absurd h
parse_lines-erange strtol keeps (line ∷ lines) [] s h e = absurd h
parse_lines-erange strtol keeps (line ∷ lines) ((key, val) ∷ kvs) s h e =
    let (out, ran, stale) =
      parse_lines-erange strtol keeps lines kvs (assign strtol (key_of keys key) val s) h.1
        (assign-erange strtol keeps (key_of keys key) val s e) in
    (out, rw h.0 ran, stale)

parse_lines-data_id :
    (strtol : Strtol) (lines : List (List ℕ)) (kvs : List (List ℕ × List ℕ)) (s : ℕ × Engine)
    → AllFields lines kvs
    → NoDataId kvs
    → (out : ℕ × Engine) × (parse_lines strtol lines s ≡ ok out) × (out.1.data_id ≡ s.1.data_id)
unfolding parse_lines
parse_lines-data_id strtol [] [] s h free = (s, refl, refl)
parse_lines-data_id strtol [] (kv ∷ kvs) s h free = absurd h
parse_lines-data_id strtol (line ∷ lines) [] s h free = absurd h
parse_lines-data_id strtol (line ∷ lines) ((key, val) ∷ kvs) s h free =
    let (out, ran, kept) =
      parse_lines-data_id strtol lines kvs (assign strtol (key_of keys key) val s) h.1 free.1 in
    (out, rw h.0 ran, kept ∙ assign-data_id strtol key val s free.0)

-- Let `strtol` set errno on errors only, and let every line of the file have two fields. Let some line
-- set the delay to a number that is out of range, a later line be the last one that sets the data id, and
-- set it to 0, a valid number. Then the file is read to its end, and the data id is 1: nobody cleared
-- errno.
pub parse_config_file_stale_errno :
    (strtol : Strtol) (errno : ℕ) (before between after : List (List ℕ)) (line next : List ℕ)
    (big zero : List ℕ) (kvs kvs' kvs'' : List (List ℕ × List ℕ)) (e : Engine)
    → KeepsErrno strtol
    → AllFields before kvs
    → line_fields line ≡ ok (delay_name, big)
    → IsTooLarge strtol big
    → AllFields between kvs'
    → line_fields next ≡ ok (data_id_name, zero)
    → IsZero strtol zero
    → AllFields after kvs''
    → NoDataId kvs''
    → (out : ℕ × Engine) × (parse_config_file strtol errno
          (some (before ++ line ∷ (between ++ next ∷ after)))
          e
        ≡ ok out)
      × (out.1.data_id ≡ 1)
unfolding parse_config_file
parse_config_file_stale_errno strtol errno before between after line next big zero kvs kvs' kvs'' e
      keeps h at_delay large h' at_id is_zero h'' free =
    let (s, ran, _, _, _) = parse_lines-last strtol before kvs (errno, e) h in
    let (t, ran', stale) =
      parse_lines-erange strtol keeps between kvs' (assign strtol delay big s) h'
        (unfold assign in large s.0) in
    let one : (assign strtol data_id zero t).1.data_id ≡ 1 =
      unfold assign in rw (is_zero t.0, stale) refl in
    let (out, ran'', kept) =
      parse_lines-data_id strtol after kvs'' (assign strtol data_id zero t) h'' free in
    (
      out,
      parse_lines-append strtol before _ _ s ran
          ∙ parse_lines-cons strtol line _ delay_name big s at_delay
          ∙ parse_lines-append strtol between _ _ t ran'
          ∙ parse_lines-cons strtol next _ data_id_name zero t at_id
          ∙ ran'',
      kept ∙ one,
    )
