-- ===== src/Config/Packetizer/Lines.antt =====
-- What a configuration file sets: the last line of a name decides.
use ersap_ejfat.Base.{
  ℕ, ==_iff, ◌&&◌, ◌≡◌, refl, ap, ap₂, ◌∙◌, Bool, true, Bool-cases, inl, inr, some, List, [], ◌∷◌,
  if◌then◌else◌, arith,
}
use ersap_ejfat.Base.Memory.{ok}
use ersap_ejfat.Config.{line_fields}
use ersap_ejfat.Config.Number.{Strtol, same, says_true}
use ersap_ejfat.Config.Packetizer.{keys, key_of, Engine, assign, parse_lines, parse_config_file}

-- The fields of the lines.
abbrev pub AllFields : List (List ℕ) → List (List ℕ × List ℕ) → Type 0
AllFields [] [] = Unit {0}
AllFields [] (kv ∷ kvs) = ⊥
AllFields (line ∷ lines) [] = ⊥
AllFields (line ∷ lines) (kv ∷ kvs) = (line_fields line ≡ ok kv) × AllFields lines kvs

-- The value of the last line of a name, `value` if there is none.
abbrev pub last_value : List ℕ → List (List ℕ × List ℕ) → List ℕ → List ℕ
last_value name [] value = value
last_value name ((key, val) ∷ kvs) value =
    last_value name kvs (if same key name then val else value)

abbrev pub host_name : List ℕ
host_name = b'h' ∷ b'o' ∷ b's' ∷ b't' ∷ []

abbrev pub interface_name : List ℕ
interface_name = b'i' ∷ b'n' ∷ b't' ∷ b'e' ∷ b'r' ∷ b'f' ∷ b'a' ∷ b'c' ∷ b'e' ∷ []

abbrev pub debug_name : List ℕ
debug_name = b'd' ∷ b'e' ∷ b'b' ∷ b'u' ∷ b'g' ∷ []

same-eq : (s t : List ℕ) → same s t ≡ true → s ≡ t
same-eq [] [] h = refl
same-eq [] (d ∷ ds) h = absurd (cc)
same-eq (c ∷ cs) [] h = absurd (cc)
same-eq (c ∷ cs) (d ∷ ds) h = ap₂ ◌∷◌ ((==_iff c d).0 (ground arith)) (same-eq cs ds (ground arith))

assign-host :
    (strtol : Strtol) (key val : List ℕ) (s : ℕ × Engine)
    → (assign strtol (key_of keys key) val s).1.host
      ≡ (if same key host_name then val else s.1.host)
unfolding assign
assign-host strtol key val s = elim (Bool-cases (same key host_name)) [
  | inl own ↦ let e = same-eq key host_name own in rw (own, e) refl
  | inr not_own ↦ ground arith
]

assign-interface :
    (strtol : Strtol) (key val : List ℕ) (s : ℕ × Engine)
    → (assign strtol (key_of keys key) val s).1.interface
      ≡ (if same key interface_name then val else s.1.interface)
unfolding assign
assign-interface strtol key val s = elim (Bool-cases (same key interface_name)) [
  | inl own ↦ let e = same-eq key interface_name own in rw (own, e) refl
  | inr not_own ↦ ground arith
]

-- Some line of the name says "true" or "on".
abbrev pub any_true : List ℕ → List (List ℕ × List ℕ) → Bool → Bool
any_true name [] value = value
any_true name ((key, val) ∷ kvs) value =
    any_true name kvs (if same key name && says_true val then true else value)

assign-debug :
    (strtol : Strtol) (key val : List ℕ) (s : ℕ × Engine)
    → (assign strtol (key_of keys key) val s).1.debug
      ≡ (if same key debug_name && says_true val then true else s.1.debug)
unfolding assign
assign-debug strtol key val s = elim (Bool-cases (same key debug_name)) [
  | inl own ↦ let e = same-eq key debug_name own in rw (own, e) refl
  | inr not_own ↦ rw not_own (ground arith)
]

pub parse_lines-last :
    (strtol : Strtol) (lines : List (List ℕ)) (kvs : List (List ℕ × List ℕ)) (s : ℕ × Engine)
    → AllFields lines kvs
    → (out : ℕ × Engine) × (parse_lines strtol lines s ≡ ok out)
      × (out.1.host ≡ last_value host_name kvs s.1.host)
      × (out.1.interface ≡ last_value interface_name kvs s.1.interface)
      × (out.1.debug ≡ any_true debug_name kvs s.1.debug)
unfolding parse_lines
parse_lines-last strtol [] [] s h = (s, refl, refl, refl, refl)
parse_lines-last strtol [] (kv ∷ kvs) s h = absurd h
parse_lines-last strtol (line ∷ lines) [] s h = absurd h
parse_lines-last strtol (line ∷ lines) ((key, val) ∷ kvs) s h =
    let (out, ran, at_host, at_interface, at_debug) =
      parse_lines-last strtol lines kvs (assign strtol (key_of keys key) val s) h.1 in
    (
      out,
      rw h.0 ran,
      at_host ∙ ap (last_value host_name kvs) (assign-host strtol key val s),
      at_interface ∙ ap (last_value interface_name kvs) (assign-interface strtol key val s),
      at_debug ∙ ap (any_true debug_name kvs) (assign-debug strtol key val s),
    )

-- If every line has two fields, the file is read to its end, whatever numbers are in it: host and
-- interface are what the last line of that name says, or what they were before, and debug is on if it
-- was on before or some line of it says so.
pub parse_config_file-last :
    (strtol : Strtol) (errno : ℕ) (lines : List (List ℕ)) (kvs : List (List ℕ × List ℕ))
    (e : Engine)
    → AllFields lines kvs
    → (out : ℕ × Engine) × (parse_config_file strtol errno (some lines) e ≡ ok out)
      × (out.1.host ≡ last_value host_name kvs e.host)
      × (out.1.interface ≡ last_value interface_name kvs e.interface)
      × (out.1.debug ≡ any_true debug_name kvs e.debug)
unfolding parse_config_file
parse_config_file-last strtol errno lines kvs e h = parse_lines-last strtol lines kvs (errno, e) h
