-- ===== src/Config/Sources.antt =====
-- `EjfatAssembleEtEngine` of ejfat_assemble_et_engine.cpp: the ids in its configuration, and `process`.
pub mod Handles
pub mod Ids
pub mod Never
pub mod Tests
use ersap_ejfat.Base.{
  ℕ, zero, suc, ◌+◌, ◌-◌, ◌<◌, ◌≤◌, ◌==◌, ◌≡◌, refl, sym, ap, ◌∙◌, Bool, true, false, ltb,
  Bool-cases, inl, inr, Option, none, some, List, [], ◌∷◌, ◌++◌, append_assoc, length,
  length-append, take, drop, if◌then◌else◌, ℤ, pos, negsuc, arith,
}
use ersap_ejfat.Base.Memory.{Run, ok, fault, overrun, ◌>>=◌}
use ersap_ejfat.Config.{split, line_fields}
use ersap_ejfat.Config.Number.{Strtol, unsigned_or, same, says_true}
use ersap_ejfat.EtAssemble.{Ended, waits, thrown, returned}

abbrev pub max_source_ids : ℕ
max_source_ids = 1024

-- `ids[i] = …`
abbrev pub set_nth : List ℤ → ℕ → ℤ → List ℤ
set_nth [] i a = []
set_nth (x ∷ xs) zero a = a ∷ xs
set_nth (x ∷ xs) (suc i) a = let rest = set_nth xs i a in x ∷ rest

-- The loop over the parts; `atoi` is the library's.
unfoldable pub store_ids : (List ℕ → ℤ) → ℕ → List (List ℕ) → List ℤ → Run (List ℤ)
store_ids atoi i [] ids = ok ids
store_ids atoi i (part ∷ parts) ids =
    if ltb i max_source_ids
    then store_ids atoi (suc i) parts (set_nth ids i (atoi part))
    else fault overrun

-- The members that the file sets.
pub record Engine : Type 0 where
  pub port : ℕ
  pub et_name : List ℕ
  pub ids : List ℤ
  pub id_count : ℕ
  pub debug : Bool

pub data Key : Type 0 where
  port et_name ids debug other : Key

abbrev pub key_of : List ℕ → Key
key_of key =
    if same key (b'p' ∷ b'o' ∷ b'r' ∷ b't' ∷ [])
    then port
    else if same key (b'e' ∷ b't' ∷ b'N' ∷ b'a' ∷ b'm' ∷ b'e' ∷ [])
    then et_name
    else if same key (b'i' ∷ b'd' ∷ b's' ∷ [])
    then ids
    else if same key (b'd' ∷ b'e' ∷ b'b' ∷ b'u' ∷ b'g' ∷ [])
    then debug
    else other

-- The ids are separated by commas.
unfoldable pub read_ids : (List ℕ → ℤ) → List ℕ → Engine → Run Engine
read_ids atoi val e =
    let parts = split val 44 in
    store_ids atoi 0 parts e.ids >>= λ ids. ok (record e { ids = ids; id_count = length parts })

unfoldable pub assign : Strtol → (List ℕ → ℤ) → Key → List ℕ → ℕ × Engine → Run (ℕ × Engine)
assign strtol atoi port val (errno, e) =
    let r = strtol val errno in ok (r.1, record e { port = unsigned_or 16 7777 r })
assign strtol atoi et_name val (errno, e) = ok (errno, record e { et_name = val })
assign strtol atoi ids val (errno, e) = read_ids atoi val e >>= λ f. ok (errno, f)
assign strtol atoi debug val (errno, e) =
    ok (errno, record e { debug = if says_true val then true else e.debug })
assign strtol atoi other val s = ok s

unfoldable pub parse_lines : Strtol → (List ℕ → ℤ) → List (List ℕ) → ℕ × Engine → Run (ℕ × Engine)
parse_lines strtol atoi [] s = ok s
parse_lines strtol atoi (line ∷ lines) s = line_fields line >>= λ kv.
    assign strtol atoi (key_of kv.0) kv.1 s >>= λ t. parse_lines strtol atoi lines t

unfoldable pub parse_config_file :
    Strtol → (List ℕ → ℤ) → ℕ → Option (List (List ℕ)) → Engine → Run (ℕ × Engine)
parse_config_file strtol atoi errno none e = ok (errno, e)
parse_config_file strtol atoi errno (some lines) e = parse_lines strtol atoi lines (errno, e)

-- How `process` ends: it returns, the program exits, an exception leaves it, or it waits.
pub data Processed : Type 0 where
  finished exits throws waiting : Processed

unfoldable pub process : Ended → Processed
process waits = waiting
process thrown = throws
process (returned (pos n)) = finished
process (returned (negsuc k)) = exits
