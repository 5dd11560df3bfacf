-- ===== src/Config/Sources/Handles.antt =====
-- The constructor and the destructor of `EjfatAssembleEtEngine` of ejfat_assemble_et_engine.cpp, with
-- the handles that the process has open.
use ersap_ejfat.Base.{
  ℕ, ◌+◌, ◌≤◌, ◌==◌, ◌≡◌, ap, Bool, true, false, Bool-cases, inl, inr, Option, none, some, List, [],
  ◌∷◌, if◌then◌else◌, ℤ, arith,
}
use ersap_ejfat.Base.Memory.{Run, ok, ◌>>=◌}
use ersap_ejfat.Config.Number.{Strtol}
use ersap_ejfat.Config.Sources.{Engine, parse_config_file}

-- What the system answers: `socket`, `bind`, `et_open` of a name and `et_fifo_openProducer` of a
-- system, an array of ids and their number; `none` is an error.
pub record System : Type 0 where
  pub socket : Option ℕ
  pub bound : Bool
  pub et_open : List ℕ → Option ℕ
  pub et_fifo_open : ℕ → List ℤ → ℕ → Option ℕ

pub data Handle : Type 0 where
  udp et_system et_fifo : ℕ → Handle

-- The members `sock`, `id` and `fid`.
pub record Handles : Type 0 where
  pub sock : Option ℕ
  pub id : ℕ
  pub fid : ℕ

-- `et_open` and `et_fifo_openProducer`; the program exits if one fails.
unfoldable pub open_et : System → List ℕ → List ℤ → ℕ → Option Handles
open_et system et_name ids id_count = elim (system.et_open et_name) [
  | none ↦ none
  | some id ↦ elim (system.et_fifo_open id ids id_count) [
    | none ↦ none
    | some fid ↦ some (record { sock = system.socket; id = id; fid = fid })
  ]
]

-- What `socket` opened, and what all three calls opened.
abbrev pub with_udp : Option ℕ → List Handle → List Handle
with_udp none w = w
with_udp (some sock) w = udp sock ∷ w

abbrev pub with_handles : Handles → List Handle → List Handle
with_handles h w = et_fifo h.fid ∷ et_system h.id ∷ with_udp h.sock w

pub data Constructed : Type 0 where
  constructed : Engine → Handles → Constructed
  stopped : Constructed

-- The defaults; the ids and their number are not set.
abbrev pub initial : Engine → Engine
initial raw = record raw { port = 7777; et_name = []; debug = false }

-- An error of `bind` is passed over.
unfoldable pub construct :
    Strtol → (List ℕ → ℤ) → ℕ → Option (List (List ℕ)) → Engine → System → Run Constructed
construct strtol atoi errno file raw system =
    parse_config_file strtol atoi errno file (initial raw) >>= λ r.
    ok (elim (open_et system r.1.et_name r.1.ids r.1.id_count) [
      | none ↦ stopped
      | some h ↦ constructed r.1 h
    ])

abbrev pub same_handle : Handle → Handle → Bool
same_handle (udp a) (udp b) = a == b
same_handle (et_system a) (et_system b) = a == b
same_handle (et_fifo a) (et_fifo b) = a == b
same_handle _ _ = false

-- `et_fifo_close` and `et_close`.
unfoldable pub close : Handle → List Handle → List Handle
close h [] = []
close h (g ∷ w) = let rest = close h w in if same_handle h g then w else g ∷ rest

-- The socket is not closed.
unfoldable pub destroy : Handles → List Handle → List Handle
destroy h w = close (et_system h.id) (close (et_fifo h.fid) w)

-- How often a handle is open.
abbrev pub one_if : Bool → ℕ
one_if false = 0
one_if true = 1

abbrev pub count : Handle → List Handle → ℕ
count h [] = 0
count h (g ∷ w) = let rest = count h w in one_if (same_handle h g) + rest

pub same_handle_eq : (a b : Handle) → same_handle a b ≡ true → a ≡ b
same_handle_eq (udp a) (udp b) e = ground arith
same_handle_eq (et_system a) (et_system b) e = ground arith
same_handle_eq (et_fifo a) (et_fifo b) e = ground arith
same_handle_eq (udp a) (et_system b) e = absurd (ground arith)
same_handle_eq (udp a) (et_fifo b) e = absurd (ground arith)
same_handle_eq (et_system a) (udp b) e = absurd (ground arith)
same_handle_eq (et_system a) (et_fifo b) e = absurd (ground arith)
same_handle_eq (et_fifo a) (udp b) e = absurd (ground arith)
same_handle_eq (et_fifo a) (et_system b) e = absurd (ground arith)

-- Closing a handle that is open leaves one copy of it less, and the others.
pub count-close :
    (x h : Handle) (w : List Handle)
    → 1 ≤ count h w
    → count x (close h w) + one_if (same_handle x h) ≡ count x w
unfolding close
count-close x h [] h1 = absurd (omega (arith, h1))
count-close x h (g ∷ w) h1 = elim (Bool-cases (same_handle h g)) [
  | inl same ↦
      let e : h ≡ g = same_handle_eq h g same in
      let s : same_handle x h ≡ same_handle x g = ap (same_handle x) e in rw (same, s) (omega arith)
  | inr other ↦
      let there = rw other at h1 in
      let later : 1 ≤ count h w = omega (arith, there) in
      let rest = count-close x h w later in rw other (omega (arith, rest))
]
