-- ===== src/Services/Sources.antt =====
-- `EjfatAssembleEtService::configure` of ejfat_assemble_et_service.cpp, with the split of the ids.
pub mod Lives
mod Leaks
mod Tests
use ersap_ejfat.Base.{
  ℕ, ◌≡◌, Bool, not, ◌||◌, ◌&&◌, leb, Option, none, some, List, [], ◌∷◌, ◌++◌, length, drop,
  if◌then◌else◌, ℤ, arith,
}
use ersap_ejfat.Base.Memory.{Run, ok, fault, overrun, ◌>>=◌}
use ersap_ejfat.Config.{split}
use ersap_ejfat.Config.Sources.{max_source_ids, store_ids}
use ersap_ejfat.Config.Sources.Handles.{System, Handles, open_et}
use ersap_ejfat.Config.Sources.Ids.{map_ids, store_ids-bounded}
use ersap_ejfat.Services.{Json}
use ersap_ejfat.Services.Configure.{configure_sources}

-- The members that the configuration sets.
pub record Members : Type 0 where
  pub port : ℤ
  pub et_name : List ℕ
  pub ids : List ℤ
  pub id_count : ℕ
  pub debug : Bool

pub data Configured : Type 0 where
  configured : Members → Handles → Configured
  exception exited : Configured

-- The program exits if `bind` fails, or ET.
unfoldable pub open_all : System → Members → Configured
open_all system e =
    if system.bound
    then elim (open_et system e.et_name e.ids e.id_count) [
      | none ↦ exited
      | some h ↦ configured e h
    ]
    else exited

-- `ids[idCount++] = std::atoi(s.c_str())` for every part, as in the engine.
abbrev pub fill_ids : (List ℕ → ℤ) → ℕ → List (List ℕ) → List ℤ → Run (List ℤ)
fill_ids = store_ids

-- With an id list that is not empty.
unfoldable pub with_id_list :
    (List ℕ → ℤ) → System → List ℤ → Bool × (List ℕ × (ℤ × List ℕ)) → Run Configured
with_id_list atoi system ids (debug, (et_name, (port, []))) = ok exited
with_id_list atoi system ids (debug, (et_name, (port, c ∷ cs))) =
    let parts = split (c ∷ cs) 44 in
    fill_ids atoi 0 parts ids >>= λ filled. ok (
      open_all system (record {
        port = port;
        et_name = et_name;
        ids = filled;
        id_count = length parts;
        debug = debug;
      }))

unfoldable pub with_config :
    (List ℕ → ℤ) → System → List ℤ → Option (Bool × (List ℕ × (ℤ × List ℕ))) → Run Configured
with_config atoi system ids none = ok exception
with_config atoi system ids (some r) = with_id_list atoi system ids r

-- `ids` is the member array before the call.
unfoldable pub configure : (List ℕ → ℤ) → System → List ℤ → Json → Run Configured
configure atoi system ids config = with_config atoi system ids (configure_sources config)
