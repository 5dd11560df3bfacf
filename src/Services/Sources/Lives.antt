-- ===== src/Services/Sources/Lives.antt =====
-- The life of an `EjfatAssembleEtService` of ejfat_assemble_et_service.cpp: `configure` with the engine
-- that it makes, and the destructor.
use ersap_ejfat.Base.{ℕ, ◌+◌, ◌≤◌, ◌≡◌, refl, true, ==_iff, Option, none, some, List, [], ℤ, arith}
use ersap_ejfat.Base.Memory.{Run, ok, fault, ◌>>=◌}
use ersap_ejfat.Config.Number.{Strtol}
use ersap_ejfat.Config.Sources.{Engine}
use ersap_ejfat.Config.Sources.Handles.{
  System, Handle, Handles, udp, et_system, et_fifo, with_udp, with_handles, Constructed,
  constructed, stopped, construct, same_handle, close, destroy, one_if, count, count-close,
}
use ersap_ejfat.Services.{Json}
use ersap_ejfat.Services.Sources.{Members, Configured, configured, exception, exited, configure}

-- The service after `configure`: its members and handles, the engine with its own, and all handles
-- that the process has open.
pub record Live : Type 0 where
  pub members : Members
  pub handles : Handles
  pub engine : Engine
  pub engine_handles : Handles
  pub opened : List Handle

pub data Ready : Type 0 where
  ready : Live → Ready
  throws exits : Ready

-- The engine that was there is destroyed when the new one takes its place.
abbrev pub replace : Option Live → List Handle → List Handle
replace none w = w
replace (some l) w = destroy l.engine_handles w

abbrev opened_before : Option Live → List Handle → List Handle
opened_before none w = w
opened_before (some l) w = l.opened

module _ (strtol : Strtol) (atoi : List ℕ → ℤ) where
  -- `make_shared<EjfatAssembleEtEngine>()` and the store to `engine_`.
  unfoldable pub make_engine :
      ℕ
      → Option (List (List ℕ))
      → Engine
      → System
      → Option Live
      → List Handle
      → Configured
      → Run Ready
  make_engine errno file raw system old w exception = ok throws
  make_engine errno file raw system old w exited = ok exits
  make_engine errno file raw system old w (configured m h) =
      construct strtol atoi errno file raw system >>= λ c. ok (elim c [
        | stopped ↦ exits
        | constructed e k ↦ ready (record {
          members = m;
          handles = h;
          engine = e;
          engine_handles = k;
          opened = replace old (with_handles k (with_handles h (opened_before old w)));
        })
      ])

  -- The whole `configure`: `own` answers its calls, and `system` those of the engine. `old` is the
  -- service if it is configured already, and `w` what else is open.
  unfoldable pub configure_service :
      System
      → System
      → ℕ
      → Option (List (List ℕ))
      → Engine
      → List ℤ
      → Json
      → Option Live
      → List Handle
      → Run Ready
  configure_service own system errno file raw ids config old w =
      configure atoi own ids config >>= λ r. make_engine errno file raw system old w r

-- `~EjfatAssembleEtService`, and after it that of the engine.
unfoldable pub shutdown : Live → List Handle
shutdown l = destroy l.engine_handles (destroy l.handles l.opened)

pub count-with_udp :
    (x : Handle) (sock : Option ℕ) (w : List Handle)
    → count x (with_udp sock w) ≡ count x (with_udp sock []) + count x w
count-with_udp x none w = omega arith
count-with_udp x (some sock) w = omega arith

same_handle_self : (h : Handle) → same_handle h h ≡ true
same_handle_self (udp a) = (==_iff a a).1 refl
same_handle_self (et_system a) = (==_iff a a).1 refl
same_handle_self (et_fifo a) = (==_iff a a).1 refl

-- The destructor of the engine closes what its constructor has opened, but for the socket.
pub count-destroy :
    (h : Handles) (w rest : List Handle)
    → ((x : Handle) → count x w ≡ count x (with_handles h rest))
    → (x : Handle) → count x (destroy h w) ≡ count x (with_udp h.sock rest)
unfolding destroy
count-destroy h w rest same x =
    let fifo_there : 1 ≤ count (et_fifo h.fid) w =
      let s = same (et_fifo h.fid) in
      let self : one_if (same_handle (et_fifo h.fid) (et_fifo h.fid)) ≡ 1 =
        rw (same_handle_self (et_fifo h.fid)) refl in
      omega (arith, s, self) in
    let self : one_if (same_handle (et_system h.id) (et_system h.id)) ≡ 1 =
      rw (same_handle_self (et_system h.id)) refl in
    let system_there : 1 ≤ count (et_system h.id) (close (et_fifo h.fid) w) = omega (
      arith,
      same (et_system h.id),
      self,
      count-close (et_system h.id) (et_fifo h.fid) w fifo_there,
    ) in
    omega (
      arith,
      same x,
      count-close x (et_fifo h.fid) w fifo_there,
      count-close x (et_system h.id) (close (et_fifo h.fid) w) system_there,
    )

module _ (strtol : Strtol) (atoi : List ℕ → ℤ) where
  -- What is open behind a `configure` that went well.
  make_engine-opened :
      (errno : ℕ) (file : Option (List (List ℕ))) (raw : Engine) (system : System)
      (old : Option Live) (w : List Handle) (r : Configured) (l : Live)
      → make_engine strtol atoi errno file raw system old w r ≡ ok (ready l)
      → l.opened
        ≡ replace old (with_handles l.engine_handles (with_handles l.handles (opened_before old w)))
  unfolding make_engine
  make_engine-opened errno file raw system old w exception l e = absurd (ground arith)
  make_engine-opened errno file raw system old w exited l e = absurd (ground arith)
  make_engine-opened errno file raw system old w (configured m h) l e =
      by_engine (construct strtol atoi errno file raw system) e
    where
      by_engine :
          (c : Run Constructed)
          → (c >>= λ c. ok (elim c [
            | stopped ↦ exits
            | constructed e k ↦ ready (record {
              members = m;
              handles = h;
              engine = e;
              engine_handles = k;
              opened = replace old (with_handles k (with_handles h (opened_before old w)));
            })
          ]))
            ≡ ok (ready l)
          → l.opened
            ≡ replace old
                (with_handles l.engine_handles (with_handles l.handles (opened_before old w)))
      by_engine (fault f) e = absurd (ground arith)
      by_engine (ok stopped) e = absurd (ground arith)
      by_engine (ok (constructed g k)) e = ground arith

  pub configure_service-opened :
      (own system : System) (errno : ℕ) (file : Option (List (List ℕ))) (raw : Engine)
      (ids : List ℤ) (config : Json) (old : Option Live) (w : List Handle) (l : Live)
      → configure_service strtol atoi own system errno file raw ids config old w ≡ ok (ready l)
      → l.opened
        ≡ replace old (with_handles l.engine_handles (with_handles l.handles (opened_before old w)))
  unfolding configure_service
  configure_service-opened own system errno file raw ids config old w l e =
      by_run (configure atoi own ids config) e
    where
      by_run :
          (c : Run Configured)
          → (c >>= λ r. make_engine strtol atoi errno file raw system old w r) ≡ ok (ready l)
          → l.opened
            ≡ replace old
                (with_handles l.engine_handles (with_handles l.handles (opened_before old w)))
      by_run (fault f) e = absurd (ground arith)
      by_run (ok r) e = make_engine-opened errno file raw system old w r l e
