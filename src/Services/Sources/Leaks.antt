-- ===== src/Services/Sources/Leaks.antt =====
-- What stays open when an `EjfatAssembleEtService` is gone, and when it cannot be configured.
use ersap_ejfat.Base.{ℕ, ◌+◌, ◌≡◌, refl, ap, Option, none, some, List, [], ℤ, arith}
use ersap_ejfat.Base.Memory.{Run, ok, fault, ◌>>=◌}
use ersap_ejfat.Config.Number.{Strtol}
use ersap_ejfat.Config.Sources.{Engine, parse_config_file}
use ersap_ejfat.Config.Sources.Handles.{
  System, Handle, open_et, with_udp, with_handles, construct, destroy, count,
}
use ersap_ejfat.Services.{Json}
use ersap_ejfat.Services.Sources.{Configured, configured, exception, exited, configure}
use ersap_ejfat.Services.Sources.Lives.{
  Live, ready, throws, exits, make_engine, configure_service, shutdown, count-with_udp,
  count-destroy, configure_service-opened,
}

-- Both sockets of a service, that of its engine first.
abbrev pub with_sockets : Live → List Handle → List Handle
with_sockets l w = with_udp l.engine_handles.sock (with_udp l.handles.sock w)

module _ (strtol : Strtol) (atoi : List ℕ → ℤ) where
  -- The service after one or more calls of `configure` that went well, and what is open and has no
  -- owner any more: what was open before, and of every configuration that was replaced the fifo and
  -- the ET system of the service, and both sockets.
  pub data Lives : Live → List Handle → Type 0 where
    first :
        (own system : System) (errno : ℕ) (file : Option (List (List ℕ))) (raw : Engine)
        (ids : List ℤ) (config : Json) (w : List Handle) (l : Live)
        → configure_service strtol atoi own system errno file raw ids config none w ≡ ok (ready l)
        → Lives l w
    again :
        (own system : System) (errno : ℕ) (file : Option (List (List ℕ))) (raw : Engine)
        (ids : List ℤ) (config : Json) (w : List Handle) (old l : Live)
        → Lives old w
        → configure_service strtol atoi own system errno file raw ids config (some old) []
          ≡ ok (ready l)
        → Lives l (with_udp old.engine_handles.sock (with_handles old.handles w))

  -- All open handles have an owner, or are left over.
  Lives-count :
      (l : Live) (w : List Handle)
      → Lives l w
      → (x : Handle)
      → count x l.opened ≡ count x (with_handles l.engine_handles (with_handles l.handles w))
  Lives-count _ _ (first own system errno file raw ids config w l e) x =
      ap (count x)
        (configure_service-opened strtol atoi own system errno file raw ids config none w l e)
  Lives-count _ _ (again own system errno file raw ids config w old l before e) x =
      let all =
        configure_service-opened strtol atoi own system errno file raw ids config (some old) [] l
          e in
      let rest =
        with_handles l.engine_handles (with_handles l.handles (with_handles old.handles w)) in
      let gone =
        count-destroy old.engine_handles
          (with_handles l.engine_handles (with_handles l.handles old.opened)) rest
          (same (Lives-count old w before)) x in
      omega (
        arith,
        ap (count x) all,
        gone,
        sockets old.engine_handles.sock rest x,
        sockets l.engine_handles.sock (with_handles l.handles (with_handles old.handles w)) x,
        sockets l.handles.sock (with_handles old.handles w) x,
        sockets l.engine_handles.sock
            (with_handles l.handles (with_udp old.engine_handles.sock (with_handles old.handles w)))
            x,
        sockets l.handles.sock (with_udp old.engine_handles.sock (with_handles old.handles w)) x,
        sockets old.engine_handles.sock (with_handles old.handles w) x,
      )
    where
      sockets :
          (sock : Option ℕ) (v : List Handle) (x : Handle)
          → count x (with_udp sock v) ≡ count x (with_udp sock []) + count x v
      sockets sock v x = count-with_udp x sock v

      same :
          ((y : Handle)
            → count y old.opened
              ≡ count y (with_handles old.engine_handles (with_handles old.handles w)))
          → (x : Handle)
          → count x (with_handles l.engine_handles (with_handles l.handles old.opened))
            ≡ count x (
                with_handles old.engine_handles (
                  with_handles l.engine_handles
                    (with_handles l.handles (with_handles old.handles w))))
      same owned x = omega (
        arith,
        owned x,
        sockets l.engine_handles.sock (with_handles l.handles old.opened) x,
        sockets l.handles.sock old.opened x,
        sockets old.engine_handles.sock (with_handles old.handles w) x,
        sockets old.engine_handles.sock
            (with_handles l.engine_handles (with_handles l.handles (with_handles old.handles w))) x,
        sockets l.engine_handles.sock (with_handles l.handles (with_handles old.handles w)) x,
        sockets l.handles.sock (with_handles old.handles w) x,
      )

  -- Let an ET service be configured one or more times, each time with success, and then be destroyed.
  -- Then it has closed its fifo and its ET system of the last configuration, and those of every engine;
  -- but the two UDP sockets of the last configuration are still open, and so are the fifo, the ET system
  -- and both sockets of every configuration before.
  pub shutdown-leaks :
      (l : Live) (w : List Handle)
      → Lives l w
      → (x : Handle) → count x (shutdown l) ≡ count x (with_sockets l w)
  unfolding shutdown
  shutdown-leaks l w h x =
      let k = l.engine_handles in
      let own = count-destroy l.handles l.opened (with_handles k w) (λ y. omega (
        arith,
        Lives-count l w h y,
        count-with_udp y k.sock (with_handles l.handles w),
        count-with_udp y l.handles.sock w,
        count-with_udp y l.handles.sock (with_handles k w),
        count-with_udp y k.sock w,
      )) in
      let both = count-destroy k (destroy l.handles l.opened) (with_udp l.handles.sock w) (λ y.
        omega (
          arith,
          own y,
          count-with_udp y l.handles.sock (with_handles k w),
          count-with_udp y k.sock w,
          count-with_udp y k.sock (with_udp l.handles.sock w),
          count-with_udp y l.handles.sock w,
        )) in
      both x

-- The engine that `configure` makes reads ./assembler_et.yaml. If there is no such file, and ET opens no
-- system without a name, then the ET service is never ready, whatever its own configuration: the program
-- exits where the service would be configured, and otherwise ends as its own part of `configure` does.
pub configure_service_no_file :
    (strtol : Strtol) (atoi : List ℕ → ℤ) (own system : System) (errno : ℕ) (raw : Engine)
    (ids : List ℤ) (config : Json) (old : Option Live) (w : List Handle)
    → system.et_open [] ≡ none
    → configure_service strtol atoi own system errno none raw ids config old w ≡ (
        configure atoi own ids config >>= λ r.
        ok (elim r [ configured m h ↦ exits | exception ↦ throws | exited ↦ exits ]))
unfolding configure_service make_engine construct parse_config_file open_et
configure_service_no_file strtol atoi own system errno raw ids config old w refused =
    by_run (configure atoi own ids config)
  where
    by_run :
        (c : Run Configured)
        → (c >>= λ r. make_engine strtol atoi errno none raw system old w r) ≡ (
            c >>= λ r. ok (elim r [ configured m h ↦ exits | exception ↦ throws | exited ↦ exits ]))
    by_run (fault f) = refl
    by_run (ok exception) = refl
    by_run (ok exited) = refl
    by_run (ok (configured m h)) = rw refused refl
