-- ===== src/Checks/Hardening/Confined.antt =====
-- internal/checks/hardening: when all checks of the containers pass.
use keelix.Prelude.{true, false, List, ◌++◌, none, ◌≡◌, Mem}
use keelix.Text.{Text}
use keelix.Intel.Capabilities.{dangerous_cap}
use keelix.Model.Finding.{Finding}
use keelix.Model.Stack.{Service, mounts_docker_socket, runs_as_root}
use keelix.Model.Scan.{ScanContext}
use keelix.Checks.{Formats, services_of}
use keelix.Checks.Hardening.{
  has_no_new_privileges, has_limits, is_floating, hrd001, hrd002, hrd003, hrd004, hrd005, hrd006,
  hrd007, hrd008,
}

-- What the eight checks ask of a service.
pub record IsConfined (svc : Service) : Type 0 where
  pub unprivileged : svc.privileged ≡ false
  pub harmless : (cap : Text) → Mem cap svc.cap_add → dangerous_cap cap ≡ none
  pub detached : mounts_docker_socket svc ≡ false
  pub rootless : runs_as_root svc ≡ false
  pub sealed : svc.read_only ≡ true
  pub restrained : has_no_new_privileges svc.security_opt ≡ true
  pub limited : has_limits svc.deploy ≡ true
  pub pinned : is_floating svc.image ≡ false

-- The findings of the eight checks of the stack's containers.
unfoldable pub hardening : Formats → ScanContext → List Finding
hardening fmt ctx =
    hrd001 fmt ctx
    ++ (hrd002 fmt ctx
        ++ (hrd003 fmt ctx
            ++ (hrd004 fmt ctx
                ++ (hrd005 fmt ctx ++ (hrd006 fmt ctx ++ (hrd007 fmt ctx ++ hrd008 fmt ctx))))))

-- Every service of the stack meets a condition.
abbrev pub Each : ScanContext → (Service → Type 0) → Type 0
Each ctx P = (r : Service) → Mem r (services_of ctx.stack) → P r
