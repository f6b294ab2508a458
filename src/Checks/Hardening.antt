-- ===== src/Checks/Hardening.antt =====
-- internal/checks/hardening: how the containers are confined.
pub mod Confined
pub mod Daemon
use keelix.Prelude.{
  Bool, false, not, ◌&&◌, ◌||◌, List, [], ◌∷◌, ◌++◌, Option, none, some, any, if◌then◌else◌,
}
use keelix.Text.{Text, codes, utf8, text_eq, contains, equal_fold}
use keelix.Model.Finding.{Finding, critical}
use keelix.Model.Stack.{Service, DeployConfig, mounts_docker_socket, runs_as_root}
use keelix.Checks.{Check, Formats, failing, for_each, over_services, report_if, concat, summary_fix}
use keelix.Intel.Images.{image_base, image_tag, has_digest}
use keelix.Intel.Capabilities.{dangerous_cap, cap_name}

abbrev container_of : Service → Text
container_of svc = (codes "container ") ++ svc.name

-- isCriticalCap
unfoldable pub is_critical_cap : Text → Bool
unfolding text_eq cap_name
is_critical_cap cap =
    any (text_eq (cap_name cap)) ((codes "ALL") ∷ (codes "SYS_ADMIN") ∷ (codes "SYS_MODULE") ∷ [])

-- hasNoNewPrivileges
unfoldable pub has_no_new_privileges : List Text → Bool
unfolding contains
has_no_new_privileges opts = any (λ o. contains o (codes "no-new-privileges")) opts

unfoldable pub has_limits : Option DeployConfig → Bool
has_limits none = false
has_limits (some d) = d.has_limits

-- The conditions under which the loop of hrd008 reports the image.
unfoldable pub is_floating : Text → Bool
unfolding text_eq has_digest image_tag equal_fold
is_floating image =
    not (text_eq image [])
    && not (has_digest image)
    && (text_eq (image_tag image) [] || equal_fold (image_tag image) (codes "latest"))

module _ (fmt : Formats) where
  abbrev service_says : Service → Text → Text
  service_says svc says = concat ((codes "service ") ∷ fmt.quoted svc.name ∷ says ∷ [])

  unfoldable pub hrd001_service : Service → List Finding
  hrd001_service svc = report_if svc.privileged (record (failing (codes "HRD001")) {
    service = svc.name;
    resource = container_of svc;
    evidence = service_says svc (codes " has privileged: true");
    fix =
        record (summary_fix
          (codes "Remove `privileged: true`; grant only specific capabilities if needed.")) {
            diff = (codes "- privileged: true");
          };
  })

  -- hrd001.Run
  unfoldable pub hrd001 : Check
  hrd001 =
      over_services (codes "HRD001") (codes "No containers run in privileged mode.") hrd001_service

  unfoldable pub hrd002_finding : Service → Text → Text → Finding
  hrd002_finding svc cap reason =
      let f = record (failing (codes "HRD002")) {
        service = svc.name;
        resource = (codes "capability ") ++ cap;
        evidence = concat (
            (codes "service ")
            ∷ fmt.quoted svc.name
            ∷ (codes " adds capability ")
            ∷ cap
            ∷ (codes ": ")
            ∷ reason
            ∷ []);
        fix =
            record (summary_fix (
              concat (
                (codes "Drop the ")
                ∷ cap
                ∷ (codes " capability from cap_add; use the minimum required set.")
                ∷ []))) { diff = (codes "- - ") ++ cap };
      } in
      if is_critical_cap cap then record f { severity = critical } else f

  unfoldable pub hrd002_reason : Service → Text → Option Text → List Finding
  hrd002_reason svc cap none = []
  hrd002_reason svc cap (some reason) = hrd002_finding svc cap reason ∷ []

  unfoldable pub hrd002_cap : Service → Text → List Finding
  unfolding hrd002_reason
  hrd002_cap svc cap = hrd002_reason svc cap (dangerous_cap cap)

  -- hrd002.Run
  unfoldable pub hrd002 : Check
  hrd002 =
      over_services (codes "HRD002")
        (codes "No dangerous Linux capabilities added to any container.")
        (λ svc. for_each (hrd002_cap svc) svc.cap_add)

  unfoldable pub hrd003_service : Service → List Finding
  hrd003_service svc = report_if (mounts_docker_socket svc) (record (failing (codes "HRD003")) {
    service = svc.name;
    resource = (codes "/var/run/docker.sock");
    evidence = service_says svc (codes " mounts /var/run/docker.sock");
    fix = record {
      summary =
          (codes
            "Remove the /var/run/docker.sock mount; use a socket proxy with least privilege if API access is required.");
      diff = (codes "- - /var/run/docker.sock:/var/run/docker.sock");
      commands = [];
      doc_url = (codes "https://github.com/Tecnativa/docker-socket-proxy");
    };
  })

  -- hrd003.Run
  unfoldable pub hrd003 : Check
  hrd003 =
      over_services (codes "HRD003") (codes "No containers mount the Docker socket.") hrd003_service

  unfoldable pub hrd004_service : Service → List Finding
  hrd004_service svc = report_if (runs_as_root svc) (record (failing (codes "HRD004")) {
    service = svc.name;
    resource = container_of svc;
    evidence = concat (
        (codes "service ")
        ∷ fmt.quoted svc.name
        ∷ (codes " has no explicit non-root user configured (user: ")
        ∷ fmt.quoted svc.user
        ∷ (utf8 "); some official images require root — verify before changing")
        ∷ []);
    fix =
        record (summary_fix (
          codes
            "Add user: \"1000:1000\" (a non-root uid:gid). Note: some official images require root; verify the image supports non-root before applying.")) {
              diff = (codes "+    user: \"1000:1000\"");
            };
  })

  -- hrd004.Run
  unfoldable pub hrd004 : Check
  hrd004 =
      over_services (codes "HRD004") (codes "All containers run as a non-root user.") hrd004_service

  unfoldable pub hrd005_service : Service → List Finding
  hrd005_service svc = report_if (not svc.read_only) (record (failing (codes "HRD005")) {
    service = svc.name;
    resource = container_of svc;
    evidence = service_says svc (codes " does not set read_only: true");
    fix =
        record (summary_fix (
          codes
            "Add `read_only: true` plus tmpfs or named volumes for any writable paths the service needs.")) {
              diff = (codes "+    read_only: true");
            };
  })

  -- hrd005.Run
  unfoldable pub hrd005 : Check
  hrd005 =
      over_services (codes "HRD005") (codes "All containers have a read-only root filesystem.")
        hrd005_service

  unfoldable pub hrd006_service : Service → List Finding
  hrd006_service svc =
      report_if (not (has_no_new_privileges svc.security_opt)) (record (failing (codes "HRD006")) {
        service = svc.name;
        resource = container_of svc;
        evidence = service_says svc (codes " is missing no-new-privileges in security_opt");
        fix =
            record (summary_fix (
              codes
                "Add security_opt: [\"no-new-privileges:true\"] to prevent privilege escalation via setuid binaries.")) {
                  diff = (codes "+    security_opt:\n+      - no-new-privileges:true");
                };
      })

  -- hrd006.Run
  unfoldable pub hrd006 : Check
  hrd006 =
      over_services (codes "HRD006") (codes "All containers have no-new-privileges set.")
        hrd006_service

  unfoldable pub hrd007_service : Service → List Finding
  hrd007_service svc = report_if (not (has_limits svc.deploy)) (record (failing (codes "HRD007")) {
    service = svc.name;
    resource = container_of svc;
    evidence = service_says svc (codes " has no deploy.resources.limits configured");
    fix =
        record (summary_fix (
          codes
            "Set deploy.resources.limits.memory and cpus to prevent a single container exhausting host resources.")) {
              diff =
                  (codes
                    "+    deploy:\n+      resources:\n+        limits:\n+          memory: 512m\n+          cpus: \"0.5\"");
            };
  })

  -- hrd007.Run
  unfoldable pub hrd007 : Check
  hrd007 =
      over_services (codes "HRD007") (codes "All containers have resource limits configured.")
        hrd007_service

  unfoldable pub hrd008_service : Service → List Finding
  hrd008_service svc = report_if (is_floating svc.image) (record (failing (codes "HRD008")) {
    service = svc.name;
    resource = svc.image;
    evidence = concat (
        (codes "service ")
        ∷ fmt.quoted svc.name
        ∷ (codes " uses image ")
        ∷ fmt.quoted svc.image
        ∷ (if text_eq (image_tag svc.image) []
            then (codes " with no tag (implicitly :latest)")
            else (codes " with mutable :latest tag"))
        ∷ []);
    fix =
        record (summary_fix (
          codes
            "Pin the image to an explicit version tag and ideally an @sha256 digest for reproducible builds.")) {
              diff = concat (
                  (codes "-    image: ")
                  ∷ svc.image
                  ∷ (codes "\n+    image: ")
                  ∷ image_base svc.image
                  ∷ (codes ":<version>@sha256:<digest>")
                  ∷ []);
            };
  })

  -- hrd008.Run
  unfoldable pub hrd008 : Check
  hrd008 =
      over_services (codes "HRD008") (codes "All images are pinned to an explicit version tag.")
        hrd008_service
