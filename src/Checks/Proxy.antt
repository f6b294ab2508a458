-- ===== src/Checks/Proxy.antt =====
-- internal/checks/proxy: the routes of the reverse proxy. The checks dereference ctx.Stack: the stack
-- is their first argument.
use keelix.Prelude.{Bool, not, [], ◌∷◌, none, some, if◌then◌else◌}
use keelix.Text.{Text, codes, text_eq}
use keelix.Model.Finding.{Finding}
use keelix.Model.Stack.{Stack, ProxyConfig, ProxyRoute}
use keelix.Checks.{Check, failing, passing, for_each, or_pass, report_if, summary_fix}

-- The loop over the routes that the checks have in common.
unfoldable pub over_routes : Text → Text → (ProxyRoute → Bool) → Text → Stack → Check
over_routes id detail test summary stack ctx = elim stack.proxy [
  | none ↦ []
  | some p ↦ or_pass id detail (
      for_each
        (λ (r : ProxyRoute). report_if (test r) (record (failing id) {
          service = r.service;
          resource = r.host;
          fix = summary_fix summary;
        }))
        p.routes)
]

-- prx001.Run
unfoldable pub prx001 : Stack → Check
unfolding over_routes
prx001 =
    over_routes (codes "PRX001") (codes "All public routes have authentication configured.")
      (λ r. not r.has_auth)
      (codes
        "Add an auth middleware / forward-auth (Authelia/Authentik) or basic auth in front of this route.")

-- prx002.Run
unfoldable pub prx002 : Stack → Check
unfolding over_routes
prx002 =
    over_routes (codes "PRX002") (codes "All public routes are served over TLS.") (λ r. not r.tls)
      (codes "Enable TLS (e.g. Let's Encrypt) on this route and redirect HTTP to HTTPS.")

unfoldable pub prx003_finding : ProxyConfig → Finding
prx003_finding p =
    if text_eq p.kind (codes "traefik")
    then record (failing (codes "PRX003")) {
      evidence =
          (codes "Traefik api.insecure=true exposes the dashboard and API without authentication.");
      fix = summary_fix (
          codes
            "Remove api.insecure=true from the Traefik configuration and protect the dashboard with an auth middleware.");
    }
    else record (failing (codes "PRX003")) {
      fix = summary_fix (
          codes
            "Restrict access to the reverse-proxy admin dashboard; require authentication and avoid exposing it publicly.");
    }

-- prx003.Run
unfoldable pub prx003 : Stack → Check
prx003 stack ctx = elim stack.proxy [
  | none ↦ []
  | some p ↦
      if not p.dashboard_exposed
      then passing (codes "PRX003")
          (codes "Reverse-proxy admin dashboard is not exposed insecurely.")
      else prx003_finding p ∷ []
]

-- prx004.Run
unfoldable pub prx004 : Stack → Check
unfolding over_routes
prx004 =
    over_routes (codes "PRX004") (codes "All public routes have security headers configured.")
      (λ r. not r.security_headers)
      (codes
        "Add a headers middleware to set HSTS, X-Content-Type-Options, and X-Frame-Options on this route.")

-- prx005.Run
unfoldable pub prx005 : Stack → Check
unfolding over_routes
prx005 =
    over_routes (codes "PRX005") (codes "No overly broad wildcard proxy routes found.")
      (λ r. r.wildcard)
      (codes "Replace the wildcard route with explicit host rules for each intended service.")

unfoldable pub prx006_finding : Finding
prx006_finding = record (failing (codes "PRX006")) {
  evidence =
      (codes "Nginx Proxy Manager ships with default credentials: admin@example.com / changeme.");
  fix = summary_fix (
      codes
        "Verify that the default Nginx Proxy Manager admin login (admin@example.com / changeme) has been changed to a strong, unique password.");
}

-- prx006.Run
unfoldable pub prx006 : Stack → Check
prx006 stack ctx = elim stack.proxy [
  | none ↦ []
  | some p ↦
      if not (text_eq p.kind (codes "nginx-proxy-manager"))
      then passing (codes "PRX006") (codes "Proxy kind does not use known default credentials.")
      else prx006_finding ∷ []
]
