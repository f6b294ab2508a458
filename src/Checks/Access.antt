-- ===== src/Checks/Access.antt =====
-- internal/checks/auth: services without an authentication layer, and default credentials.
use keelix.Prelude.{
  ℕ, Bool, false, not, ◌&&◌, ◌||◌, List, [], ◌∷◌, ◌++◌, Option, none, some, ◌==◌, any,
  if◌then◌else◌, is_some,
}
use keelix.Text.{Text, codes, text_eq, has_prefix, contains, to_upper, to_lower}
use keelix.Model.Finding.{Finding}
use keelix.Model.Stack.{Stack, Service, ProxyConfig, published_to_all_interfaces}
use keelix.Checks.{
  Check, Formats, failing, for_each, or_pass, with_services, report_if, concat, summary_fix,
}
use keelix.Intel.Images.{image_base, is_weak_password}
use keelix.Intel.Capabilities.{Credential, default_credentials}

-- webPorts
unfoldable pub web_ports : List ℕ
web_ports = 80 ∷ 443 ∷ 8080 ∷ 8081 ∷ 3000 ∷ 8096 ∷ 8920 ∷ 3001 ∷ 8443 ∷ 8008 ∷ 8888 ∷ []

abbrev is_web_port : ℕ → Bool
is_web_port port = any (λ p. p == port) web_ports

-- isAuthOrProxyImage
unfoldable pub is_auth_or_proxy_image : Text → Bool
unfolding to_lower contains image_base
is_auth_or_proxy_image image =
    any (λ kw. contains (to_lower (image_base image)) kw)
      ((codes "authelia")
        ∷ (codes "authentik")
        ∷ (codes "traefik")
        ∷ (codes "caddy")
        ∷ (codes "nginx")
        ∷ (codes "haproxy")
        ∷ (codes "oauth2-proxy")
        ∷ (codes "keycloak")
        ∷ (codes "ldap")
        ∷ (codes "pomerium")
        ∷ [])

unfoldable pub is_auth_service : Service → Bool
unfolding to_lower contains image_base
is_auth_service svc =
    let base = to_lower (image_base svc.image) in
    contains base (codes "authelia") || contains base (codes "authentik")

-- stackHasAuthService
unfoldable pub stack_has_auth_service : List Service → Bool
stack_has_auth_service svcs = any is_auth_service svcs

-- proxyHasAuth
unfoldable pub proxy_has_auth : Option ProxyConfig → Text → Bool
unfolding text_eq
proxy_has_auth none name = false
proxy_has_auth (some p) name = any (λ r. text_eq r.service name && r.has_auth) p.routes

-- isPubliclyExposed
unfoldable pub is_publicly_exposed : Service → Bool
unfolding web_ports
is_publicly_exposed svc =
    any
      (λ pm.
        published_to_all_interfaces pm
        && (is_web_port pm.host_port || is_web_port pm.container_port))
      svc.ports

abbrev proxy_of : Option Stack → Option ProxyConfig
proxy_of none = none
proxy_of (some s) = s.proxy

-- hasPasswordOverride, for one variable
unfoldable pub is_override : Text × Text → Bool
unfolding to_upper contains has_prefix text_eq is_weak_password
is_override (name, val) =
    let upper = to_upper name in
    (contains upper (codes "PASSWORD")
      || contains upper (codes "PASS")
      || contains upper (codes "PWD")
      || contains upper (codes "SECRET"))
    && (has_prefix val (codes "${")
        || has_prefix val (codes "$")
        || (not (text_eq val []) && not (is_weak_password val)))

-- hasPasswordOverride
unfoldable pub has_password_override : Service → Bool
unfolding is_override
has_password_override svc = any is_override svc.environment

module _ (fmt : Formats) where
  unfoldable pub auth001_finding : Service → Finding
  auth001_finding svc = record (failing (codes "AUTH001")) {
    service = svc.name;
    resource = (codes "service ") ++ svc.name;
    evidence = concat (
        (codes "service ")
        ∷ fmt.quoted svc.name
        ∷ (codes " publishes a web port to all interfaces with no authentication layer detected")
        ∷ []);
    fix = record {
      summary =
          (codes
            "Place an identity-aware proxy (Authelia, Authentik, oauth2-proxy) in front of this service, or enable the service's built-in authentication.");
      diff = [];
      commands = [];
      doc_url = (codes "https://www.authelia.com/");
    };
  }

  -- The loop of auth001, given authSvcPresent.
  unfoldable pub is_unprotected : Bool → Option ProxyConfig → Service → Bool
  is_unprotected present proxy svc =
      is_publicly_exposed svc
      && not (is_auth_or_proxy_image svc.image)
      && not present
      && not (proxy_has_auth proxy svc.name)

  unfoldable pub auth001_services : Option ProxyConfig → List Service → List Finding
  unfolding is_unprotected
  auth001_services proxy svcs =
      or_pass (codes "AUTH001")
        (codes "All publicly exposed services have an authentication layer.")
        (for_each
          (λ svc.
            report_if (is_unprotected (stack_has_auth_service svcs) proxy svc)
              (auth001_finding svc))
          svcs)

  -- auth001.Run
  unfoldable pub auth001 : Check
  auth001 ctx = with_services (codes "AUTH001") (auth001_services (proxy_of ctx.stack)) ctx.stack

  unfoldable pub auth002_finding : Service → Credential → Finding
  auth002_finding svc cred = record (failing (codes "AUTH002")) {
    service = svc.name;
    resource = (codes "image ") ++ image_base svc.image;
    evidence = concat (
        (codes "image ")
        ∷ fmt.quoted (image_base svc.image)
        ∷ (codes " ships with documented default credentials (username: ")
        ∷ fmt.quoted cred.username
        ∷ (codes "); no password override detected in service environment")
        ∷ []);
    metadata = ((codes "default_username"), cred.username) ∷ ((codes "note"), cred.note) ∷ [];
    fix = summary_fix (
        concat (
          (codes "Change the default credentials for ")
          ∷ image_base svc.image
          ∷ (codes " immediately. Set a strong password via the appropriate environment variable.")
          ∷ []));
  }

  -- The credentials that the loop finds for a service; an image has none without a reference.
  unfoldable pub known_credentials : Service → Option (List Credential)
  unfolding text_eq default_credentials
  known_credentials svc = if text_eq svc.image [] then none else default_credentials svc.image

  unfoldable pub report_first : Service → Option (List Credential) → List Finding
  report_first svc none = []
  report_first svc (some []) = []
  report_first svc (some (cred ∷ creds)) =
      if has_password_override svc then [] else auth002_finding svc cred ∷ []

  unfoldable pub auth002_service : Service → List Finding
  unfolding known_credentials report_first
  auth002_service svc = report_first svc (known_credentials svc)

  -- The message of a pass, which tells whether an image was known.
  abbrev auth002_message : List Service → Text
  auth002_message svcs =
      if any (λ svc. is_some (known_credentials svc)) svcs
      then (codes
          "All well-known images with default credentials appear to have overrides configured.")
      else (codes "No well-known images with default credentials found.")

  -- auth002.Run
  unfoldable pub auth002 : Check
  unfolding known_credentials auth002_service
  auth002 ctx =
      with_services (codes "AUTH002")
        (λ svcs. or_pass (codes "AUTH002") (auth002_message svcs) (for_each auth002_service svcs))
        ctx.stack
