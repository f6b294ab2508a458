-- ===== src/Checks/Media.antt =====
-- internal/checks/service: the configurations of applications.
use keelix.Prelude.{not, ◌&&◌, List, [], ◌∷◌, Option, none, some, if◌then◌else◌}
use keelix.Text.{Text, codes, utf8, text_eq, lookup, lookup_text, contains}
use keelix.Model.Finding.{Finding, TextMap, not_assessed}
use keelix.Model.Stack.{Stack, Service}
use keelix.Model.Signals.{ConfigFact}
use keelix.Checks.{Check, failing, passing, unassessed, summary_fix, config_by_schema}
use keelix.Intel.Images.{image_base}
use keelix.Checks.Services.{undiscovered, with_config, over_config, on_port, diff_fix, two_faults}

-- arrImageDefaultPorts
arr_image_default_ports : List (Text × Text)
arr_image_default_ports =
    ((codes "prowlarr"), (codes "9696"))
    ∷ ((codes "readarr"), (codes "8787"))
    ∷ ((codes "sonarr"), (codes "8989"))
    ∷ ((codes "lidarr"), (codes "8686"))
    ∷ ((codes "radarr"), (codes "7878"))
    ∷ []

arr_port : Text → List (Text × Text) → Text
arr_port base [] = []
arr_port base ((keyword, port) ∷ rest) =
    let later = arr_port base rest in if contains base keyword then port else later

arr_port_loop : List Service → Text
arr_port_loop [] = []
arr_port_loop (svc ∷ svcs) =
    let later = arr_port_loop svcs in
    let port = arr_port (image_base svc.image) arr_image_default_ports in
    if text_eq port [] then later else port

-- arrPortFromStack
unfoldable pub arr_port_from_stack : Option Stack → Text
unfolding arr_port_loop arr_port arr_image_default_ports contains text_eq image_base
arr_port_from_stack none = []
arr_port_from_stack (some s) = arr_port_loop s.services

-- The port of a finding of svc010.
first_port : Text → Text → Text
first_port configured stacked =
    if not (text_eq configured [])
    then configured
    else if text_eq stacked []
    then (codes "7878")
    else stacked

unfoldable pub svc010_values : Option Stack → TextMap → List Finding
unfolding arr_port_from_stack first_port lookup_text text_eq
svc010_values stack v =
    if not (text_eq (lookup_text (codes "AuthenticationMethod") v) (codes "None"))
    then passing (codes "SVC010") (codes "*arr authentication is enabled.")
    else record (failing (codes "SVC010")) {
      resource = (codes "arr-config");
      evidence = (codes "AuthenticationMethod=None");
      metadata = on_port (first_port (lookup_text (codes "Port") v) (arr_port_from_stack stack));
      fix =
          diff_fix
            (codes
              "Set AuthenticationMethod to Forms or Basic in the *arr config.xml, then restart the service.")
            (codes
              "<AuthenticationMethod>None</AuthenticationMethod>  ->  <AuthenticationMethod>Forms</AuthenticationMethod>");
    }
      ∷ []

-- svc010.Run
unfoldable pub svc010 : Check
unfolding svc010_values
svc010 ctx = over_config (codes "SVC010") (codes "arr-config") (svc010_values ctx.stack) ctx

-- svc011.Run
unfoldable pub svc011 : Check
unfolding lookup_text text_eq
svc011 = over_config (codes "SVC011") (codes "qbittorrent-conf") λ v.
    if not (text_eq (lookup_text (codes "webui.auth") v) (codes "false"))
    then passing (codes "SVC011") (codes "qBittorrent WebUI authentication is enabled.")
    else record (failing (codes "SVC011")) {
      resource = (codes "qbittorrent WebUI");
      evidence = (codes "webui.auth=false");
      metadata = on_port (codes "8080");
      fix =
          diff_fix
            (utf8
              "Enable WebUI authentication in qBittorrent: Tools → Options → Web UI → enable 'Bypass authentication for clients on localhost' if needed, but set a username and password.")
            (codes "WebUI\\Password_PBKDF2=... (set a non-empty password via the qBittorrent UI)");
    }
      ∷ []

-- svc020.Run
unfoldable pub svc020 : Check
unfolding lookup_text text_eq
svc020 = over_config (codes "SVC020") (codes "grafana-ini") λ v.
    let anonymous = text_eq (lookup_text (codes "auth.anonymous.enabled") v) (codes "true") in
    let default = text_eq (lookup_text (codes "admin.default") v) (codes "true") in
    if not anonymous && not default
    then passing (codes "SVC020")
        (codes "Grafana anonymous access is disabled and default admin credentials are changed.")
    else record (failing (codes "SVC020")) {
      resource = (codes "grafana");
      metadata = on_port (codes "3000");
      evidence =
          two_faults anonymous default (codes "auth.anonymous.enabled=true; admin.default=true")
            (codes "auth.anonymous.enabled=true")
            (codes "admin.default=true (default admin/admin credentials unchanged)");
      fix =
          diff_fix
            (codes
              "Disable [auth.anonymous] enabled in grafana.ini and change the default admin password via the Grafana UI or GF_SECURITY_ADMIN_PASSWORD env var.")
            (codes "[auth.anonymous]\nenabled = false");
    }
      ∷ []

-- svc021.Run
unfoldable pub svc021 : Check
unfolding lookup_text text_eq
svc021 = over_config (codes "SVC021") (codes "prometheus-yml") λ v.
    if text_eq (lookup_text (codes "auth.determinable") v) (codes "false")
    then unassessed (codes "SVC021") (
        codes
          "API auth is configured in web.yml which is not bind-mounted; cannot determine whether Prometheus API authentication is enabled. Bind-mount web.yml and re-run with --collect.")
    else undiscovered (codes "SVC021")

abbrev first_fact : Option ConfigFact → Option ConfigFact → Option ConfigFact
first_fact none c = c
first_fact (some b) c = some b

unfoldable pub svc030_values : TextMap → List Finding
unfolding lookup_text text_eq
svc030_values v =
    let present = lookup_text (codes "admin_token.present") v in
    if text_eq present (codes "false")
    then record (failing (codes "SVC030")) {
      resource = (codes "vaultwarden ADMIN_TOKEN");
      evidence = (utf8 "admin_token.present=false — admin panel is open to all");
      metadata = on_port (codes "80");
      fix =
          record (summary_fix (
            codes
              "Set ADMIN_TOKEN to an Argon2 hash in vaultwarden.env: generate with `echo -n 'yourpassword' | argon2 'yoursalt' -e` or use the Vaultwarden admin token generator.")) {
                doc_url =
                    (codes "https://github.com/dani-garcia/vaultwarden/wiki/Enabling-admin-page");
              };
    }
      ∷ []
    else if text_eq present (codes "true")
        && not (text_eq (lookup_text (codes "admin_token.is_argon2") v) (codes "true"))
        && text_eq (lookup_text (codes "admin_token.length_band") v) (codes "weak")
    then record (failing (codes "SVC030")) {
      resource = (codes "vaultwarden ADMIN_TOKEN");
      evidence =
          (codes
            "admin_token.present=true; admin_token.is_argon2=false; admin_token.length_band=weak");
      metadata = on_port (codes "80");
      fix =
          record (summary_fix (
            utf8
              "Replace the plain-text ADMIN_TOKEN with an Argon2 hash of a strong (≥20 char) passphrase.")) {
                doc_url =
                    (codes
                      "https://github.com/dani-garcia/vaultwarden/wiki/Enabling-admin-page#secure-the-admin_token");
              };
    }
      ∷ []
    else passing (codes "SVC030")
        (codes "Vaultwarden admin token is present and uses Argon2 hashing.")

-- svc030.Run
unfoldable pub svc030 : Check
unfolding svc030_values
svc030 ctx = with_config (undiscovered (codes "SVC030")) svc030_values (
    first_fact (config_by_schema ctx.collector (codes "vaultwarden-env"))
      (config_by_schema ctx.collector (codes "vaultwarden-json")))

unfoldable pub svc031_values : Text → TextMap → List Finding
svc031_values lock v =
    let unlocked = text_eq lock (codes "false") in
    let registration = text_eq (lookup_text (codes "registration.open") v) (codes "true") in
    if not unlocked && not registration
    then passing (codes "SVC031")
        (codes "Gitea installation is locked and open registration is disabled.")
    else record (failing (codes "SVC031")) {
      resource = (codes "gitea");
      metadata = on_port (codes "3000");
      evidence =
          two_faults unlocked registration (codes "INSTALL_LOCK=false; registration.open=true")
            (codes "INSTALL_LOCK=false (setup wizard accessible)")
            (codes "registration.open=true (open self-registration)");
      fix =
          diff_fix
            (codes
              "Set INSTALL_LOCK=true in app.ini [security] and set DISABLE_REGISTRATION=true in [service] to prevent unauthorized account creation.")
            (codes "[security]\nINSTALL_LOCK = true\n\n[service]\nDISABLE_REGISTRATION = true");
    }
      ∷ []

abbrev unlocked_unknown : Finding
unlocked_unknown = record (failing (codes "SVC031")) {
  status = not_assessed;
  detail =
      (codes "service config not discovered; bind-mount the config file and re-run with --collect");
  evidence =
      (codes
        "INSTALL_LOCK key absent from app.ini; cannot determine installation lock state (may be set via environment)");
}

-- svc031.Run
unfoldable pub svc031 : Check
unfolding svc031_values lookup lookup_text text_eq
svc031 = over_config (codes "SVC031") (codes "gitea-ini") λ v.
    elim (lookup (codes "INSTALL_LOCK") v) [
      | none ↦ unlocked_unknown ∷ []
      | some lock ↦ svc031_values lock v
    ]
