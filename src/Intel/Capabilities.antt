-- ===== src/Intel/Capabilities.antt =====
-- internal/intel/images.go: dangerous capabilities and default credentials.
use keelix.Prelude.{List, [], ◌∷◌, Option, none, some, if◌then◌else◌}
use keelix.Text.{Text, codes, utf8, lookup, to_upper, trim_prefix, contains}
use keelix.Intel.Images.{image_base}

-- dangerousCaps
dangerous_caps : List (Text × Text)
dangerous_caps =
    ((codes "ALL"), (codes "grants every capability"))
    ∷ ((codes "SYS_ADMIN"), (codes "near-root: mount, namespaces, many escapes"))
    ∷ ((codes "NET_ADMIN"), (codes "reconfigure host networking"))
    ∷ ((codes "SYS_PTRACE"), (codes "inspect/modify other processes"))
    ∷ ((codes "SYS_MODULE"), (codes "load kernel modules (full host compromise)"))
    ∷ ((codes "DAC_READ_SEARCH"), (codes "bypass file read permission checks"))
    ∷ ((codes "SYS_RAWIO"), (codes "raw I/O port access"))
    ∷ ((codes "SYS_BOOT"), (codes "reboot the host"))
    ∷ ((codes "BPF"), (codes "load eBPF programs"))
    ∷ []

-- The normalised name of a capability.
unfoldable pub cap_name : Text → Text
unfolding to_upper trim_prefix
cap_name cap = to_upper (trim_prefix (to_upper cap) (codes "CAP_"))

-- DangerousCap
unfoldable pub dangerous_cap : Text → Option Text
unfolding dangerous_caps lookup cap_name
dangerous_cap cap = lookup (cap_name cap) dangerous_caps

-- The type Credential.
pub record Credential : Type 0 where
  pub username : Text
  pub password : Text
  pub note : Text

abbrev credential : Text → Text → Text → List Credential
credential username password note =
    record { username = username; password = password; note = note } ∷ []

-- defaultCredentials, in any order: Go visits the keys of the map in no fixed order
default_credential_table : List (Text × List Credential)
default_credential_table =
    (
      (codes "grafana/grafana"),
      credential (codes "admin") (codes "admin") (codes "Grafana ships with admin/admin"),
    )
    ∷ (
      (codes "portainer/portainer"),
      credential (codes "admin") (codes "")
          (codes "Set on first login; default is unauthenticated until set"),
    )
    ∷ (
      (codes "jc21/nginx-proxy-manager"),
      credential (codes "admin@example.com") (codes "changeme")
          (codes "Nginx Proxy Manager default"),
    )
    ∷ (
      (codes "nginxproxymanager"),
      credential (codes "admin@example.com") (codes "changeme")
          (codes "Nginx Proxy Manager default"),
    )
    ∷ (
      (codes "gitea/gitea"),
      credential (codes "") (codes "") (utf8 "First-run installer can be left open — lock it down"),
    )
    ∷ ((codes "sonarqube"), credential (codes "admin") (codes "admin") (codes "SonarQube default"))
    ∷ (
      (codes "pihole/pihole"),
      credential (codes "admin") (codes "") (codes "Web password set via WEBPASSWORD"),
    )
    ∷ (
      (codes "minio/minio"),
      credential (codes "minioadmin") (codes "minioadmin") (codes "MinIO default root credentials"),
    )
    ∷ (
      (codes "rabbitmq"),
      credential (codes "guest") (codes "guest")
          (codes "RabbitMQ default (localhost only by default)"),
    )
    ∷ (
      (codes "elastic/kibana"),
      credential (codes "elastic") (codes "changeme") (codes "Elastic default"),
    )
    ∷ ((codes "kibana"), credential (codes "elastic") (codes "changeme") (codes "Elastic default"))
    ∷ (
      (codes "mongo-express"),
      credential (codes "admin") (codes "pass") (codes "mongo-express default basic auth"),
    )
    ∷ (
      (codes "phpmyadmin"),
      credential (codes "root") (codes "") (codes "phpMyAdmin uses the DB credentials"),
    )
    ∷ (
      (codes "adminer"),
      credential (codes "") (codes "") (codes "Adminer exposes DB login directly"),
    )
    ∷ (
      (codes "keycloak"),
      credential (codes "admin") (codes "admin") (codes "Keycloak bootstrap admin"),
    )
    ∷ (
      (codes "jenkins/jenkins"),
      credential (codes "admin") (codes "") (codes "Initial admin password in container logs"),
    )
    ∷ (
      (codes "homeassistant/home-assistant"),
      credential (codes "") (codes "")
          (utf8 "Onboarding sets credentials — do not expose before setup"),
    )
    ∷ []

first_credentials : Text → List (Text × List Credential) → Option (List Credential)
first_credentials base [] = none
first_credentials base ((key, creds) ∷ m) =
    let rest = first_credentials base m in if contains base key then some creds else rest

-- DefaultCredentials
unfoldable pub default_credentials : Text → Option (List Credential)
unfolding first_credentials default_credential_table contains image_base
default_credentials image = first_credentials (image_base image) default_credential_table
