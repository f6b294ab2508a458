-- ===== src/Checks/Services.antt =====
-- internal/checks/service: the configurations of databases, brokers and proxies. The values of a
-- configuration are a map; a missing key reads as the empty text.
use keelix.Prelude.{
  Bool, not, ◌&&◌, ◌||◌, List, [], ◌∷◌, ◌++◌, Option, none, some, ◌==◌, any, if◌then◌else◌, length,
}
use keelix.Text.{Text, codes, text_eq, lookup_text, trim_prefix, to_lower, fields}
use keelix.Model.Finding.{Finding, Fix, TextMap}
use keelix.Model.Signals.{ConfigFact}
use keelix.Checks.{Check, failing, passing, unassessed, summary_fix, config_by_schema}

-- notAssessed of this package
abbrev pub undiscovered : Text → List Finding
undiscovered id =
    unassessed id
      (codes "service config not discovered; bind-mount the config file and re-run with --collect")

unfoldable pub with_config :
    List Finding → (TextMap → List Finding) → Option ConfigFact → List Finding
with_config missing body none = missing
with_config missing body (some cf) = body cf.values

-- The guards of a check of one schema.
unfoldable pub over_config : Text → Text → (TextMap → List Finding) → Check
unfolding with_config config_by_schema
over_config id schema body ctx =
    with_config (undiscovered id) body (config_by_schema ctx.collector schema)

abbrev pub on_port : Text → TextMap
on_port port = ((codes "port"), port) ∷ []

abbrev pub diff_fix : Text → Text → Fix
diff_fix summary diff = record (summary_fix summary) { diff = diff }

-- The switch that names one or both of two faults.
abbrev pub two_faults : Bool → Bool → Text → Text → Text → Text
two_faults first second both one other =
    if first && second then both else if first then one else other

-- bindPublic
unfoldable pub binds_public : Text → Bool
unfolding text_eq trim_prefix fields
binds_public bind =
    let tokens = fields bind in
    length tokens == 0
    || any
        (λ token.
          let stripped = trim_prefix token (codes "-") in
          not (
            text_eq stripped (codes "127.0.0.1")
            || text_eq stripped (codes "::1")
            || text_eq stripped (codes "localhost")))
        tokens

unfoldable pub svc001_values : TextMap → List Finding
unfolding binds_public lookup_text text_eq to_lower
svc001_values v =
    let bind = lookup_text (codes "bind") v in
    if text_eq (lookup_text (codes "requirepass.present") v) (codes "false")
      && text_eq (to_lower (lookup_text (codes "protected-mode") v)) (codes "no")
      && binds_public bind
    then record (failing (codes "SVC001")) {
      resource = (codes "redis");
      evidence = (codes "requirepass absent, protected-mode no, bind ") ++ bind;
      metadata = on_port (codes "6379");
      fix =
          diff_fix
            (codes
              "Set a requirepass in redis.conf, or set protected-mode yes, or bind to 127.0.0.1.")
            (codes "requirepass <strong-password>\nprotected-mode yes");
    }
      ∷ []
    else passing (codes "SVC001") (codes "Redis authentication triad is satisfied.")

-- svc001.Run
unfoldable pub svc001 : Check
unfolding svc001_values
svc001 = over_config (codes "SVC001") (codes "redis-conf") svc001_values

-- svc002.Run
unfoldable pub svc002 : Check
unfolding lookup_text text_eq
svc002 = over_config (codes "SVC002") (codes "mongod-conf") λ v.
    if text_eq (lookup_text (codes "security.authorization") v) []
    then record (failing (codes "SVC002")) {
      resource = (codes "mongodb");
      evidence = (codes "security.authorization not set in mongod.conf");
      metadata = on_port (codes "27017");
      fix =
          diff_fix (codes "Set security.authorization: enabled in mongod.conf and restart mongod.")
            (codes "security:\n  authorization: enabled");
    }
      ∷ []
    else passing (codes "SVC002") (codes "MongoDB authorization is enabled.")

-- svc003.Run
unfoldable pub svc003 : Check
unfolding lookup_text text_eq
svc003 = over_config (codes "SVC003") (codes "pg-hba") λ v.
    if text_eq (lookup_text (codes "trust.nonlocal") v) (codes "true")
    then record (failing (codes "SVC003")) {
      resource = (codes "postgresql");
      evidence = (codes "pg_hba.conf has trust auth method for a non-local host entry");
      metadata = on_port (codes "5432");
      fix =
          diff_fix
            (codes
              "Replace 'trust' with 'scram-sha-256' (or 'md5') for all non-local host entries in pg_hba.conf and reload PostgreSQL.")
            (codes "# host  all  all  0.0.0.0/0  trust  ->  scram-sha-256");
    }
      ∷ []
    else passing (codes "SVC003")
        (codes "PostgreSQL pg_hba.conf has no trust auth for non-local hosts.")

-- svc004.Run
unfoldable pub svc004 : Check
unfolding lookup_text text_eq
svc004 = over_config (codes "SVC004") (codes "elasticsearch-yml") λ v.
    if not (text_eq (lookup_text (codes "xpack.security.enabled") v) (codes "true"))
    then record (failing (codes "SVC004")) {
      resource = (codes "elasticsearch");
      evidence =
          (codes "xpack.security.enabled = ") ++ lookup_text (codes "xpack.security.enabled") v;
      metadata = on_port (codes "9200");
      fix =
          diff_fix
            (codes
              "Set xpack.security.enabled: true in elasticsearch.yml and restart Elasticsearch.")
            (codes "xpack.security.enabled: true");
    }
      ∷ []
    else passing (codes "SVC004") (codes "Elasticsearch X-Pack security is enabled.")

-- svc050.Run
unfoldable pub svc050 : Check
unfolding lookup_text text_eq
svc050 = over_config (codes "SVC050") (codes "minio-env") λ v.
    if text_eq (lookup_text (codes "root-creds.default") v) (codes "true")
    then record (failing (codes "SVC050")) {
      resource = (codes "minio");
      evidence =
          (codes
            "MINIO_ROOT_USER and MINIO_ROOT_PASSWORD match the well-known minioadmin defaults");
      metadata = on_port (codes "9000");
      fix =
          diff_fix
            (codes
              "Set MINIO_ROOT_USER and MINIO_ROOT_PASSWORD to unique non-default values in the MinIO environment file.")
            (codes "MINIO_ROOT_USER=<unique-user>\nMINIO_ROOT_PASSWORD=<strong-password>");
    }
      ∷ []
    else passing (codes "SVC050") (codes "MinIO root credentials are not the default.")

-- svc051.Run
unfoldable pub svc051 : Check
unfolding lookup_text text_eq
svc051 = over_config (codes "SVC051") (codes "mosquitto-conf") λ v.
    if text_eq (lookup_text (codes "allow_anonymous") v) (codes "true")
    then record (failing (codes "SVC051")) {
      resource = (codes "mosquitto");
      evidence = (codes "allow_anonymous true");
      metadata = on_port (codes "1883");
      fix =
          diff_fix
            (codes
              "Set allow_anonymous false in mosquitto.conf and configure password_file or plugin-based authentication.")
            (codes "allow_anonymous false\npassword_file /etc/mosquitto/passwd");
    }
      ∷ []
    else passing (codes "SVC051") (codes "Mosquitto anonymous access is disabled.")

-- svc060.Run
unfoldable pub svc060 : Check
unfolding lookup_text text_eq
svc060 = over_config (codes "SVC060") (codes "traefik-yml") λ v.
    if not (text_eq (lookup_text (codes "api.insecure") v) (codes "true"))
    then passing (codes "SVC060") (codes "Traefik API/dashboard is not exposed insecurely.")
    else record (failing (codes "SVC060")) {
      resource = (codes "traefik api");
      evidence = (codes "api.insecure=true");
      metadata = on_port (codes "8080");
      fix =
          record (diff_fix
            (codes
              "Remove api.insecure=true from traefik.yml. Expose the dashboard only via an authenticated router with middleware (e.g. BasicAuth or ForwardAuth).")
            (codes "api:\n  insecure: true  ->  (remove or set insecure: false)")) {
              doc_url = (codes "https://doc.traefik.io/traefik/operations/api/#insecure");
            };
    }
      ∷ []
