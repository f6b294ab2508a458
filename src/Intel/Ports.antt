-- ===== src/Intel/Ports.antt =====
-- internal/intel/ports.go: sensitive ports, and the ports that an image is expected to publish.
use keelix.Prelude.{
  ℕ, Bool, ◌&&◌, ◌||◌, List, [], ◌∷◌, Option, none, some, ◌==◌, if◌then◌else◌, any, is_some,
}
use keelix.Text.{Text, codes, contains, to_lower}
use keelix.Intel.Images.{image_base}

-- The type PortCategory.
pub data PortCategory : Type 0 where
  datastore cache broker admin search_engine infra : PortCategory

pub record PortInfo : Type 0 where
  pub port : ℕ
  pub service : Text
  pub category : PortCategory

abbrev entry : ℕ → Text → PortCategory → PortInfo
entry port service category = record { port = port; service = service; category = category }

-- sensitivePorts: the keys are the ports of the entries
unfoldable pub sensitive_ports : List PortInfo
sensitive_ports =
    entry 5432 (codes "PostgreSQL") datastore
    ∷ entry 3306 (codes "MySQL/MariaDB") datastore
    ∷ entry 27017 (codes "MongoDB") datastore
    ∷ entry 27018 (codes "MongoDB (shard)") datastore
    ∷ entry 5984 (codes "CouchDB") datastore
    ∷ entry 7000 (codes "Cassandra (internode)") datastore
    ∷ entry 9042 (codes "Cassandra (CQL)") datastore
    ∷ entry 8086 (codes "InfluxDB") datastore
    ∷ entry 6379 (codes "Redis") cache
    ∷ entry 11211 (codes "Memcached") cache
    ∷ entry 9200 (codes "Elasticsearch") search_engine
    ∷ entry 9300 (codes "Elasticsearch (transport)") search_engine
    ∷ entry 7700 (codes "Meilisearch") search_engine
    ∷ entry 8108 (codes "Typesense") search_engine
    ∷ entry 5672 (codes "RabbitMQ (AMQP)") broker
    ∷ entry 15672 (codes "RabbitMQ (management)") admin
    ∷ entry 9092 (codes "Kafka") broker
    ∷ entry 4222 (codes "NATS") broker
    ∷ entry 1883 (codes "MQTT") broker
    ∷ entry 2375 (codes "Docker daemon (unencrypted)") infra
    ∷ entry 2376 (codes "Docker daemon (TLS)") infra
    ∷ entry 2379 (codes "etcd (client)") infra
    ∷ entry 2380 (codes "etcd (peer)") infra
    ∷ entry 9000 (codes "MinIO / Portainer / PHP-FPM") admin
    ∷ entry 9001 (codes "MinIO console") admin
    ∷ entry 9090 (codes "Prometheus") admin
    ∷ entry 3000 (codes "Grafana / app dev server") admin
    ∷ entry 8080 (codes "HTTP admin / alt-http") admin
    ∷ entry 8081 (codes "Admin UI (alt)") admin
    ∷ entry 8090 (codes "Admin UI (alt)") admin
    ∷ entry 5601 (codes "Kibana") admin
    ∷ entry 8200 (codes "HashiCorp Vault") infra
    ∷ entry 8500 (codes "Consul") infra
    ∷ entry 2049 (codes "NFS") infra
    ∷ entry 389 (codes "LDAP") infra
    ∷ entry 636 (codes "LDAPS") infra
    ∷ []

find_port : ℕ → List PortInfo → Option PortInfo
find_port port [] = none
find_port port (p ∷ ps) = if p.port == port then some p else find_port port ps

-- LookupPort
unfoldable pub lookup_port_info : ℕ → Option PortInfo
unfolding find_port
lookup_port_info port = find_port port sensitive_ports

-- IsSensitivePort
unfoldable pub is_sensitive_port : ℕ → Bool
unfolding find_port
is_sensitive_port port = is_some (find_port port sensitive_ports)

-- expectedPorts
unfoldable pub expected_ports : List (Text × List ℕ)
expected_ports =
    (codes "jellyfin", 8096 ∷ 8920 ∷ [])
    ∷ (codes "plex", 32400 ∷ [])
    ∷ (codes "emby", 8096 ∷ [])
    ∷ (codes "nginx", 80 ∷ 443 ∷ [])
    ∷ (codes "caddy", 80 ∷ 443 ∷ [])
    ∷ (codes "traefik", 80 ∷ 443 ∷ [])
    ∷ (codes "httpd", 80 ∷ 443 ∷ [])
    ∷ (codes "nextcloud", 80 ∷ 443 ∷ [])
    ∷ (codes "wordpress", 80 ∷ 443 ∷ [])
    ∷ (codes "ghost", 2368 ∷ 80 ∷ 443 ∷ [])
    ∷ (codes "gitea", 3000 ∷ 22 ∷ 80 ∷ 443 ∷ [])
    ∷ (codes "forgejo", 3000 ∷ 22 ∷ 80 ∷ 443 ∷ [])
    ∷ (codes "vaultwarden", 80 ∷ 443 ∷ [])
    ∷ (codes "jackett", 9117 ∷ [])
    ∷ (codes "sonarr", 8989 ∷ [])
    ∷ (codes "radarr", 7878 ∷ [])
    ∷ (codes "home-assistant", 8123 ∷ [])
    ∷ (codes "homeassistant", 8123 ∷ [])
    ∷ (codes "pihole", 80 ∷ 443 ∷ 53 ∷ [])
    ∷ (codes "uptime-kuma", 3001 ∷ [])
    ∷ []

-- ExpectedPublicPort
unfoldable pub expected_public_port : Text → ℕ → Bool
unfolding any
expected_public_port image port =
    let base = to_lower (image_base image) in
    any (λ (keyword, ports). contains base keyword && any (λ p. p == port) ports) expected_ports
    || port == 80
    || port == 443
