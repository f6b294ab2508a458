-- ===== src/Catalog/Services.antt =====
-- internal/catalog/catalog.go: the entries of the checks of service configurations.
use keelix.Prelude.{List, [], ◌∷◌}
use keelix.Text.{codes, utf8}
use keelix.Model.Finding.{critical, warning}
use keelix.Model.Check.{group_service}
use keelix.Catalog.Types.{
  Entry, entry, c_auth_info, c_boundary, c_config, c_logical, c_net_sec, c_priv_access,
  c_secure_auth,
}

unfoldable pub service_entries : List Entry
service_entries =
    entry (codes "SVC001") group_service (codes "Redis has no authentication (no-auth triad)")
      critical
      (codes
        "Redis is running without a password (requirepass not set), with protected-mode disabled, and bound to a non-loopback address. This triad means any host that can reach the Redis port can read, write, and delete every key in the store without any credential. Redis stores session tokens, application cache, and often entire database snapshots; unauthenticated access is a direct path to data exfiltration and cache poisoning.")
      (c_logical ∷ c_auth_info ∷ c_boundary ∷ c_config ∷ []) 90
    ∷ entry (codes "SVC002") group_service (codes "MongoDB authentication disabled") critical
        (codes
          "The MongoDB configuration does not set security.authorization: enabled, so the database accepts any connection without credentials. A default or misconfigured MongoDB instance is one of the most common sources of cloud data breaches; attackers actively scan for open MongoDB ports and exfiltrate or ransom the data within minutes of exposure.")
        (c_logical ∷ c_auth_info ∷ c_boundary ∷ []) 90
    ∷ entry (codes "SVC003") group_service
        (codes "PostgreSQL pg_hba.conf allows trust auth for non-local hosts") critical
        (codes
          "The PostgreSQL client authentication configuration (pg_hba.conf) contains a 'trust' entry for a non-local host range, meaning PostgreSQL grants access to any connection from that range with no password check. Trust auth should never be used for non-loopback connections; any host matching the rule can connect as any database user, including the superuser.")
        (c_logical ∷ c_auth_info ∷ c_boundary ∷ []) 90
    ∷ entry (codes "SVC004") group_service (codes "Elasticsearch X-Pack security disabled") critical
        (codes
          "Elasticsearch is configured with xpack.security.enabled: false, disabling authentication, TLS, and role-based access control for the entire cluster. Without X-Pack security, any client that can reach port 9200 can read, index, and delete all data across all indices, and can modify cluster settings.")
        (c_logical ∷ c_auth_info ∷ c_boundary ∷ c_config ∷ []) 85
    ∷ entry (codes "SVC010") group_service
        (codes "*arr application (Sonarr/Radarr/Prowlarr/Lidarr/Readarr) authentication disabled")
        critical
        (codes
          "The *arr media-management application (Sonarr, Radarr, Prowlarr, Lidarr, or Readarr) has AuthenticationMethod set to None in its config.xml. With no authentication, anyone who can reach the web UI can control indexers, download clients, and library settings, and can read the application's API key which may have further integrations.")
        (c_logical ∷ c_secure_auth ∷ c_config ∷ []) 75
    ∷ entry (codes "SVC011") group_service (codes "qBittorrent WebUI authentication disabled")
        warning
        (utf8
          "qBittorrent's WebUI is configured with authentication turned off. An unauthenticated WebUI allows anyone who can reach the port to add or remove torrents, change the download path to any host directory the process can write, and execute WebUI plugins — effectively arbitrary file-write on the host.")
        (c_logical ∷ c_secure_auth ∷ c_config ∷ []) 60
    ∷ entry (codes "SVC020") group_service
        (codes "Grafana anonymous access enabled or default admin credentials") warning
        (codes
          "Grafana is configured with anonymous access enabled (auth.anonymous.enabled = true) or the admin password has not been changed from the well-known default ('admin'). Anonymous access leaks every dashboard, data-source URL, and potentially embedded credentials. Default admin credentials let anyone take full administrative control of the Grafana instance.")
        (c_logical ∷ c_auth_info ∷ c_secure_auth ∷ []) 65
    ∷ entry (codes "SVC021") group_service
        (codes "Prometheus/Loki has no authentication configured") warning
        (codes
          "The Prometheus or Loki configuration does not define any authentication (basic_auth, bearer_token, or TLS client cert). Without authentication, anyone who can reach the metrics or log endpoint can read all scraped metrics and logs, which commonly contain hostnames, IP addresses, error traces, and operational secrets.")
        (c_logical ∷ c_secure_auth ∷ c_config ∷ []) 55
    ∷ entry (codes "SVC030") group_service (codes "Vaultwarden admin token absent or weak") critical
        (codes
          "The Vaultwarden password manager is running without an ADMIN_TOKEN set, or with a token that is not an Argon2 hash and is shorter than the recommended minimum. Without a strong admin token the /admin panel is either open to anyone or protected only by a weak secret that is trivially brute-forced. The admin panel can reset user vaults, invite arbitrary users, and export all stored passwords.")
        (c_logical ∷ c_auth_info ∷ c_secure_auth ∷ c_config ∷ []) 80
    ∷ entry (codes "SVC031") group_service
        (codes "Gitea installation not locked or open registration enabled") warning
        (codes
          "The Gitea git server has INSTALL_LOCK set to false (the install wizard is accessible and can be used to overwrite the admin account) or open registration is enabled (anyone can create an account and access repositories). Both states allow an unauthenticated attacker to gain administrative or contributor access to hosted repositories.")
        (c_logical ∷ c_secure_auth ∷ c_config ∷ []) 65
    ∷ entry (codes "SVC032") group_service (codes "Jenkins security disabled") critical
        (codes
          "The Jenkins CI/CD server has useSecurity set to false in its configuration, meaning the entire UI and API are accessible without any authentication or authorization. An unauthenticated user can create and run arbitrary pipelines, read build logs containing secrets, and execute code on the Jenkins controller and all connected agents.")
        (c_logical ∷ c_secure_auth ∷ c_boundary ∷ c_config ∷ []) 80
    ∷ entry (codes "SVC040") group_service (codes "Samba share with guest access enabled") warning
        (codes
          "One or more Samba shares have 'guest ok = yes' set, allowing unauthenticated access to the share contents. Guest-readable shares expose files to anyone who can reach SMB port 445, including lateral-movement pivots within the LAN. Guest-writable shares allow arbitrary file upload.")
        (c_logical ∷ c_auth_info ∷ c_net_sec ∷ []) 60
    ∷ entry (codes "SVC041") group_service
        (codes "NFS export with no_root_squash or world-accessible") warning
        (codes
          "An NFS export in /etc/exports uses no_root_squash (root on the client is treated as root on the server, bypassing the NFS security boundary) or exports to the world (*). Either condition allows a client with root access to read and overwrite any file on the exported filesystem as root, including SSH authorized_keys or sudoers.")
        (c_priv_access ∷ c_net_sec ∷ c_config ∷ []) 65
    ∷ entry (codes "SVC050") group_service (codes "MinIO running with default root credentials")
        critical
        (codes
          "The MinIO object storage server is configured with the well-known default root credentials (MINIO_ROOT_USER=minioadmin / MINIO_ROOT_PASSWORD=minioadmin). Anyone who can reach the MinIO API or console can authenticate as the root user and read, overwrite, or delete all buckets and objects.")
        (c_logical ∷ c_auth_info ∷ c_boundary ∷ []) 80
    ∷ entry (codes "SVC051") group_service
        (codes "Mosquitto MQTT broker allows anonymous connections") warning
        (codes
          "The Mosquitto MQTT broker is configured with allow_anonymous true, permitting any client to connect, publish, and subscribe to all topics without credentials. In IoT and home-automation environments this exposes every device topic to eavesdropping and command injection.")
        (c_logical ∷ c_secure_auth ∷ c_net_sec ∷ []) 60
    ∷ entry (codes "SVC052") group_service (codes "Syncthing GUI has no authentication") warning
        (codes
          "The Syncthing graphical interface is configured without a username and password. Anyone who can reach the GUI port can add or remove sync folders, read the contents of synced paths, and connect the instance to an attacker-controlled device.")
        (c_logical ∷ c_secure_auth ∷ c_config ∷ []) 55
    ∷ entry (codes "SVC060") group_service
        (codes "Traefik API/dashboard exposed insecurely (api.insecure=true)") critical
        (codes
          "Traefik is configured with api.insecure: true, which enables the dashboard and REST API on port 8080 without any authentication. The Traefik API provides a live map of every routed service, their TLS certificates, and middleware configuration, and in some versions can be used to modify routing rules at runtime.")
        (c_logical ∷ c_boundary ∷ c_config ∷ []) 75
    ∷ []
