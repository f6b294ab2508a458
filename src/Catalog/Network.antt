-- ===== src/Catalog/Network.antt =====
-- internal/catalog/catalog.go: the entries of the checks of exposure, firewall, proxy, DNS and TLS.
use keelix.Prelude.{List, [], ◌∷◌}
use keelix.Text.{codes, utf8}
use keelix.Model.Finding.{critical, info, warning}
use keelix.Model.Check.{group_exposure, group_firewall, group_proxy, group_dns, group_tls}
use keelix.Catalog.Types.{
  Entry, entry, c_auth_info, c_boundary, c_config, c_crypto, c_logical, c_monitor, c_net_sec,
  c_net_svc, c_priv_access, c_secure_auth, c_segregate, c_transit, c_vuln_mgmt, cis,
}

unfoldable pub exposure_entries : List Entry
exposure_entries =
    entry (codes "EXP001") group_exposure
      (codes "Sensitive internal service reachable from the internet") critical
      (codes
        "Datastores, caches and admin services (Postgres, Redis, MongoDB, Elasticsearch, MySQL, message brokers, admin panels) are designed to sit on a private network. When they answer connections from the public internet, anyone can attempt authentication, exploit known CVEs, or exfiltrate data directly.")
      (c_boundary
        ∷ c_net_sec
        ∷ c_segregate
        ∷ cis (codes "5.7") (codes "Privileged ports / unnecessary exposure")
        ∷ [])
      0
    ∷ entry (codes "EXP002") group_exposure (codes "Undeclared port reachable from the internet")
        warning
        (utf8
          "A port is reachable from the public internet that the Compose file does not publish. This is a surprise exposure — a host-level service, a leftover container, or a firewall gap — and surprises are where breaches start.")
        (c_boundary ∷ c_net_sec ∷ c_monitor ∷ []) 0
    ∷ entry (codes "EXP003") group_exposure
        (codes "Declared public port not reachable from the internet") info
        (codes
          "Compose publishes a port that is not actually reachable from outside. Usually benign (firewall is doing its job, or the service is down), but the declared/observed mismatch is worth surfacing so intent and reality stay aligned.")
        (c_boundary ∷ []) 0
    ∷ []

unfoldable pub firewall_entries : List Entry
firewall_entries =
    entry (codes "FW001") group_firewall
      (codes "Docker bypasses the host firewall for a published port") critical
      (utf8
        "Docker writes iptables rules in the DOCKER chain that are evaluated before UFW's rules. A `ufw deny <port>` therefore does nothing for a container that publishes that port — the service is reachable even though the operator believes the firewall blocks it. This is the single most common way self-hosted databases end up on the public internet.")
      (c_boundary ∷ c_net_sec ∷ c_config ∷ []) 0
    ∷ entry (codes "FW002") group_firewall
        (codes "Sensitive port bound to all interfaces (0.0.0.0)") warning
        (codes
          "Publishing a sensitive port without a bind address exposes it on every host interface, including the public one. Internal services should bind to 127.0.0.1 and be reached through a reverse proxy or SSH tunnel.")
        (c_boundary ∷ c_net_sec ∷ []) 0
    ∷ entry (codes "FW003") group_firewall (codes "Service uses host network mode") warning
        (codes
          "`network_mode: host` removes Docker's network isolation: the container shares the host's network stack, every port it opens is published directly, and port-level firewalling no longer applies as expected.")
        (c_net_sec
          ∷ c_segregate
          ∷ cis (codes "5.9") (codes "Host network namespace not shared")
          ∷ [])
        0
    ∷ entry (codes "FW004") group_firewall
        (codes "No DOCKER-USER firewall rule restricting published ports") info
        (codes
          "Because Docker bypasses UFW, the correct place to restrict container-published ports is the DOCKER-USER iptables chain. No such rule was found, so any published port is open to the world unless individually bound to localhost.")
        (c_boundary ∷ c_net_sec ∷ c_config ∷ []) 0
    ∷ entry (codes "FW005") group_firewall (codes "Docker daemon API exposed over TCP") critical
        (utf8
          "The Docker daemon is configured to accept connections on a TCP socket that is reachable beyond the local machine (port 2375 or 2376). The API provides full control of every container and the Docker runtime — the equivalent of unauthenticated root on the host. An attacker that can reach the socket can start privileged containers, read secrets from running containers, and pivot to the host with a single API call.")
        (c_boundary
          ∷ c_net_sec
          ∷ c_priv_access
          ∷ cis (codes "3.6") (codes "Ensure Docker daemon is not exposed over TCP")
          ∷ [])
        95
    ∷ entry (codes "FW006") group_firewall (codes "k3s/kubelet anonymous authentication enabled")
        critical
        (codes
          "The k3s or kubelet API server is configured with --anonymous-auth=true or lacks --authorization-mode=Webhook, allowing unauthenticated access to the Kubelet API (port 10250). This endpoint can be used to execute arbitrary commands in any pod on the node, read secrets, and exfiltrate workload data without credentials.")
        (c_boundary ∷ c_logical ∷ c_net_sec ∷ []) 80
    ∷ []

unfoldable pub proxy_entries : List Entry
proxy_entries =
    entry (codes "PRX001") group_proxy (codes "Public route has no authentication in front of it")
      warning
      (utf8
        "The reverse proxy routes traffic to a service with no authentication middleware. Anything exposed this way is open to anyone who knows the URL — the classic 'I thought it was private' dashboard leak.")
      (c_logical ∷ c_secure_auth ∷ c_net_svc ∷ []) 0
    ∷ entry (codes "PRX002") group_proxy (codes "Public route served over plain HTTP") warning
        (codes
          "A publicly routed service is served without TLS, so credentials and data travel in cleartext and are trivially intercepted on any network between the client and the host.")
        (c_transit ∷ c_crypto ∷ []) 0
    ∷ entry (codes "PRX003") group_proxy (codes "Reverse-proxy admin dashboard exposed insecurely")
        critical
        (codes
          "The proxy's own dashboard/API is exposed without authentication (e.g. Traefik `api.insecure=true`). This hands an attacker a live map of every routed service and, in many cases, the ability to reconfigure routing.")
        (c_logical ∷ c_boundary ∷ c_config ∷ []) 0
    ∷ entry (codes "PRX004") group_proxy (codes "Missing security headers on public route") info
        (codes
          "The route does not set baseline security headers (HSTS, X-Content-Type-Options, X-Frame-Options). These reduce the blast radius of common web attacks and are expected by most security reviews.")
        (c_config ∷ c_net_svc ∷ []) 0
    ∷ entry (codes "PRX005") group_proxy (codes "Overly broad / wildcard proxy route") warning
        (codes
          "A wildcard or catch-all host rule can unintentionally route traffic to internal services and makes it easy to expose something new without realizing it.")
        (c_net_sec ∷ c_config ∷ []) 0
    ∷ entry (codes "PRX006") group_proxy (codes "Reverse proxy uses default credentials") critical
        (codes
          "The proxy (e.g. Nginx Proxy Manager) still uses well-known default credentials, giving an attacker full control of routing and TLS.")
        (c_logical ∷ c_auth_info ∷ []) 0
    ∷ []

unfoldable pub dns_entries : List Entry
dns_entries =
    entry (codes "DNS001") group_dns (codes "Wildcard DNS record pointing at the host") info
      (codes
        "A wildcard record means every conceivable subdomain resolves to this host, making it easy to expose a new service unintentionally and harder to reason about your attack surface.")
      (c_net_sec ∷ c_config ∷ []) 0
    ∷ entry (codes "DNS002") group_dns (codes "Dangling DNS record (subdomain takeover risk)")
        warning
        (utf8
          "A DNS record points at a target that no longer resolves or is unclaimed. An attacker who claims that target can serve content from your domain — phishing, cookie theft, or full subdomain takeover.")
        (c_net_sec ∷ c_vuln_mgmt ∷ []) 0
    ∷ []

unfoldable pub tls_entries : List Entry
tls_entries =
    entry (codes "TLS001") group_tls (codes "Public service without HTTPS") warning
      (codes
        "A public HTTP service transmits everything in cleartext. Terminate TLS at the reverse proxy and redirect HTTP to HTTPS.")
      (c_transit ∷ c_crypto ∷ []) 0
    ∷ entry (codes "TLS002") group_tls (codes "Expired TLS certificate on public endpoint") critical
        (utf8
          "An expired certificate breaks trust for every client and is a sign that automated renewal has failed — often the prelude to an outage or a downgrade attack.")
        (c_transit ∷ c_crypto ∷ []) 0
    ∷ entry (codes "TLS003") group_tls (codes "Self-signed certificate on public endpoint") warning
        (codes
          "A self-signed certificate on a public endpoint trains users to click through warnings and provides no protection against active interception. Use a CA-issued certificate (e.g. Let's Encrypt).")
        (c_transit ∷ c_crypto ∷ []) 0
    ∷ entry (codes "TLS004") group_tls (codes "Weak TLS version or cipher suite") warning
        (codes
          "Obsolete TLS versions (1.0/1.1) or weak ciphers are vulnerable to known downgrade and decryption attacks and fail most compliance baselines.")
        (c_transit ∷ c_crypto ∷ []) 0
    ∷ []
