-- ===== src/Catalog/Containers.antt =====
-- internal/catalog/catalog.go: the entries of the checks of containers, secrets, access and supply chain.
use keelix.Prelude.{List, [], ◌∷◌}
use keelix.Text.{codes, utf8}
use keelix.Model.Finding.{critical, info, warning}
use keelix.Model.Check.{group_hardening, group_secrets, group_auth, group_supply_chain}
use keelix.Catalog.Types.{
  Entry, entry, c_auth_info, c_config, c_logical, c_malicious, c_priv_access, c_secure_auth,
  c_vuln_detect, c_vuln_mgmt, cis,
}

unfoldable pub hardening_entries : List Entry
hardening_entries =
    entry (codes "HRD001") group_hardening (codes "Container runs in privileged mode") critical
      (codes
        "`privileged: true` gives the container almost all host capabilities and device access. A compromise of the process is effectively a compromise of the host.")
      (c_priv_access ∷ c_config ∷ cis (codes "5.4") (codes "Privileged containers not used") ∷ []) 0
    ∷ entry (codes "HRD002") group_hardening (codes "Dangerous Linux capability added") warning
        (codes
          "Capabilities such as SYS_ADMIN, NET_ADMIN, SYS_PTRACE or ALL substantially widen what a compromised container can do to the host kernel and other containers.")
        (c_priv_access
          ∷ c_config
          ∷ cis (codes "5.3") (codes "Linux kernel capabilities restricted")
          ∷ [])
        0
    ∷ entry (codes "HRD003") group_hardening (codes "Docker socket mounted into a container")
        critical
        (codes
          "Mounting /var/run/docker.sock gives the container full control of the Docker daemon, which is equivalent to root on the host. A single application vulnerability becomes a full host takeover.")
        (c_priv_access
          ∷ c_config
          ∷ cis (codes "5.31") (codes "Docker socket not mounted in containers")
          ∷ [])
        0
    ∷ entry (codes "HRD004") group_hardening (codes "Container runs as root") warning
        (codes
          "Running as UID 0 means a process escape lands as root inside the container and maximizes the impact of any kernel or runtime vulnerability. Run as a dedicated non-root user instead.")
        (c_priv_access ∷ c_config ∷ []) 0
    ∷ entry (codes "HRD005") group_hardening (codes "Root filesystem is not read-only") info
        (codes
          "A writable root filesystem lets an attacker drop tools, modify binaries, or persist. Most services run fine with `read_only: true` plus explicit writable volumes.")
        (c_config ∷ cis (codes "5.12") (codes "Container root filesystem mounted read-only") ∷ []) 0
    ∷ entry (codes "HRD006") group_hardening (codes "Missing no-new-privileges") info
        (codes
          "Without `security_opt: [no-new-privileges:true]` a process inside the container can gain privileges via setuid binaries, undermining a non-root user.")
        (c_config ∷ cis (codes "5.25") (codes "Restrict acquiring additional privileges") ∷ []) 0
    ∷ entry (codes "HRD007") group_hardening (codes "No resource limits set") info
        (codes
          "Without memory/CPU limits a single container can exhaust host resources, enabling a noisy-neighbor denial of service against everything else on the host.")
        (c_config
          ∷ cis (codes "5.10") (codes "Memory usage limited")
          ∷ cis (codes "5.11") (codes "CPU priority set")
          ∷ [])
        0
    ∷ entry (codes "HRD008") group_hardening (codes "Mutable image tag (:latest or untagged)")
        warning
        (codes
          "`:latest` (or no tag) means the running image can change without warning, breaking reproducibility and silently pulling in vulnerable or malicious versions. Pin to an explicit version.")
        (c_config ∷ c_vuln_mgmt ∷ []) 0
    ∷ entry (codes "HRD009") group_hardening (codes "docker.sock world- or group-accessible")
        warning
        (utf8
          "/var/run/docker.sock has permissions that allow any user in the docker group (or world) to connect to it. The Docker socket gives full control of the Docker daemon — equivalent to root on the host. Correct permissions are 0660 root:docker so only explicit group members can access it.")
        (c_priv_access
          ∷ c_config
          ∷ cis (codes "3.15") (codes "Ensure Docker socket file ownership is set to root:docker")
          ∷ [])
        65
    ∷ entry (codes "HRD010") group_hardening
        (codes "Interactive user in docker group (root-equivalent)") warning
        (codes
          "A non-root interactive login user is a member of the docker group, which provides full Docker daemon access equivalent to unrestricted root on the host. Unlike a dedicated service account, an interactive user is also subject to password brute-force, phishing, and SSH attacks that land with immediate docker-group privilege.")
        (c_priv_access
          ∷ c_config
          ∷ cis (codes "3.5")
              (codes "Ensure Docker is not installed on a multi-user host without controls")
          ∷ [])
        70
    ∷ []

unfoldable pub secrets_entries : List Entry
secrets_entries =
    entry (codes "SEC001") group_secrets (codes "Plaintext secret in Compose configuration") warning
      (codes
        "Secrets written directly into compose environment values end up in the file, in `docker inspect`, in process listings, and often in version control. Use Docker secrets or mounted secret files instead.")
      (c_auth_info ∷ c_config ∷ c_logical ∷ []) 0
    ∷ entry (codes "SEC002") group_secrets (codes "Committed .env file containing secrets") critical
        (codes
          "A .env file with secrets is tracked in git, so the secret is in history forever and exposed to anyone with repository access. Rotate it and remove it from version control.")
        (c_auth_info ∷ c_logical ∷ []) 0
    ∷ entry (codes "SEC003") group_secrets (codes "Weak or default password") critical
        (utf8
          "A weak, empty, or well-known default password for a service is equivalent to no authentication — it is brute-forced or guessed in seconds.")
        (c_auth_info ∷ c_secure_auth ∷ []) 0
    ∷ entry (codes "SEC004") group_secrets (codes "Secret passed via environment variable") info
        (codes
          "Environment variables holding secrets are visible to anyone who can inspect the container and are easy to leak in logs. Prefer Docker secrets or mounted files.")
        (c_auth_info ∷ c_config ∷ []) 0
    ∷ []

unfoldable pub auth_entries : List Entry
auth_entries =
    entry (codes "AUTH001") group_auth (codes "Public service with no authentication layer") warning
      (codes
        "A service is exposed publicly with no identity-aware proxy (Authelia/Authentik) or built-in auth in front of it. Forward authentication closes the gap for tools that ship with weak or no access control.")
      (c_logical ∷ c_secure_auth ∷ []) 0
    ∷ entry (codes "AUTH002") group_auth (codes "Default admin credentials for a well-known image")
        critical
        (codes
          "A well-known image is configured with its documented default admin credentials. These are the first thing an attacker tries and are published in the project's own docs.")
        (c_logical ∷ c_auth_info ∷ c_secure_auth ∷ []) 0
    ∷ []

unfoldable pub supply_chain_entries : List Entry
supply_chain_entries =
    entry (codes "SUP001") group_supply_chain (codes "Image not pinned to a digest") info
      (codes
        "Without an @sha256 digest the exact image contents are not guaranteed, so a compromised or republished tag can change what runs without any change to your Compose file.")
      (c_malicious
        ∷ c_vuln_mgmt
        ∷ c_config
        ∷ cis (codes "4.5") (codes "Content trust enabled")
        ∷ [])
      0
    ∷ entry (codes "SUP002") group_supply_chain (codes "Image on the known-compromised feed")
        critical
        (codes
          "The image (or a tag of it) appears on a feed of known-compromised or malicious images. Running it risks executing attacker-controlled code.")
        (c_malicious ∷ c_vuln_mgmt ∷ []) 0
    ∷ entry (codes "SUP003") group_supply_chain
        (codes "Image affected by a known-exploited CVE (CISA KEV)") critical
        (utf8
          "A running image maps to a CVE on the CISA Known Exploited Vulnerabilities catalog — a vulnerability with confirmed, in-the-wild exploitation. When the affected service is reachable from a routable network this is the single strongest 'patch now' signal Keelix produces and caps the box RED. Image→CVE mapping is best-effort over the curated well-known self-hoster image set; absence of a finding is not a clean bill of health.")
        (c_vuln_mgmt ∷ c_vuln_detect ∷ cis (codes "4.5") (codes "Content trust enabled") ∷ []) 90
    ∷ entry (codes "SUP004") group_supply_chain (codes "Image affected by a high-EPSS CVE") warning
        (utf8
          "A running image maps to a CVE with a high FIRST.org EPSS exploit-prediction percentile (>= 0.90) that is not on the CISA KEV catalog. EPSS estimates the probability of exploitation in the next 30 days; a high percentile is a 'patch soon' nudge that has not yet crossed into confirmed exploitation. Image→CVE mapping is best-effort over the curated well-known self-hoster image set.")
        (c_vuln_mgmt ∷ c_vuln_detect ∷ []) 50
    ∷ []
