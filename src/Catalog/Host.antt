-- ===== src/Catalog/Host.antt =====
-- internal/catalog/catalog.go: the entries of the checks of the host.
use keelix.Prelude.{List, [], ◌∷◌}
use keelix.Text.{codes, utf8}
use keelix.Model.Finding.{critical, info, warning}
use keelix.Model.Check.{group_host}
use keelix.Catalog.Types.{Entry, entry, cisl, iso, soc2}

unfoldable pub host_entries : List Entry
host_entries =
    entry (codes "HST001") group_host (codes "SSH password authentication enabled") warning
      (codes
        "When PasswordAuthentication is set to yes, any account with a weak or reused password is exposed to brute-force and credential-stuffing attacks over SSH. Disabling password auth and requiring public-key authentication eliminates this entire attack class. Most internet-facing SSH brute-force attempts rely solely on password guessing.")
      (cisl (codes "5.1.1") (codes "Ensure permissions on /etc/ssh/sshd_config are configured")
        ∷ cisl (codes "5.2.11") (codes "Ensure SSH PasswordAuthentication is disabled")
        ∷ soc2 (codes "CC6.1") (codes "Logical access controls")
        ∷ iso (codes "A.8.5") (codes "Secure authentication")
        ∷ [])
      55
    ∷ entry (codes "HST002") group_host (codes "SSH root login permitted") warning
        (codes
          "Allowing root to authenticate directly over SSH removes the audit trail provided by sudo (no intermediate account to log), and a successful brute-force or credential-compromise immediately yields full host control. Setting PermitRootLogin to no or without-password forces all administrative actions through a named, auditable user. The prohibit-password setting still allows key-based root login and is treated as a finding because it retains the direct-root attack surface.")
        (cisl (codes "5.2.10") (codes "Ensure SSH root login is disabled")
          ∷ soc2 (codes "CC6.1") (codes "Logical access controls")
          ∷ iso (codes "A.8.2") (codes "Privileged access rights")
          ∷ [])
        60
    ∷ entry (codes "HST003") group_host
        (codes "SSH internet-exposed with password auth and root login") critical
        (codes
          "The SSH daemon is simultaneously accepting password authentication, permitting direct root login, and bound to a non-loopback interface reachable from the internet. This trifecta means a successful brute-force or credential-stuffing attack grants immediate, unauthenticated root shell access to the host. This is the single most commonly exploited configuration in internet-facing Linux hosts and justifies an overall RED cap on the scan.")
        (cisl (codes "5.2.10") (codes "Ensure SSH root login is disabled")
          ∷ cisl (codes "5.2.11") (codes "Ensure SSH PasswordAuthentication is disabled")
          ∷ soc2 (codes "CC6.6") (codes "Boundary protection / external threats")
          ∷ iso (codes "A.8.5") (codes "Secure authentication")
          ∷ iso (codes "A.8.2") (codes "Privileged access rights")
          ∷ [])
        85
    ∷ entry (codes "HST004") group_host (codes "SSH weak protocol parameters") info
        (codes
          "One or more SSH daemon settings deviate from hardened defaults: MaxAuthTries above 4 allows more brute-force attempts per connection; LoginGraceTime above 60 seconds extends the window for incomplete handshakes; X11Forwarding enabled can be used to relay X11 traffic for session hijacking; PermitEmptyPasswords yes allows accounts with blank passwords to authenticate. Each individually is low-risk but together they widen the attack surface unnecessarily.")
        (cisl (codes "5.2.5") (codes "Ensure SSH MaxAuthTries is set to 4 or less")
          ∷ cisl (codes "5.2.14") (codes "Ensure SSH LoginGraceTime is set to one minute or less")
          ∷ cisl (codes "5.2.6") (codes "Ensure SSH X11 forwarding is disabled")
          ∷ soc2 (codes "CC6.1") (codes "Logical access controls")
          ∷ iso (codes "A.8.5") (codes "Secure authentication")
          ∷ [])
        30
    ∷ entry (codes "HST005") group_host (codes "No brute-force protection configured") info
        (codes
          "Neither fail2ban nor a comparable intrusion-prevention tool is running and SSH password authentication is enabled. Without rate-limiting on failed authentication attempts, the host is susceptible to unthrottled brute-force attacks. Even modest tooling significantly raises the cost of credential-guessing campaigns.")
        (cisl (codes "5.3.2") (codes "Ensure lockout for failed password attempts is configured")
          ∷ soc2 (codes "CC6.1") (codes "Logical access controls")
          ∷ iso (codes "A.8.5") (codes "Secure authentication")
          ∷ [])
        25
    ∷ entry (codes "HST010") group_host (codes "Security updates pending") warning
        (codes
          "One or more packages with known security fixes are available but not yet installed. Unpatched software is the most common initial access vector in real-world breaches; the longer patches are delayed, the higher the probability that an exploit becomes available before the fix is applied. Hosts with more than 20 pending security updates or an end-of-life distro are elevated to Critical.")
        (cisl (codes "1.2.2.1") (codes "Ensure package manager repositories are configured")
          ∷ soc2 (codes "CC7.1") (codes "Vulnerability detection")
          ∷ iso (codes "A.8.8") (codes "Management of technical vulnerabilities")
          ∷ [])
        50
    ∷ entry (codes "HST011") group_host (codes "Operating system has reached end of life") critical
        (codes
          "The host is running a Linux distribution version that has passed its vendor-published end-of-life date and no longer receives security updates. Any vulnerability discovered after EOL is permanently unpatched, meaning the risk profile only worsens over time. Migration to a supported release is the only remediation.")
        (cisl (codes "1.1.1") (codes "Ensure a supported version of the operating system is used")
          ∷ soc2 (codes "CC7.1") (codes "Vulnerability detection")
          ∷ iso (codes "A.8.8") (codes "Management of technical vulnerabilities")
          ∷ [])
        70
    ∷ entry (codes "HST012") group_host (codes "Reboot required to apply kernel update") info
        (codes
          "A kernel or libc update has been installed but the host has not been rebooted, so the running kernel is older than the installed one. The host may be missing kernel-level security patches until the next reboot. For live-patching environments this finding can be suppressed if kpatch or livepatch is active.")
        (cisl (codes "1.2.2.1") (codes "Ensure package manager repositories are configured")
          ∷ soc2 (codes "CC7.1") (codes "Vulnerability detection")
          ∷ iso (codes "A.8.8") (codes "Management of technical vulnerabilities")
          ∷ [])
        25
    ∷ entry (codes "HST013") group_host (codes "Unattended upgrades not enabled") info
        (codes
          "Automatic installation of security updates is not configured (apt unattended-upgrades or equivalent). Manual patching workflows introduce lag between vulnerability disclosure and remediation; automated security-only upgrades close this window without introducing instability from feature updates.")
        (cisl (codes "1.2.2.1") (codes "Ensure package manager repositories are configured")
          ∷ soc2 (codes "CC7.1") (codes "Vulnerability detection")
          ∷ iso (codes "A.8.8") (codes "Management of technical vulnerabilities")
          ∷ [])
        25
    ∷ entry (codes "HST020") group_host (codes "Passwordless sudo rule present") warning
        (utf8
          "A NOPASSWD rule in /etc/sudoers or /etc/sudoers.d allows one or more users to run commands as root without supplying a password. Any process running as that user — including a compromised application — can escalate to root silently, with no password prompt to serve as a speed bump or logging event.")
        (cisl (codes "5.2.2") (codes "Ensure sudo commands use pty")
          ∷ cisl (codes "5.2.3") (codes "Ensure sudo log file exists")
          ∷ soc2 (codes "CC6.1") (codes "Logical access controls")
          ∷ iso (codes "A.8.2") (codes "Privileged access rights")
          ∷ [])
        60
    ∷ entry (codes "HST021") group_host (codes "Multiple accounts with UID 0") critical
        (codes
          "More than one account in /etc/passwd has UID 0, giving those accounts unconditional root privileges identical to the root account itself. Duplicate UID 0 accounts are a common persistence technique used by attackers after gaining initial access; their presence is highly anomalous on a correctly configured system and warrants immediate investigation.")
        (cisl (codes "4.1.1") (codes "Ensure password expiration is configured")
          ∷ cisl (codes "4.2.3") (codes "Ensure all groups in /etc/passwd exist in /etc/group")
          ∷ soc2 (codes "CC6.1") (codes "Logical access controls")
          ∷ iso (codes "A.8.2") (codes "Privileged access rights")
          ∷ [])
        75
    ∷ entry (codes "HST022") group_host (codes "Account with empty password detected") critical
        (codes
          "One or more local accounts in /etc/shadow have an empty password field, meaning authentication succeeds without any credential. An attacker with local network access or a shell session as any other user can switch to these accounts without being challenged. This finding requires root to read /etc/shadow; it returns NotAssessed when the collector lacked the necessary privilege.")
        (cisl (codes "4.1.2") (codes "Ensure minimum password age is configured")
          ∷ cisl (codes "4.4.3") (codes "Ensure password hashing algorithm is SHA-512 or yescrypt")
          ∷ soc2 (codes "CC6.1") (codes "Logical access controls")
          ∷ iso (codes "A.5.17") (codes "Authentication information")
          ∷ [])
        75
    ∷ entry (codes "HST023") group_host (codes "/etc/shadow is world-readable") warning
        (codes
          "The shadow password file has permissions that allow any local user to read it. Even with modern password hashing, world-readable shadow files enable offline cracking attacks and violate every OS security baseline. Correct permissions are 0000 (root-only) or 0640 (root:shadow).")
        (cisl (codes "4.1.1") (codes "Ensure password expiration is configured")
          ∷ soc2 (codes "CC6.1") (codes "Logical access controls")
          ∷ iso (codes "A.5.17") (codes "Authentication information")
          ∷ [])
        60
    ∷ entry (codes "HST030") group_host (codes "Host firewall default inbound policy is not deny")
        warning
        (codes
          "The host firewall (nftables, iptables, or ufw) does not have a default-deny policy on inbound traffic, meaning any service that binds to a network interface is reachable unless an explicit deny rule exists. A default-deny stance is the correct posture: only whitelisted ports are accessible, and newly started services are blocked until explicitly permitted.")
        (cisl (codes "3.4.1") (codes "Ensure nftables is installed")
          ∷ cisl (codes "3.4.2") (codes "Ensure a table exists for nftables")
          ∷ soc2 (codes "CC6.6") (codes "Boundary protection / external threats")
          ∷ iso (codes "A.8.20") (codes "Network security")
          ∷ [])
        55
    ∷ entry (codes "HST040") group_host (codes "Weak kernel sysctl hardening parameters") info
        (codes
          "One or more kernel sysctl parameters deviate from the hardened baseline: kernel.randomize_va_space should be 2 (full ASLR); kernel.kptr_restrict should be at least 1 (hide kernel pointers from unprivileged users); kernel.dmesg_restrict should be 1 (hide dmesg from unprivileged users); kernel.yama.ptrace_scope should be at least 1 (restrict ptrace to parent processes); fs.suid_dumpable should be 0 (disable core dumps for setuid binaries). Each individually is low-risk but together they provide meaningful defense-in-depth against local privilege escalation.")
        (cisl (codes "1.5.1") (codes "Ensure address space layout randomization is enabled")
          ∷ cisl (codes "1.5.2") (codes "Ensure ptrace_scope is restricted")
          ∷ soc2 (codes "CC6.8") (codes "Prevention of unauthorized/malicious software")
          ∷ iso (codes "A.8.9") (codes "Configuration management")
          ∷ [])
        30
    ∷ entry (codes "HST041") group_host (codes "No disk encryption detected") info
        (codes
          "No LUKS or dm-crypt encrypted block device was detected on the host. Without full-disk or volume-level encryption, physical or hypervisor-level access to the storage medium allows offline extraction of all data, including secrets, databases, and logs. This is an informational finding because cloud VMs typically rely on provider-managed encryption at rest; operators should verify the provider's default.")
        (cisl (codes "1.3.1") (codes "Ensure AIDE is installed")
          ∷ soc2 (codes "CC6.7") (codes "Data in transit encryption")
          ∷ iso (codes "A.8.24") (codes "Use of cryptography")
          ∷ [])
        20
    ∷ []
