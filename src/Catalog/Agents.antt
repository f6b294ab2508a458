-- ===== src/Catalog/Agents.antt =====
-- internal/catalog/catalog.go: the entries of the checks of AI agents and MCP servers.
use keelix.Prelude.{List, [], ◌∷◌}
use keelix.Text.{codes, utf8}
use keelix.Model.Finding.{critical, warning}
use keelix.Model.Check.{group_ai_agent, group_mcp}
use keelix.Catalog.Types.{
  Entry, entry, c_auth_info, c_boundary, c_config, c_logical, c_malicious, c_monitor, c_net_sec,
  c_priv_access, c_secure_auth, c_vuln_detect, c_vuln_mgmt,
}

unfoldable pub ai_agent_entries : List Entry
ai_agent_entries =
    entry (codes "AGT001") group_ai_agent (codes "Agent auto-approval enabled") critical
      (codes
        "The AI agent is configured to execute shell commands, file writes, or tool calls without asking for human approval. A single prompt-injection or misconfigured task can run arbitrary commands on the host without any confirmation gate, turning the agent into an unauthenticated local code-execution surface.")
      (c_logical ∷ c_malicious ∷ c_config ∷ []) 85
    ∷ entry (codes "AGT002") group_ai_agent (codes "Lethal-trifecta capability co-presence")
        critical
        (codes
          "A single agent process simultaneously has access to private data (broad filesystem or token access), an untrusted ingest channel (web browsing, search, or an external MCP server), and an exfil channel (a messaging or HTTP MCP server). Any one leg is a risk; all three together mean a prompt-injection in fetched content can read private data and exfiltrate it without any human approval step.")
        (c_logical ∷ c_malicious ∷ c_boundary ∷ []) 95
    ∷ entry (codes "AGT003") group_ai_agent (codes "Blast radius: admin or docker group membership")
        warning
        (utf8
          "The agent process runs as a user who is a member of a privileged OS group (admin, wheel, sudo, or docker). If the agent is compromised or misused, it can escalate to full host control — sudo/wheel without a password prompt, or docker membership equivalent to root via a container escape.")
        (c_priv_access ∷ c_config ∷ []) 70
    ∷ entry (codes "AGT004") group_ai_agent (codes "Credential file permissions too open") warning
        (codes
          "An agent token or credential dotfile has file permissions wider than 0600, allowing other users on the system to read the credential. On a shared host, any local user can then impersonate the agent or call the API on the owner's behalf.")
        (c_auth_info ∷ c_config ∷ []) 60
    ∷ entry (codes "AGT005") group_ai_agent (codes "Credential backup sprawl") warning
        (codes
          "Backup copies of agent credential or config files (e.g. *.bak, *.orig, or files in a backup-tool snapshot) have been detected. Backup files often miss the access-control hardening applied to the originals, creating a secondary path to the same secrets.")
        (c_auth_info ∷ c_config ∷ c_vuln_mgmt ∷ []) 50
    ∷ entry (codes "AGT006") group_ai_agent
        (codes "Agent control surface bound to non-loopback address") critical
        (utf8
          "An agent gateway or API socket is listening on an address that is reachable beyond the local machine (not 127.0.0.1 or ::1). Without authentication, any host that can reach the bind address can issue commands to the agent, read its context, or trigger autonomous actions — equivalent to an unauthenticated RCE on the network.")
        (c_boundary ∷ c_logical ∷ c_net_sec ∷ []) 90
    ∷ entry (codes "AGT007") group_ai_agent
        (codes "Unattended autonomy: cron or keep-alive with auto-approval") critical
        (codes
          "A scheduled or keep-alive agent job is enabled while the agent's approval mode is also set to auto (no human confirmation required). This combination means the agent runs unattended commands indefinitely with no approval gate, amplifying any prompt-injection or misconfiguration into a persistent automated threat.")
        (c_logical ∷ c_malicious ∷ c_monitor ∷ []) 80
    ∷ entry (codes "AGT008") group_ai_agent (codes "Whole-disk or home-directory filesystem access")
        warning
        (codes
          "The agent is configured with access to the entire filesystem or the user's home directory rather than a restricted workspace. A prompt-injection or errant task can read SSH keys, cloud credentials, browser cookies, and other secrets beyond the agent's intended working scope.")
        (c_priv_access ∷ c_config ∷ c_logical ∷ []) 65
    ∷ entry (codes "AGT009") group_ai_agent (codes "Untrusted inbound channel open to public")
        warning
        (codes
          "The agent accepts instructions from a public or open channel (e.g. Discord group policy open, Telegram DM policy open). Any external actor can send the agent arbitrary tasks, bypassing the local trust boundary and enabling remote prompt-injection attacks.")
        (c_logical ∷ c_boundary ∷ c_malicious ∷ []) 60
    ∷ entry (codes "AGT010") group_ai_agent (codes "Unpinned agent skills, plugins, or extensions")
        warning
        (codes
          "Agent extensions or skill packages are loaded from an unpinned source (no version tag, floating git ref, or non-official marketplace). An update to the upstream source can silently change the agent's behavior or inject malicious capability without any change to the local configuration.")
        (c_malicious ∷ c_vuln_mgmt ∷ c_config ∷ []) 55
    ∷ []

unfoldable pub mcp_entries : List Entry
mcp_entries =
    entry (codes "MCP001") group_mcp (codes "Plaintext secret in MCP server configuration") critical
      (utf8
        "An MCP server's environment variable, HTTP header, or URL in the config file contains a secret-shaped value (API key, token, or password) stored in plaintext. Anyone who can read the config file — or any process with access to the environment — can extract and reuse the credential without any additional privilege.")
      (c_auth_info ∷ c_config ∷ c_logical ∷ []) 80
    ∷ entry (codes "MCP002") group_mcp (codes "MCP config file has weak permissions") warning
        (codes
          "An MCP configuration file that may contain secrets (API keys, tokens, URLs with credentials) has file permissions wider than 0600. Other local users can read the file and extract any credentials it contains.")
        (c_auth_info ∷ c_config ∷ []) 55
    ∷ entry (codes "MCP003") group_mcp (codes "Unpinned 'latest' MCP server via npx/uvx/pipx")
        warning
        (utf8
          "An MCP server is launched via npx, uvx, or pipx without pinning to a specific version, and the -y/--yes flag suppresses confirmation. The next time the agent starts, a silently updated package could introduce malicious tool definitions or change server behavior — a supply-chain attack vector with no local change.")
        (c_malicious ∷ c_vuln_mgmt ∷ c_config ∷ []) 60
    ∷ entry (codes "MCP004") group_mcp
        (codes "HTTP/SSE MCP server bound non-loopback without authentication") critical
        (utf8
          "An MCP server is listening on an HTTP or SSE transport at an address reachable beyond the local machine, with no authentication requirement detected. Any host that can reach the bind address can invoke MCP tools — including file system, shell, or external API tools — without any credentials.")
        (c_boundary ∷ c_logical ∷ c_net_sec ∷ []) 90
    ∷ entry (codes "MCP005") group_mcp
        (codes "Localhost HTTP/SSE MCP on potentially vulnerable SDK version") critical
        (codes
          "An MCP server is configured to use the HTTP or SSE transport on localhost. Known vulnerabilities in early MCP SDK versions (Python < 1.23.0, TypeScript < 1.24.0) affect this transport. SDK-version verification from lockfiles is pending; this finding flags the transport type for manual review until version-precise detection is available.")
        (c_vuln_mgmt ∷ c_secure_auth ∷ c_config ∷ []) 75
    ∷ entry (codes "MCP006") group_mcp (codes "MCP server from unvetted provenance") warning
        (codes
          "The MCP server's resolved source (git remote or package registry) is an individual GitHub account or unverified origin rather than a recognized organization or official registry. Unvetted packages can be abandoned, typosquatted, or silently modified by the publisher without triggering any local alert.")
        (c_malicious ∷ c_vuln_mgmt ∷ []) 55
    ∷ entry (codes "MCP007") group_mcp (codes "Tool-poisoning / rug-pull drift detected") critical
        (utf8
          "An MCP server's tool descriptions have changed since the last verified baseline. A change in tool descriptions while the server identity (command or URL) is unchanged is the signature of a rug-pull or tool-poisoning attack — the server now does something different than what was originally reviewed and approved.")
        (c_malicious ∷ c_vuln_detect ∷ c_monitor ∷ []) 90
    ∷ entry (codes "MCP008") group_mcp
        (codes "Permission-bypass amplifier present in MCP client config") warning
        (utf8
          "The MCP client configuration enables one or more permission-bypass settings (bypassPermissionsModeEnabled, allowAllBrowserActions, or broad trustedFolders). These settings amplify the impact of any other capability finding — an agent or MCP server that can already do something risky faces no additional confirmation gate.")
        (c_logical ∷ c_config ∷ c_malicious ∷ []) 50
    ∷ entry (codes "MCP009") group_mcp (codes "Known-CVE MCP tooling detected") critical
        (codes
          "A running process or installed package matches a known-vulnerable MCP tool (e.g. MCP Inspector affected by CVE-2025-49596). These tools have documented exploits; using them in a development or agent environment exposes the host to the published attack vector.")
        (c_vuln_mgmt ∷ c_vuln_detect ∷ c_malicious ∷ []) 85
    ∷ []
