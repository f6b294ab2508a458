-- ===== src/Model/Check.antt =====
-- internal/model/check.go and domain.go: the check groups and their scoring domains.
use keelix.Prelude.{Bool, true, false, ◌||◌, List, [], ◌∷◌, if◌then◌else◌}
use keelix.Text.{Text, codes, text_eq}

-- The type CheckGroup and its constants. A group of a custom policy is none of these.
abbrev pub CheckGroup : Type 0
CheckGroup = Text

abbrev pub group_host : CheckGroup
group_host = codes "Host OS"

abbrev pub group_exposure : CheckGroup
group_exposure = codes "Network Exposure"

abbrev pub group_firewall : CheckGroup
group_firewall = codes "Docker/Firewall Bypass"

abbrev pub group_proxy : CheckGroup
group_proxy = codes "Reverse Proxy"

abbrev pub group_hardening : CheckGroup
group_hardening = codes "Container Hardening"

abbrev pub group_secrets : CheckGroup
group_secrets = codes "Secrets"

abbrev pub group_tls : CheckGroup
group_tls = codes "TLS/Certificates"

abbrev pub group_dns : CheckGroup
group_dns = codes "DNS"

abbrev pub group_auth : CheckGroup
group_auth = codes "Authentication/Access"

abbrev pub group_supply_chain : CheckGroup
group_supply_chain = codes "Supply Chain"

abbrev pub group_service : CheckGroup
group_service = codes "Service Configuration"

abbrev pub group_ai_agent : CheckGroup
group_ai_agent = codes "AI Agent Posture"

abbrev pub group_mcp : CheckGroup
group_mcp = codes "MCP Posture"

-- GroupOrder
unfoldable pub group_order : List CheckGroup
group_order =
    group_host ∷ group_exposure ∷ group_firewall ∷ group_proxy ∷ group_hardening ∷ group_secrets
    ∷ group_tls ∷ group_dns ∷ group_auth ∷ group_supply_chain ∷ group_service ∷ group_ai_agent
    ∷ group_mcp ∷ []

-- The type ScoreDomain.
pub data ScoreDomain : Type 0 where
  box ai_mcp : ScoreDomain

-- DomainOf
unfoldable pub domain_of : CheckGroup → ScoreDomain
unfolding text_eq
domain_of g = if text_eq g group_ai_agent || text_eq g group_mcp then ai_mcp else box

abbrev pub is_ai_mcp : ScoreDomain → Bool
is_ai_mcp ai_mcp = true
is_ai_mcp box = false
