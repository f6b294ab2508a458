-- ===== src/Engine/Methodology.antt =====
-- signalsDomains and methodology of engine.go.
use keelix.Prelude.{
  Bool, true, false, not, ◌&&◌, ◌||◌, List, [], ◌∷◌, ◌++◌, Option, none, some, ltb, any,
  if◌then◌else◌,
}
use keelix.Text.{Text, codes, text_eq}
use keelix.Model.Signals.{Signals, CollectError, PackageState, McpServerProbe}
use keelix.Model.Scan.{ScanOptions}

-- brand
unfoldable pub brand : ScanOptions → Text
brand opts = if not (text_eq opts.brand_name []) then opts.brand_name else codes "Keelix"

abbrev is_nonempty : {A : Type 0} → List A → Bool
is_nonempty [] = false
is_nonempty (x ∷ xs) = true

abbrev domain_if : Bool → Text → List Text
domain_if b name = if b then name ∷ [] else []

abbrev has_packages : PackageState → Bool
has_packages p =
    not (text_eq p.manager [])
    || ltb 0 p.security_updates_pending
    || p.reboot_required
    || p.distro_eol

-- The loop over the errors, from the domains so far.
add_errors : List CollectError → List Text → List Text
unfolding any
add_errors [] domains = domains
add_errors (ce ∷ ces) domains =
    if any (text_eq ce.domain) domains
    then add_errors ces domains
    else add_errors ces (domains ++ (ce.domain ++ codes " (partial)") ∷ [])

-- signalsDomains
unfoldable pub signals_domains : Option Signals → List Text
unfolding add_errors
signals_domains none = []
signals_domains (some s) = add_errors s.errors (
    domain_if (is_nonempty s.sockets) (codes "listening sockets")
    ++ domain_if (is_nonempty s.files) (codes "file facts")
    ++ domain_if (is_nonempty s.configs) (codes "config facts")
    ++ domain_if (is_nonempty s.processes) (codes "process facts")
    ++ domain_if (has_packages s.packages) (codes "package state")
    ++ domain_if (not (text_eq s.firewall.backend [])) (codes "firewall state"))

-- The list in words, after its first item.
domain_rest : List Text → Text
domain_rest [] = []
domain_rest (d ∷ []) = codes ", and " ++ d
domain_rest (d ∷ e ∷ ds) = codes ", " ++ d ++ domain_rest (e ∷ ds)

abbrev domain_list : List Text → Text
domain_list [] = []
domain_list (d ∷ ds) = d ++ domain_rest ds

-- The loop over the servers: the tier, and whether any sandbox was applied.
tier_of : List McpServerProbe → Text → Bool → Text × Bool
tier_of [] tier applied = (tier, applied)
tier_of (s ∷ ss) tier applied =
    tier_of ss
      (if not (text_eq s.sandbox_tier []) && not (text_eq s.sandbox_tier (codes "http"))
        then s.sandbox_tier
        else tier)
      (applied || s.sandbox_applied)

abbrev confinement : Text × Bool → Text
confinement (tier, true) = codes "kernel confinement verified (tier: " ++ tier ++ codes ")"
confinement (tier, false) =
    codes "Tier-0 process hygiene only (clean env, tempdir, pgid isolation; no kernel confinement "
    ++ codes "verified)"

mcp_sentence : Option Signals → Text
unfolding tier_of
mcp_sentence none = []
mcp_sentence (some s) = elim s.mcp_probe [
  | none ↦ []
  | some p ↦
      codes "The consent-gated active MCP probe also ran, connecting to declared MCP servers under "
      ++ confinement (tier_of p.servers (codes "tier0") false)
      ++ codes ", to inventory tool descriptions and detect tool-poisoning/rug-pull drift against "
      ++ codes "the recorded baseline. "
]

abbrev is_privileged : Option Signals → Bool
is_privileged none = false
is_privileged (some s) = s.privilege.root

domains_sentence : Option Signals → List Text → Text
unfolding domain_rest
domains_sentence sig [] =
    codes "inside-out collection was not performed for this run (outside-in and static analysis "
    ++ codes "only). "
domains_sentence sig (d ∷ ds) =
    codes "inside-out collection ran on the host ("
    ++ (if is_privileged sig then codes "privileged" else codes "unprivileged")
    ++ codes "), capturing "
    ++ domain_list (d ∷ ds)
    ++ codes " to corroborate exposure. "

intro : ScanOptions → Text
intro opts =
    let static_only = opts.no_probe || text_eq opts.host [] in
    if text_eq opts.compose_path []
    then (codes " performed a deterministic inside-out assessment of the local host. "
        ++ codes "The pipeline collects inside-out host signals and runs the full check library "
        ++ codes "against those signals "
        ++ (if static_only
            then codes
                "to evaluate host-level security posture (outside-in probing was disabled for this "
              ++ codes "run). "
            else codes
                "and probes the target from an external vantage point to corroborate exposure, "
              ++ codes "evaluating host-level security posture. "))
    else (codes " performed a deterministic, static-plus-dynamic assessment of the target's Docker "
        ++ codes "Compose deployment. The pipeline parses the Compose file (and any provided .env, "
        ++ codes "reverse-proxy and firewall configuration), infers which ports are intended to be "
        ++ codes "public, "
        ++ (if static_only
            then codes "and evaluates the full check library against the declared configuration "
              ++ codes "(outside-in probing was disabled for this run). "
            else codes
                "probes the target from an external vantage point to establish which ports are "
              ++ codes
                  "actually reachable, correlates declared-vs-reachable-vs-intended exposure, and "
              ++ codes "evaluates the full check library. "))

-- catalog.CatalogVersion
abbrev catalog_version : Text
catalog_version = codes "2.4.0"

-- methodology
unfoldable pub methodology : ScanOptions → Option Signals → Text
unfolding intro domains_sentence mcp_sentence
methodology opts sig =
    brand opts
    ++ intro opts
    ++ domains_sentence sig (signals_domains sig)
    ++ codes
        "All security findings are produced by deterministic checks; the optional AI layer only "
    ++ codes
        "enriches human-readable explanations and never affects detection or scoring. Findings "
    ++ codes "are mapped to SOC 2 Trust Services Criteria, ISO 27001 Annex A (2022), and the CIS "
    ++ codes "Docker Benchmark using check catalog v"
    ++ catalog_version
    ++ codes "."
    ++ mcp_sentence sig
