-- ===== src/Catalog.antt =====
-- internal/catalog/catalog.go: the catalog of the checks, and the findings that it starts.
pub mod Types
mod Network
mod Containers
mod Services
mod Agents
mod Host
pub mod Rules
use keelix.Prelude.{
  ℕ, Bool, true, false, List, [], ◌∷◌, ◌++◌, Option, none, some, map, ◌==◌, if◌then◌else◌, is_some,
}
use keelix.Prelude.Sort.{sort}
use keelix.Text.{Text, codes, text_eq, text_lt, lookup}
use keelix.Model.Finding.{Finding, Severity, critical, warning, ok, high, assessed, unknown}
use keelix.Catalog.Types.{Entry}
use keelix.Catalog.Network.{
  exposure_entries, firewall_entries, proxy_entries, dns_entries, tls_entries,
}
use keelix.Catalog.Containers.{
  hardening_entries, secrets_entries, auth_entries, supply_chain_entries,
}
use keelix.Catalog.Services.{service_entries}
use keelix.Catalog.Agents.{ai_agent_entries, mcp_entries}
use keelix.Catalog.Host.{host_entries}

-- defaultBaseImpact
abbrev default_base_impact : Severity → ℕ
default_base_impact critical = 90
default_base_impact warning = 50
default_base_impact _ = 20

-- fatalImpact
unfoldable pub fatal_impact : List (Text × ℕ)
fatal_impact =
    (codes "EXP001", 95)
    ∷ (codes "FW001", 95)
    ∷ (codes "FW005", 95)
    ∷ (codes "FW006", 90)
    ∷ (codes "AGT002", 95)
    ∷ (codes "AGT006", 90)
    ∷ (codes "MCP004", 90)
    ∷ (codes "HST003", 85)
    ∷ (codes "SVC001", 90)
    ∷ (codes "SVC002", 90)
    ∷ (codes "SVC003", 90)
    ∷ (codes "SVC004", 85)
    ∷ (codes "SVC010", 80)
    ∷ (codes "SVC030", 85)
    ∷ (codes "SVC032", 85)
    ∷ (codes "SVC050", 85)
    ∷ (codes "SVC060", 80)
    ∷ []

-- The body of the loop over the list, less the test for duplicates.
unfoldable pub complete : List (Text × ℕ) → Entry → Entry
unfolding lookup
complete fatals e =
    let impact = if e.base_impact == 0 then default_base_impact e.severity else e.base_impact in
    elim (lookup e.id fatals) [
      | none ↦ record e { base_impact = impact }
      | some bi ↦ record e { base_impact = bi; fatal = true }
    ]

-- The loop over the list; none where a duplicate makes the code panic.
unfoldable pub build :
    List (Text × ℕ) → List Entry → List (Text × Entry) → Option (List (Text × Entry))
unfolding complete lookup
build fatals [] m = some m
build fatals (e ∷ es) m =
    let rest = build fatals es (m ++ (e.id, complete fatals e) ∷ []) in
    if is_some (lookup e.id m) then none else rest

-- The variable list.
unfoldable pub entry_list : List Entry
unfolding exposure_entries firewall_entries proxy_entries dns_entries tls_entries hardening_entries
    secrets_entries auth_entries supply_chain_entries service_entries ai_agent_entries mcp_entries
    host_entries
entry_list =
    exposure_entries
    ++ (firewall_entries
        ++ (proxy_entries
            ++ (hardening_entries
                ++ (secrets_entries
                    ++ (tls_entries
                        ++ (dns_entries
                            ++ (auth_entries
                                ++ (supply_chain_entries
                                    ++ (service_entries
                                        ++ (ai_agent_entries
                                            ++ (mcp_entries ++ host_entries)))))))))))

-- The variable entries.
unfoldable pub entries : Option (List (Text × Entry))
unfolding build fatal_impact entry_list
entries = build fatal_impact entry_list []

unfoldable pub find : Option (List (Text × Entry)) → Text → Option Entry
unfolding lookup
find none id = none
find (some m) id = lookup id m

-- Get; none where the code panics
unfoldable pub get : Text → Option Entry
unfolding entries find
get id = find entries id

-- Has
unfoldable pub has : Text → Bool
unfolding get
has id = is_some (get id)

-- All
unfoldable pub all_entries : List (Text × Entry) → List Entry
all_entries m = sort (λ d e. text_lt d.id e.id) (map (λ (p : Text × Entry). p.1) m)

-- Entry.Finding
unfoldable pub finding : Entry → Finding
finding e = record {
  check_id = e.id;
  group = e.group;
  title = e.title;
  severity = e.severity;
  passed = false;
  service = [];
  resource = [];
  detail = e.rationale;
  evidence = [];
  fix = record { summary = []; diff = []; commands = []; doc_url = [] };
  controls = e.controls;
  ai_explanation = [];
  ai_diff = [];
  metadata = [];
  base_impact = e.base_impact;
  confidence = high;
  exposure_class = unknown;
  mitigations = [];
  fatal = e.fatal;
  status = assessed;
}

-- Entry.Pass
unfoldable pub pass : Entry → Text → Finding
unfolding text_eq finding
pass e detail = record (finding e) {
  severity = ok;
  passed = true;
  detail = if text_eq detail [] then codes "No issues found for this check." else detail;
  fatal = false;
}
