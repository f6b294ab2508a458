-- ===== src/Checks.antt =====
-- internal/checks: what the checks share, as the helpers.go of their packages and the loops of
-- their Run methods have it. A check is a function of the scan context. A Go map that a check
-- ranges over is visited in the order of its list. The children are the packages.
pub mod Laws
pub mod Exposure
pub mod Daemons
pub mod Kubelet
pub mod Hardening
pub mod Secrets
pub mod Access
pub mod Proxy
pub mod Certificates
pub mod SupplyChain
pub mod Services
pub mod Media
pub mod Shares
pub mod Origin
pub mod Firewall
use keelix.Prelude.{
  ℕ, Bool, List, [], ◌∷◌, ◌++◌, Option, none, some, if◌then◌else◌, get_or_else, ◌&&◌,
}
use keelix.Text.{Text, codes, text_eq}
use keelix.Model.Finding.{Finding, Fix, info, not_assessed}
use keelix.Model.Signals.{Signals, ConfigFact}
use keelix.Model.Stack.{Stack, Service}
use keelix.Model.Scan.{ScanContext}
use keelix.Catalog.Types.{Entry, entry}
use keelix.Catalog.{get, finding, pass}

-- The method Run of a check.
abbrev pub Check : Type 0
Check = ScanContext → List Finding

-- What the package fmt prints: %q, and %.2f of an EPSS bucket divided by 200.
pub record Formats : Type 0 where
  pub quoted : Text → Text
  pub percentile : ℕ → Text

-- Get, which panics for an unknown id; the default is not reached for a known one.
unfoldable pub entry_of : Text → Entry
entry_of id = get_or_else (get id) (entry [] [] [] info [] [] 0)

-- catalog.Get(id).Finding()
abbrev pub failing : Text → Finding
failing id = finding (entry_of id)

-- []model.Finding{catalog.Get(id).Pass(detail)}
abbrev pub passing : Text → Text → List Finding
passing id detail = pass (entry_of id) detail ∷ []

-- A finding with the status NotAssessed.
abbrev pub unassessed : Text → Text → List Finding
unassessed id detail = record (failing id) { status = not_assessed; detail = detail } ∷ []

-- notAssessedNoServices
abbrev pub no_services : Text → List Finding
no_services id = unassessed id (codes "no compose services to assess")

-- notAssessed
abbrev pub no_collector : Text → List Finding
no_collector id =
    unassessed id (codes "inside-out collector data unavailable for this check; run with --collect")

-- A loop whose body appends what it is given.
unfoldable pub for_each : {A B : Type 0} → (A → List B) → List A → List B
for_each body [] = []
for_each body (x ∷ xs) = body x ++ for_each body xs

-- The end of a Run: a pass if there is no finding.
unfoldable pub or_pass : Text → Text → List Finding → List Finding
or_pass id detail [] = passing id detail
or_pass id detail (f ∷ fs) = f ∷ fs

-- The guard of the checks on the services: nothing to assess without a service.
unfoldable pub with_list : Text → (List Service → List Finding) → List Service → List Finding
with_list id body [] = no_services id
with_list id body (svc ∷ svcs) = body (svc ∷ svcs)

abbrev pub services_of : Option Stack → List Service
services_of none = []
services_of (some s) = s.services

unfoldable pub with_services : Text → (List Service → List Finding) → Option Stack → List Finding
unfolding with_list
with_services id body stack = with_list id body (services_of stack)

-- The check of every service by itself.
unfoldable pub over_services : Text → Text → (Service → List Finding) → Check
unfolding for_each or_pass with_services
over_services id detail body ctx =
    with_services id (λ svcs. or_pass id detail (for_each body svcs)) ctx.stack

-- The body of a loop that goes on where the test fails.
abbrev pub report_if : Bool → Finding → List Finding
report_if test f = if test then f ∷ [] else []

-- A text in pieces.
abbrev pub concat : List Text → Text
concat [] = []
concat (s ∷ ss) = s ++ concat ss

abbrev pub summary_fix : Text → Fix
summary_fix summary = record { summary = summary; diff = []; commands = []; doc_url = [] }

first_config : List ConfigFact → Text → Option ConfigFact
first_config [] id = none
first_config (c ∷ cs) id =
    let rest = first_config cs id in
    if text_eq c.schema_id id && c.schema_known then some c else rest

-- configBySchema
unfoldable pub config_by_schema : Option Signals → Text → Option ConfigFact
unfolding first_config
config_by_schema none id = none
config_by_schema (some s) id = first_config s.configs id
