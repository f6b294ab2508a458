-- ===== src/Score/Risk.antt =====
-- The weights of one finding in v2.go: threat, risk, maxrisk and applyKEVFatal. One unit of risk is
-- 1 / 20,000,000: a tenth of impact, a hundredth of exposure, a 2000th of threat and a tenth of
-- confidence. Every product is then exact.
pub mod Bounds
use keelix.Prelude.{ℕ, ◌+◌, ◌*◌, true, ◌&&◌, List, [], map, none, some, if◌then◌else◌}
use keelix.Text.{Text, codes, text_eq, lookup_text}
use keelix.Model.Finding.{
  Finding, is_critical, exposure_multiplier, confidence_multiplier, can_cap_red,
}
use keelix.Model.Check.{domain_of, is_ai_mcp}
use keelix.Threatfeed.Record.{Table}
use keelix.Threatfeed.Lookup.{kev_listed, epss_percentile}

-- f.Metadata["cve"]
unfoldable pub cve_of : Finding → Text
cve_of f = lookup_text (codes "cve") f.metadata

-- threat, in 2000ths
unfoldable pub threat : Table → Finding → ℕ
threat t f =
    if text_eq (cve_of f) []
    then 2000
    else if kev_listed t (cve_of f)
    then 2000
    else elim (epss_percentile t (cve_of f)) [ none ↦ 2000 | some p ↦ 600 + 7 * p ]

-- The exposure multiplier of risk, in hundredths.
unfoldable pub exposure_weight : Finding → ℕ
exposure_weight f =
    if is_ai_mcp (domain_of f.group) then 100 else exposure_multiplier f.exposure_class

-- risk
unfoldable pub risk : Table → Finding → ℕ
risk t f = f.base_impact * exposure_weight f * threat t f * confidence_multiplier f.confidence

-- maxrisk, in the unit of risk
unfoldable pub max_risk : Finding → ℕ
max_risk f = f.base_impact * 2000000

-- The body of the loop of applyKEVFatal.
unfoldable pub escalate : Table → Finding → Finding
escalate t f =
    if text_eq (cve_of f) []
    then f
    else if kev_listed t (cve_of f) && can_cap_red f.exposure_class && is_critical f.severity
    then record f { fatal = true }
    else f

-- applyKEVFatal
unfoldable pub apply_kev_fatal : Table → List Finding → List Finding
apply_kev_fatal t fs = map (escalate t) fs
