-- ===== src/Score/Risk/Bounds.antt =====
-- Bounds of the weights of a finding.
use native.Mathlib.Nat.{mul-le-mul}
use keelix.Prelude.{ℕ, ◌*◌, ◌≤◌, ◌≡◌, some, arith, Option-cases, inl, inr}
use keelix.Text.{Text}
use keelix.Model.Finding.{
  Finding, ExposureClass, Confidence, exposure_multiplier, confidence_multiplier,
}
use keelix.Threatfeed.Record.{Table, Record, percentile}
use keelix.Threatfeed.Lookup.{lookup, epss_percentile}
use keelix.Score.Risk.{cve_of, threat, exposure_weight, risk, max_risk}

percentile-le : (r : Record) → percentile r ≤ 200
unfolding percentile
percentile-le r = ground arith

epss_percentile-le : (t : Table) (cve : Text) (p : ℕ) → epss_percentile t cve ≡ some p → p ≤ 200
unfolding epss_percentile
epss_percentile-le t cve p h = elim (Option-cases (lookup t cve)) [
  | inl gone ↦ ground arith
  | inr (r, e) ↦ ground (arith, percentile-le r)
]

-- The threat weight of a finding lies in [0.3, 1.0].
pub threat_bounds : (t : Table) (f : Finding) → (600 ≤ threat t f) × (threat t f ≤ 2000)
unfolding threat
threat_bounds t f = elim (Option-cases (epss_percentile t (cve_of f))) [
  | inl gone ↦ ground arith
  | inr (p, e) ↦ ground (arith, epss_percentile-le t (cve_of f) p e)
]

exposure_multiplier-le : (c : ExposureClass) → exposure_multiplier c ≤ 100
unfolding exposure_multiplier
exposure_multiplier-le c = ground arith

confidence_multiplier-le : (c : Confidence) → confidence_multiplier c ≤ 10
unfolding confidence_multiplier
confidence_multiplier-le c = ground arith

exposure_weight-le : (f : Finding) → exposure_weight f ≤ 100
unfolding exposure_weight
exposure_weight-le f = ground (arith, exposure_multiplier-le f.exposure_class)

-- No finding weighs more than its share of the denominator.
pub risk-le-max_risk : (t : Table) (f : Finding) → risk t f ≤ max_risk f
unfolding risk max_risk
risk-le-max_risk t f =
    let w : f.base_impact * exposure_weight f * threat t f * confidence_multiplier f.confidence
        ≤ f.base_impact * 100 * 2000 * 10 =
      mul-le-mul
        (mul-le-mul (mul-le-mul {n₁ = f.base_impact} (omega arith) (exposure_weight-le f))
          (threat_bounds t f).1)
        (confidence_multiplier-le f.confidence) in
    omega arith
