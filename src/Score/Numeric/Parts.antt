-- ===== src/Score/Numeric/Parts.antt =====
-- The loop of computeNumeric, by the parts of each finding.
use keelix.Prelude.{ℕ, ◌+◌, ◌≤◌, ◌≡◌, ap, not, ◌&&◌, List, [], ◌∷◌, ◌++◌, arith, if◌then◌else◌}
use keelix.Model.Finding.{Finding, is_assessed, is_info, is_fail}
use keelix.Threatfeed.Record.{Table}
use keelix.Score.Risk.{risk, max_risk}
use keelix.Score.Numeric.{Sums, add_finding, sum_findings, no_sums, numeric_of, compute_numeric}

-- The total of a measure over the findings.
unfoldable pub total : (Finding → ℕ) → List Finding → ℕ
total g [] = 0
total g (f ∷ fs) = g f + total g fs

pub total-le :
    (g h : Finding → ℕ) (fs : List Finding) → ((f : Finding) → g f ≤ h f) → total g fs ≤ total h fs
unfolding total
total-le g h [] le = omega arith
total-le g h (f ∷ fs) le = omega (arith, le f, total-le g h fs le)

pub total-append :
    (g : Finding → ℕ) (xs ys : List Finding) → total g (xs ++ ys) ≡ total g xs + total g ys
unfolding total
total-append g [] ys = omega arith
total-append g (x ∷ xs) ys = omega (arith, total-append g xs ys)

-- What one finding adds to each of the three sums.
unfoldable pub risk_part : Table → Finding → ℕ
risk_part t f =
    if is_assessed f.status && not (is_info f.severity) && is_fail f then risk t f else 0

unfoldable pub info_part : Table → Finding → ℕ
info_part t f = if is_assessed f.status && is_info f.severity then risk t f else 0

unfoldable pub max_part : Finding → ℕ
max_part f = if is_assessed f.status then max_risk f else 0

abbrev pub sums_of : Table → List Finding → Sums
sums_of t fs = record {
  sum_risk = total (risk_part t) fs;
  sum_info_risk = total (info_part t) fs;
  sum_max = total max_part fs;
}

abbrev AddsUp : Sums → Sums → Sums → Type 0
AddsUp r a b =
    (r.sum_risk ≡ a.sum_risk + b.sum_risk)
    × (r.sum_info_risk ≡ a.sum_info_risk + b.sum_info_risk)
    × (r.sum_max ≡ a.sum_max + b.sum_max)

add_finding_parts :
    (t : Table) (s : Sums) (f : Finding)
    → AddsUp
        (add_finding t s f)
        s
        (record { sum_risk = risk_part t f; sum_info_risk = info_part t f; sum_max = max_part f })
unfolding add_finding risk_part info_part max_part
add_finding_parts t s f = ground arith

sum_findings_parts :
    (t : Table) (s : Sums) (fs : List Finding) → AddsUp (sum_findings t s fs) s (sums_of t fs)
unfolding sum_findings total
sum_findings_parts t s [] = omega arith
sum_findings_parts t s (f ∷ fs) =
    omega (arith, add_finding_parts t s f, sum_findings_parts t (add_finding t s f) fs)

-- The loop's result in closed form.
pub compute_numeric_parts :
    (t : Table) (fs : List Finding) → compute_numeric t fs ≡ numeric_of (sums_of t fs)
unfolding compute_numeric
compute_numeric_parts t fs = ap numeric_of (ground (arith, sum_findings_parts t no_sums fs))
