-- ===== src/Score/Numeric.antt =====
-- computeNumeric of v2.go, in exact arithmetic: the sums are in the unit of risk. The float64 sums of
-- the code are rounded, and depend on the order of the findings by that, so that its score can differ
-- by one from this one where the quotient is close to a half.
pub mod Parts
pub mod Laws
pub mod Changes
use keelix.Prelude.{ℕ, ◌+◌, ◌-◌, ◌*◌, ◌/◌, Bool, List, [], ◌∷◌, ltb, ◌==◌, if◌then◌else◌}
use keelix.Model.Finding.{Finding, is_assessed, is_info, is_fail}
use keelix.Threatfeed.Record.{Table}
use keelix.Score.Risk.{risk, max_risk}

-- infoCapPoints: 5.0
abbrev pub info_cap_points : ℕ
info_cap_points = 100000000

pub record Sums : Type 0 where
  pub sum_risk : ℕ
  pub sum_info_risk : ℕ
  pub sum_max : ℕ

-- The body of the loop, for one finding.
unfoldable pub add_finding : Table → Sums → Finding → Sums
add_finding t s f =
    if is_assessed f.status
    then (let sum_max = s.sum_max + max_risk f in
        if is_info f.severity
        then record s { sum_info_risk = s.sum_info_risk + risk t f; sum_max = sum_max }
        else if is_fail f
        then record s { sum_risk = s.sum_risk + risk t f; sum_max = sum_max }
        else record s { sum_max = sum_max })
    else s

unfoldable pub sum_findings : Table → Sums → List Finding → Sums
sum_findings t s [] = s
sum_findings t s (f ∷ fs) = sum_findings t (add_finding t s f) fs

abbrev pub no_sums : Sums
no_sums = record { sum_risk = 0; sum_info_risk = 0; sum_max = 0 }

-- The ratio after the loop. math.Round rounds a half up, and the number is not negative.
unfoldable pub numeric_of : Sums → ℕ
numeric_of s =
    let info = if ltb info_cap_points s.sum_info_risk then info_cap_points else s.sum_info_risk in
    let total = s.sum_risk + info in
    if s.sum_max == 0
    then 100
    else if ltb s.sum_max total
    then 0
    else (200 * (s.sum_max - total) + s.sum_max) / (2 * s.sum_max)

-- computeNumeric
unfoldable pub compute_numeric : Table → List Finding → ℕ
compute_numeric t fs = numeric_of (sum_findings t no_sums fs)
