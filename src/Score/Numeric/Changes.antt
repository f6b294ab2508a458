-- ===== src/Score/Numeric/Changes.antt =====
-- How the numeric score changes with the findings.
use native.Mathlib.Nat.{mul-le-mul}
use keelix.Prelude.{ℕ, ◌+◌, ◌≤◌, ◌<◌, ◌≡◌, false, List, [], ◌∷◌, ◌++◌, arith, All}
use keelix.Model.Finding.{
  Finding, ExposureClass, is_assessed, is_info, is_fail, exposure_multiplier,
}
use keelix.Threatfeed.Record.{Table}
use keelix.Score.Risk.{cve_of, threat, exposure_weight, risk, max_risk}
use keelix.Score.Numeric.{compute_numeric, info_cap_points}
use keelix.Score.Numeric.Parts.{total, total-append, risk_part, info_part, max_part}
use keelix.Score.Numeric.Laws.{
  capped, ratio, ratio_antitone, numerator, compute_numeric_lem, compute_numeric_mono,
}

-- The totals of a list with one finding in the middle.
total_middle :
    (g : Finding → ℕ) (xs ys : List Finding) (f : Finding)
    → total g (xs ++ f ∷ ys) ≡ total g (xs ++ ys) + g f
unfolding total
total_middle g xs ys f = omega (arith, total-append g xs ys, total-append g xs (f ∷ ys))

capped_mono : (i j : ℕ) → i ≤ j → capped i ≤ capped j
capped_mono i j le = ground arith

-- A finding that weighs at least as much in the numerator and as much in the denominator.
replace_lowers :
    (t : Table) (xs ys : List Finding) (f g : Finding)
    → max_part f ≡ max_part g
    → risk_part t f ≤ risk_part t g
    → info_part t f ≤ info_part t g
    → compute_numeric t (xs ++ g ∷ ys) ≤ compute_numeric t (xs ++ f ∷ ys)
replace_lowers t xs ys f g same worse worse_info =
    compute_numeric_mono t (xs ++ g ∷ ys) (xs ++ f ∷ ys)
      (omega (arith, total_middle max_part xs ys f, total_middle max_part xs ys g))
      (omega (
        arith,
        total_middle (risk_part t) xs ys f,
        total_middle (risk_part t) xs ys g,
        capped_mono (total (info_part t) (xs ++ f ∷ ys)) (total (info_part t) (xs ++ g ∷ ys))
            (omega (arith, total_middle (info_part t) xs ys f, total_middle (info_part t) xs ys g)),
      ))

abbrev exposed : Finding → ExposureClass → Finding
exposed f c = record f { exposure_class = c }

risk-exposed :
    (t : Table) (f : Finding) (c : ExposureClass)
    → exposure_multiplier f.exposure_class ≤ exposure_multiplier c
    → risk t f ≤ risk t (exposed f c)
unfolding risk exposure_weight threat cve_of
risk-exposed t f c le =
    mul-le-mul
      (mul-le-mul (mul-le-mul {n₁ = f.base_impact} (omega arith) (ground arith)) (omega arith))
      (omega arith)

-- Moving a finding to an exposure class with at least the same multiplier never raises the score.
pub compute_numeric_exposure :
    (t : Table) (xs ys : List Finding) (f : Finding) (c : ExposureClass)
    → exposure_multiplier f.exposure_class ≤ exposure_multiplier c
    → compute_numeric t (xs ++ record f { exposure_class = c } ∷ ys)
      ≤ compute_numeric t (xs ++ f ∷ ys)
unfolding risk_part info_part max_part max_risk is_fail
compute_numeric_exposure t xs ys f c le =
    replace_lowers t xs ys f (exposed f c) (ground arith) (ground (arith, risk-exposed t f c))
      (ground (arith, risk-exposed t f c))

-- A finding whose check could not run leaves the score as it is.
pub compute_numeric-not_assessed :
    (t : Table) (xs ys : List Finding) (f : Finding)
    → is_assessed f.status ≡ false
    → compute_numeric t (xs ++ f ∷ ys) ≡ compute_numeric t (xs ++ ys)
unfolding risk_part info_part max_part
compute_numeric-not_assessed t xs ys f e = ground (
  arith,
  compute_numeric_lem t (xs ++ ys),
  compute_numeric_lem t (xs ++ f ∷ ys),
  total_middle max_part xs ys f,
  total_middle (risk_part t) xs ys f,
  total_middle (info_part t) xs ys f,
)

-- A finding that is neither a failure nor informational never lowers the score.
pub compute_numeric-passed :
    (t : Table) (xs ys : List Finding) (f : Finding)
    → is_info f.severity ≡ false
    → is_fail f ≡ false
    → compute_numeric t (xs ++ ys) ≤ compute_numeric t (xs ++ f ∷ ys)
unfolding risk_part info_part
compute_numeric-passed t xs ys f not_info passes =
    compute_numeric_mono t (xs ++ ys) (xs ++ f ∷ ys) (omega (arith, total_middle max_part xs ys f))
      (ground (arith, total_middle (risk_part t) xs ys f, total_middle (info_part t) xs ys f))

no_risk :
    (t : Table) (fs : List Finding) → All (λ f. is_fail f ≡ false) fs → total (risk_part t) fs ≡ 0
unfolding total risk_part
no_risk t [] h = omega arith
no_risk t (f ∷ fs) (e, h) = ground (arith, no_risk t fs h)

-- Where no finding fails and some assessed finding has an impact, informational findings of any
-- number cost at most what 5.0 points of risk cost.
pub compute_numeric-info_noise :
    (t : Table) (fs : List Finding)
    → All (λ f. is_fail f ≡ false) fs
    → 0 < total max_part fs
    → ratio info_cap_points (total max_part fs) ≤ compute_numeric t fs
compute_numeric-info_noise t fs h pos = ground (
  arith,
  compute_numeric_lem t fs,
  no_risk t fs h,
  ratio_antitone (numerator t fs) info_cap_points (total max_part fs),
)
