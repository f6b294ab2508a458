-- ===== src/Score/Numeric/Laws.antt =====
-- The numeric score of computeNumeric.
use native.Mathlib.Nat.{
  div-lt_iff_lt-mul, le_trans, le-div_iff_mul-le, div-mul-le_self, mul-le-mul_right,
}
use keelix.Prelude.{
  ℕ, ◌+◌, ◌-◌, ◌*◌, ◌/◌, ◌≤◌, ◌<◌, ◌≡◌, ap, ◌∙◌, List, [], ◌∷◌, arith, if◌then◌else◌, ltb, ◌==◌,
}
use keelix.Model.Finding.{Finding}
use keelix.Threatfeed.Record.{Table}
use keelix.Score.Risk.Bounds.{risk-le-max_risk}
use keelix.Score.Numeric.{numeric_of, compute_numeric, info_cap_points}
use keelix.Score.Numeric.Parts.{total, risk_part, info_part, max_part, compute_numeric_parts}

abbrev pub capped : ℕ → ℕ
capped i = if ltb info_cap_points i then info_cap_points else i

-- The ratio, once the numerator is known to be at most the denominator.
abbrev pub ratio : ℕ → ℕ → ℕ
ratio total max = (200 * (max - total) + max) / (2 * max)

ratio-le : (r m : ℕ) → 0 < m → ratio r m ≤ 100
ratio-le r m pos =
    let below : ratio r m < 101 = (div-lt_iff_lt-mul {k = 2 * m} (omega arith)).1 (omega arith) in
    omega arith

-- Less risk over the same denominator never lowers the ratio.
pub ratio_antitone : (r r' m : ℕ) → 0 < m → r ≤ r' → ratio r' m ≤ ratio r m
ratio_antitone r r' m pos le =
    (le-div_iff_mul-le (omega arith)).1
      (le_trans (div-mul-le_self (200 * (m - r') + m) (2 * m)) (omega arith))

-- A larger denominator under the same risk never lowers the ratio.
ratio_grows : (r m m' : ℕ) → 0 < m → r ≤ m → m ≤ m' → ratio r m ≤ ratio r m'
ratio_grows r m m' pos le grow =
    let d = m' - m in
    let split : m' ≡ m + d = omega arith in
    let own : ratio r m * (2 * m) ≤ 200 * (m - r) + m =
      div-mul-le_self (200 * (m - r) + m) (2 * m) in
    let extra : ratio r m * d ≤ 100 * d = mul-le-mul_right d (ratio-le r m pos) in
    (le-div_iff_mul-le (omega arith)).1 (omega (arith, ap (λ (z : ℕ). ratio r m * z) split))

ratio_mono : (r r' m m' : ℕ) → 0 < m → r' ≤ r → r ≤ m → m ≤ m' → ratio r m ≤ ratio r' m'
ratio_mono r r' m m' pos less le grow =
    le_trans (ratio_antitone r' r m pos less) (ratio_grows r' m m' pos (omega arith) grow)

ratio_zero : (m : ℕ) → 0 < m → 100 ≤ ratio 0 m
ratio_zero m pos = (le-div_iff_mul-le (omega arith)).1 (omega arith)

-- The numerator: the risk, and the capped risk of the informational findings.
abbrev pub numerator : Table → List Finding → ℕ
numerator t fs = total (risk_part t) fs + capped (total (info_part t) fs)

parts-le : (t : Table) (f : Finding) → risk_part t f + info_part t f ≤ max_part f
unfolding risk_part info_part max_part
parts-le t f = ground (arith, risk-le-max_risk t f)

totals-le :
    (t : Table) (fs : List Finding)
    → total (risk_part t) fs + total (info_part t) fs ≤ total max_part fs
unfolding total
totals-le t [] = omega arith
totals-le t (f ∷ fs) = omega (arith, parts-le t f, totals-le t fs)

capped-le : (i : ℕ) → capped i ≤ i
capped-le i = ground arith

numerator-le : (t : Table) (fs : List Finding) → numerator t fs ≤ total max_part fs
numerator-le t fs = omega (arith, totals-le t fs, capped-le (total (info_part t) fs))

-- In exact arithmetic the score is 100 where no assessed finding has an impact, and the ratio
-- otherwise: the floor at 0 is never needed, since the risk of a finding is at most its share of the
-- denominator.
pub compute_numeric_lem :
    (t : Table) (fs : List Finding)
    → compute_numeric t fs
      ≡ (if total max_part fs == 0 then 100 else ratio (numerator t fs) (total max_part fs))
unfolding numeric_of
compute_numeric_lem t fs = compute_numeric_parts t fs ∙ ground (arith, numerator-le t fs)

-- The score of any findings is at most 100.
pub compute_numeric_bound : (t : Table) (fs : List Finding) → compute_numeric t fs ≤ 100
compute_numeric_bound t fs =
    ground (arith, compute_numeric_lem t fs, ratio-le (numerator t fs) (total max_part fs))

-- More of the denominator and less of the numerator give a score that is not lower.
pub compute_numeric_mono :
    (t : Table) (xs ys : List Finding)
    → total max_part xs ≤ total max_part ys
    → numerator t ys ≤ numerator t xs
    → compute_numeric t xs ≤ compute_numeric t ys
compute_numeric_mono t xs ys grow less = ground (
  arith,
  compute_numeric_lem t xs,
  compute_numeric_lem t ys,
  numerator-le t xs,
  ratio_zero (total max_part ys),
  ratio_mono (numerator t xs) (numerator t ys) (total max_part xs) (total max_part ys),
)
