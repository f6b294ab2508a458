-- ===== src/Score/V1/Laws.antt =====
-- What Count and Compute of the first scoring model give.
use keelix.Prelude.{
  ℕ, ◌+◌, ◌≡◌, refl, ◌∙◌, Bool, true, false, ◌&&◌, List, [], ◌∷◌, arith, length, select, Bool-cases,
  inl, inr, ◌*◌, ◌-◌, ◌/◌, if◌then◌else◌,
}
use keelix.Model.Finding.{
  Finding, FindingStatus, assessed, not_assessed, Severity, ok, info, warning, critical,
  is_critical, is_info, is_ok, is_assessed,
}
use keelix.Model.Scan.{Counts}
use keelix.Score.V1.{count_from, count_severity, no_counts, count, v1_score, compute}

abbrev is_warning : Severity → Bool
is_warning warning = true
is_warning _ = false

-- The number of findings that meet a condition.
abbrev pub how_many : (Finding → Bool) → List Finding → ℕ
how_many p fs = length (select p fs)

abbrev pub assessed_critical : Finding → Bool
assessed_critical f = is_assessed f.status && is_critical f.severity

abbrev pub assessed_warning : Finding → Bool
assessed_warning f = is_assessed f.status && is_warning f.severity

abbrev pub assessed_info : Finding → Bool
assessed_info f = is_assessed f.status && is_info f.severity

abbrev pub assessed_passed : Finding → Bool
assessed_passed f = is_assessed f.status && (is_ok f.severity && f.passed)

abbrev bit : Bool → ℕ
bit true = 1
bit false = 0

abbrev next : FindingStatus → Severity → Bool → Counts → Counts
next a s p c = if is_assessed a then count_severity s p c else c

-- What one finding adds to the counts.
next_adds :
    (a : FindingStatus) (s : Severity) (p : Bool) (c : Counts)
    → ((next a s p c).critical ≡ c.critical + bit (is_assessed a && is_critical s))
      × ((next a s p c).warning ≡ c.warning + bit (is_assessed a && is_warning s))
      × ((next a s p c).info ≡ c.info + bit (is_assessed a && is_info s))
      × ((next a s p c).passed ≡ c.passed + bit (is_assessed a && (is_ok s && p)))
unfolding count_severity
next_adds not_assessed s p c = ground arith
next_adds assessed critical p c = ground arith
next_adds assessed warning p c = ground arith
next_adds assessed info p c = ground arith
next_adds assessed ok true c = ground arith
next_adds assessed ok false c = ground arith

how_many_cons :
    (p : Finding → Bool) (f : Finding) (fs : List Finding)
    → how_many p (f ∷ fs) ≡ bit (p f) + how_many p fs
unfolding select
how_many_cons p f fs = elim (Bool-cases (p f)) [
  | inl on ↦ rw on (omega arith)
  | inr off ↦ rw off (omega arith)
]

-- Count's numbers, from given ones on.
count_from_adds :
    (c : Counts) (fs : List Finding)
    → ((count_from c fs).critical ≡ c.critical + how_many assessed_critical fs)
      × ((count_from c fs).warning ≡ c.warning + how_many assessed_warning fs)
      × ((count_from c fs).info ≡ c.info + how_many assessed_info fs)
      × ((count_from c fs).passed ≡ c.passed + how_many assessed_passed fs)
unfolding count_from select
count_from_adds c [] = ground arith
count_from_adds c (f ∷ fs) =
    let step = next_adds f.status f.severity f.passed c in
    let rest = count_from_adds (next f.status f.severity f.passed c) fs in
    (
      omega (arith, step.0, rest.0, how_many_cons assessed_critical f fs),
      omega (arith, step.1, rest.1, how_many_cons assessed_warning f fs),
      omega (arith, step.2, rest.2, how_many_cons assessed_info f fs),
      omega (arith, step.3, rest.3, how_many_cons assessed_passed f fs),
    )

-- Count counts the assessed findings of each severity, and of the passing ones those with the flag.
pub count_lem :
    (fs : List Finding)
    → ((count fs).critical ≡ how_many assessed_critical fs)
      × ((count fs).warning ≡ how_many assessed_warning fs)
      × ((count fs).info ≡ how_many assessed_info fs)
      × ((count fs).passed ≡ how_many assessed_passed fs)
unfolding count
count_lem fs = ground (arith, count_from_adds no_counts fs)

v1_score_lem :
    (c : Counts) → v1_score c ≡ (200 - (20 * c.critical + 6 * c.warning + c.info) + 1) / 2
unfolding v1_score
v1_score_lem c = ground arith

-- The score of Compute is 100 less ten points for a critical finding, three for a warning and a half
-- for an informational one, rounded half up, and 0 where the penalties exceed 100.
compute_lem :
    (fs : List Finding)
    → (compute fs).0
      ≡ (200
          - (20 * how_many assessed_critical fs
              + 6 * how_many assessed_warning fs
              + how_many assessed_info fs)
          + 1)
        / 2
unfolding compute
compute_lem fs =
    let (criticals, warnings, infos, passes) = count_lem fs in
    v1_score_lem (count fs) ∙ rw (criticals, warnings, infos) refl
