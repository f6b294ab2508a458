-- ===== src/Score/V2/Caps.antt =====
-- The rating of ComputeV2 and its cap driver.
use keelix.Prelude.{
  ℕ, ◌≤◌, ◌<◌, ◌≡◌, refl, ap, ◌∙◌, true, false, List, [], ◌∷◌, Option, none, some, arith, ltb, min,
  Mem, here, there, Bool-cases, inl, inr, ◌⊎◌, ltb→lt,
}
use keelix.Text.{Text, text_eq}
use keelix.Model.Finding.{
  Finding, CapDriver, is_assessed, is_critical, is_high, is_fail, can_cap_red,
}
use keelix.Threatfeed.Record.{Table}
use keelix.Threatfeed.Lookup.{kev_listed}
use keelix.Score.Grade.{red, green, grade_rank, worst, band, grade_rank-worst, worst_cases}
use keelix.Score.Risk.{cve_of, threat, risk, max_risk, exposure_weight, escalate, apply_kev_fatal}
use keelix.Score.Numeric.{sum_findings, add_finding, compute_numeric, no_sums, Sums, numeric_of}
use keelix.Score.Cap.{caps_network, caps_autonomy, compute_cap}
use keelix.Score.Cap.Rules.{
  IsCap, network, autonomy, unmitigated, uncapped, compute_cap-IsCap, red_of_IsCap,
}
use keelix.Score.V2.{compute_v2}

-- The escalation changes nothing but the fatal flag.
escalate_cases :
    (t : Table) (f : Finding) → (escalate t f ≡ f) ⊎ (escalate t f ≡ record f { fatal = true })
unfolding escalate
escalate_cases t f = ground arith

add_finding-escalate :
    (t : Table) (s : Sums) (f : Finding) → add_finding t s (escalate t f) ≡ add_finding t s f
unfolding add_finding risk max_risk threat exposure_weight cve_of is_fail
add_finding-escalate t s f = elim (escalate_cases t f) [
  | inl e ↦ ap (add_finding t s) e
  | inr e ↦ ap (add_finding t s) e
]

sum_findings-escalate :
    (t : Table) (fs : List Finding) (s : Sums)
    → sum_findings t s (apply_kev_fatal t fs) ≡ sum_findings t s fs
unfolding sum_findings apply_kev_fatal
sum_findings-escalate t [] s = refl
sum_findings-escalate t (f ∷ fs) s =
    sum_findings-escalate t fs (add_finding t s (escalate t f))
    ∙ ap (λ z. sum_findings t z fs) (add_finding-escalate t s f)

-- The escalation of known-exploited findings leaves the number as it is.
pub compute_v2_numeric :
    (t : Table) (fs : List Finding) → (compute_v2 t fs).numeric ≡ compute_numeric t fs
unfolding compute_v2 compute_numeric
compute_v2_numeric t fs = ap numeric_of (sum_findings-escalate t fs no_sums)

-- The rank of the rating is the smaller of the rank of the number's band and that of the cap.
pub compute_v2_rating :
    (t : Table) (fs : List Finding)
    → grade_rank (compute_v2 t fs).rating
      ≡ min
          (grade_rank (band (compute_v2 t fs).numeric))
          (grade_rank (compute_cap t (apply_kev_fatal t fs)).0)
unfolding compute_v2
compute_v2_rating t fs = grade_rank-worst _ _

escalate-Mem :
    (t : Table) {f : Finding} {fs : List Finding}
    → Mem f fs
    → Mem (escalate t f) (apply_kev_fatal t fs)
unfolding apply_kev_fatal
escalate-Mem t here = here
escalate-Mem t (there m) = there (escalate-Mem t m)

worst-red : (n : ℕ) → worst (band n) red ≡ red
unfolding worst band grade_rank
worst-red n = ground arith

-- A finding that meets a RED condition after the escalation makes the rating RED, whatever the
-- number is.
pub compute_v2-red :
    (t : Table) (fs : List Finding) (f : Finding)
    → Mem f (apply_kev_fatal t fs)
    → (caps_network f ≡ true) ⊎ (caps_autonomy f ≡ true)
    → (compute_v2 t fs).rating ≡ red
unfolding compute_v2
compute_v2-red t fs f m on =
    ap (worst _) (red_of_IsCap f (compute_cap-IsCap t (apply_kev_fatal t fs)) m on) ∙ worst-red _

escalate-caps_network :
    (t : Table) (f : Finding)
    → text_eq (cve_of f) [] ≡ false
    → kev_listed t (cve_of f) ≡ true
    → can_cap_red f.exposure_class ≡ true
    → is_critical f.severity ≡ true
    → is_high f.confidence ≡ true
    → is_assessed f.status ≡ true
    → caps_network (escalate t f) ≡ true
unfolding escalate caps_network is_fail
escalate-caps_network t f cve kev routable critical high ran = ground arith

-- A critical finding of high confidence that was assessed, at a class that can cap RED, makes the
-- rating RED where its CVE is known to be exploited, also if its check is not marked fatal.
pub compute_v2-kev :
    (t : Table) (fs : List Finding) (f : Finding)
    → Mem f fs
    → text_eq (cve_of f) [] ≡ false
    → kev_listed t (cve_of f) ≡ true
    → can_cap_red f.exposure_class ≡ true
    → is_critical f.severity ≡ true
    → is_high f.confidence ≡ true
    → is_assessed f.status ≡ true
    → (compute_v2 t fs).rating ≡ red
compute_v2-kev t fs f m cve kev routable critical high ran =
    compute_v2-red t fs (escalate t f) (escalate-Mem t m)
      (inl (escalate-caps_network t f cve kev routable critical high ran))

-- A driver that explains the rating: the rating is the grade that it imposes, it is worse than the
-- band of the number, and the driver is the one that the rules name.
pub record IsExplained (t : Table) (fs : List Finding) (d : CapDriver) : Type 0 where
  pub named : (compute_v2 t fs).cap ≡ some d
  pub imposed : (compute_v2 t fs).rating ≡ d.grade
  pub lowered : grade_rank (compute_v2 t fs).rating < grade_rank (band (compute_v2 t fs).numeric)
  pub ruled : IsCap t (apply_kev_fatal t fs) d.grade (some d)

grade_rank-le : (g : Text) → grade_rank g ≤ 2
unfolding grade_rank
grade_rank-le g = ground arith

green_rank : grade_rank green ≡ 2
unfolding grade_rank
green_rank = refl

driver_of :
    (t : Table) (fs : List Finding) (b : Text) {g : Text} {o : Option CapDriver}
    → IsCap t fs g o
    → grade_rank (worst b g) < grade_rank b
    → (d : CapDriver) × (o ≡ some d) × (g ≡ d.grade) × IsCap t fs d.grade (some d)
driver_of t fs b (network f m e h h') lt = (_, refl, refl, network f m e h h')
driver_of t fs b (autonomy f m e h h') lt = (_, refl, refl, autonomy f m e h h')
driver_of t fs b (unmitigated f m e h n a) lt = (_, refl, refl, unmitigated f m e h n a)
driver_of t fs b (uncapped n a y) lt =
    absurd (omega (arith, grade_rank-worst b green, grade_rank-le b, green_rank))

worst_of_lt : (b g : Text) → grade_rank (worst b g) < grade_rank b → worst b g ≡ g
worst_of_lt b g lt = elim (worst_cases b g) [
  | inl e ↦ absurd (omega (arith, ap grade_rank e))
  | inr e ↦ e
]

worst_of_not_lt : (b g : Text) → ltb (grade_rank (worst b g)) (grade_rank b) ≡ false → worst b g ≡ b
unfolding worst
worst_of_not_lt b g h = ground arith

-- Either the rating is the band of the number and no driver is named, or a driver is named that
-- explains why the rating is worse than the band.
pub compute_v2_cap :
    (t : Table) (fs : List Finding)
    → (((compute_v2 t fs).cap ≡ none) × ((compute_v2 t fs).rating ≡ band (compute_v2 t fs).numeric))
      ⊎ ((d : CapDriver) × IsExplained t fs d)
unfolding compute_v2
compute_v2_cap t fs =
    let es = apply_kev_fatal t fs in
    let b = band (compute_numeric t es) in
    let c = compute_cap t es in
    elim (Bool-cases (ltb (grade_rank (worst b c.0)) (grade_rank b))) [
      | inr same ↦ inl (rw same, worst_of_not_lt b c.0 same)
      | inl less ↦
          let lt : grade_rank (worst b c.0) < grade_rank b = ltb→lt _ _ less in
          let (d, e, g, r) = driver_of t es b (compute_cap-IsCap t es) lt in
          inr (
            d,
            record {
              named = rw less e;
              imposed = worst_of_lt b c.0 lt ∙ g;
              lowered = lt;
              ruled = r;
            },
          )
    ]
