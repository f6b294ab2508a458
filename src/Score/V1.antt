-- ===== src/Score/V1.antt =====
-- internal/score/score.go: the first scoring model. Penalties are counted in halves of a point.
pub mod Laws
use keelix.Prelude.{ℕ, ◌+◌, ◌-◌, ◌*◌, ◌/◌, Bool, List, [], ◌∷◌, ltb, if◌then◌else◌}
use keelix.Model.Finding.{Finding, Severity, ok, info, warning, critical, is_assessed}
use keelix.Model.Scan.{Counts}

abbrev penalty_critical : ℕ
penalty_critical = 20

abbrev penalty_warning : ℕ
penalty_warning = 6

abbrev penalty_info : ℕ
penalty_info = 1

-- The switch on the severity in the loop of Count.
count_severity : Severity → Bool → Counts → Counts
count_severity critical passed c = record c { critical = c.critical + 1 }
count_severity warning passed c = record c { warning = c.warning + 1 }
count_severity info passed c = record c { info = c.info + 1 }
count_severity ok passed c = if passed then record c { passed = c.passed + 1 } else c

count_from : Counts → List Finding → Counts
count_from c [] = c
count_from c (f ∷ fs) =
    count_from (if is_assessed f.status then count_severity f.severity f.passed c else c) fs

abbrev no_counts : Counts
no_counts = record { critical = 0; warning = 0; passed = 0; info = 0 }

-- Count
unfoldable pub count : List Finding → Counts
unfolding count_from count_severity
count fs = count_from no_counts fs

-- The number that Compute makes of the counts, from halves of a point.
unfoldable pub v1_score : Counts → ℕ
v1_score c =
    let penalty =
      c.critical * penalty_critical + c.warning * penalty_warning + c.info * penalty_info in
    let s = if ltb 200 penalty then 0 else 200 - penalty in
    let clamped = if ltb 200 s then 200 else s in (clamped + 1) / 2

-- Compute
unfoldable pub compute : List Finding → ℕ × Counts
compute fs = let counts = count fs in (v1_score counts, counts)
