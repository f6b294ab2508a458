-- ===== src/Score/Regrade.antt =====
-- internal/score/regrade/regrade.go: the grades of stored results under both scoring models. Of a
-- result only the findings are read, so a batch is a list of these.
pub mod Tallies
use keelix.Prelude.{ℕ, ◌+◌, List, [], ◌∷◌, ◌++◌, length, ltb, if◌then◌else◌}
use keelix.Text.{Text, codes, text_eq}
use keelix.Model.Finding.{Finding}
use keelix.Threatfeed.Record.{Table}
use keelix.Score.Grade.{rating, grade_rank}
use keelix.Score.V1.{compute}
use keelix.Score.V2.{compute_v2}

-- A map from text to counts; a missing key counts 0.
abbrev pub CountMap : Type 0
CountMap = List (Text × ℕ)

pub record RegradeReport : Type 0 where
  pub total : ℕ
  pub transitions : CountMap
  pub worsened : ℕ
  pub improved : ℕ

-- m[k]++
unfoldable pub increment : Text → CountMap → CountMap
increment k [] = (k, 1) ∷ []
increment k ((j, n) ∷ m) =
    let rest = increment k m in if text_eq j k then (j, n + 1) ∷ m else (j, n) ∷ rest

-- v1 and v2 of the loop
unfoldable pub v1_grade : List Finding → Text
v1_grade findings = rating (compute findings).0

unfoldable pub v2_grade : Table → List Finding → Text
v2_grade t findings = (compute_v2 t findings).rating

unfoldable pub transition : Table → List Finding → Text
transition t findings = v1_grade findings ++ codes "->" ++ v2_grade t findings

-- The body of the loop.
unfoldable pub regrade_step : Table → RegradeReport → List Finding → RegradeReport
regrade_step t rep findings =
    let v1 = grade_rank (v1_grade findings) in
    let v2 = grade_rank (v2_grade t findings) in
    let counted = record rep { transitions = increment (transition t findings) rep.transitions } in
    if ltb v2 v1
    then record counted { worsened = counted.worsened + 1 }
    else if ltb v1 v2
    then record counted { improved = counted.improved + 1 }
    else counted

unfoldable pub regrade_loop : Table → RegradeReport → List (List Finding) → RegradeReport
regrade_loop t rep [] = rep
regrade_loop t rep (findings ∷ results) = regrade_loop t (regrade_step t rep findings) results

-- Regrade
unfoldable pub regrade : Table → List (List Finding) → RegradeReport
regrade t results =
    regrade_loop t (record { total = length results; transitions = []; worsened = 0; improved = 0 })
      results
