-- ===== src/Score/V2.antt =====
-- ComputeV2 and computeSubScores of v2.go.
pub mod SubScores
pub mod Caps
use keelix.Prelude.{
  ℕ, suc, Bool, not, List, [], ◌∷◌, ◌++◌, Option, none, some, ltb, if◌then◌else◌, get_or_else,
}
use keelix.Text.{Text, text_eq}
use keelix.Model.Finding.{Finding, GroupScore, CapDriver, is_assessed}
use keelix.Model.Check.{CheckGroup, group_order}
use keelix.Threatfeed.Record.{Table}
use keelix.Score.Grade.{grade_rank, worst, band}
use keelix.Score.Risk.{apply_kev_fatal}
use keelix.Score.Numeric.{compute_numeric}
use keelix.Score.Cap.{compute_cap}

-- A map from groups, with the lookup that the code has: none for ok = false.
abbrev pub GroupMap : Type 0 → Type 0
GroupMap A = List (CheckGroup × A)

unfoldable pub group_entry : {A : Type 0} → CheckGroup → GroupMap A → Option A
group_entry g [] = none
group_entry g ((k, a) ∷ m) = let rest = group_entry g m in if text_eq k g then some a else rest

-- m[g] = change(m[g]), where a missing entry reads as the zero value
unfoldable pub put : {A : Type 0} → A → (A → A) → CheckGroup → GroupMap A → GroupMap A
put zero_value change g [] = (g, change zero_value) ∷ []
put zero_value change g ((k, a) ∷ m) =
    let rest = put zero_value change g m in if text_eq k g then (k, change a) ∷ m else (k, a) ∷ rest

-- byGroup and naByGroup
pub record Groups : Type 0 where
  pub by_group : GroupMap (List Finding)
  pub na_by_group : GroupMap ℕ

-- The body of the loop over the findings.
unfoldable pub group_step : Finding → Groups → Groups
unfolding put
group_step f m = record {
  by_group = put [] (λ fs. fs ++ f ∷ []) f.group m.by_group;
  na_by_group =
      if not (is_assessed f.status) then put 0 suc f.group m.na_by_group else m.na_by_group;
}

unfoldable pub group_loop : List Finding → Groups → Groups
unfolding group_step
group_loop [] m = m
group_loop (f ∷ fs) m = group_loop fs (group_step f m)

unfoldable pub group_score :
    Table → Groups → CheckGroup → Option (List Finding) → List GroupScore → List GroupScore
unfolding group_entry
group_score t m g none rest = rest
group_score t m g (some group) rest =
    record {
      group = g;
      score = compute_numeric t group;
      not_assessed = get_or_else (group_entry g m.na_by_group) 0;
    }
    ∷ rest

-- The loop over GroupOrder.
unfoldable pub scores_over : Table → Groups → List CheckGroup → List GroupScore
unfolding group_score
scores_over t m [] = []
scores_over t m (g ∷ gs) = group_score t m g (group_entry g m.by_group) (scores_over t m gs)

-- computeSubScores
unfoldable pub compute_sub_scores : Table → List Finding → List GroupScore
unfolding group_loop
compute_sub_scores t fs =
    scores_over t (group_loop fs (record { by_group = []; na_by_group = [] })) group_order

-- The named results of ComputeV2.
pub record Posture : Type 0 where
  pub numeric : ℕ
  pub rating : Text
  pub subs : List GroupScore
  pub cap : Option CapDriver

-- ComputeV2
unfoldable pub compute_v2 : Table → List Finding → Posture
compute_v2 t findings =
    let fs = apply_kev_fatal t findings in
    let numeric = compute_numeric t fs in
    let b = band numeric in
    let (cap_grade, driver) = compute_cap t fs in
    let rating = worst b cap_grade in
    record {
      numeric = numeric;
      rating = rating;
      subs = compute_sub_scores t fs;
      cap = if ltb (grade_rank rating) (grade_rank b) then driver else none;
    }
