-- ===== src/Score/V2/SubScores.antt =====
-- computeSubScores: its groups and their scores.
use keelix.Prelude.{
  ℕ, suc, not, ◌≡◌, refl, sym, ap, ◌∙◌, Bool, true, false, ◌&&◌, List, [], ◌∷◌, ◌++◌, map, Option,
  none, some, select, All, length, Bool-cases, inl, inr, if◌then◌else◌, arith, get_or_else, subst,
}
use mathlib.Core.List.{append_assoc, append-nil}
use keelix.Text.{text_eq}
use keelix.Text.Laws.{text_eq_iff}
use keelix.Model.Finding.{Finding, GroupScore, FindingStatus, is_assessed, assessed, not_assessed}
use keelix.Model.Check.{CheckGroup, group_order}
use keelix.Threatfeed.Record.{Table}
use keelix.Score.Numeric.{compute_numeric}
use keelix.Score.V2.{
  GroupMap, Groups, group_entry, put, group_step, group_loop, group_score, scores_over,
  compute_sub_scores,
}

-- The findings of a group, in their order.
abbrev pub of_group : CheckGroup → List Finding → List Finding
of_group g fs = select (λ f. text_eq f.group g) fs

abbrev pub is_unassessed : FindingStatus → Bool
is_unassessed not_assessed = true
is_unassessed assessed = false

abbrev pub has_any : List Finding → Bool
has_any [] = false
has_any (f ∷ fs) = true

abbrev pub has_findings : List Finding → CheckGroup → Bool
has_findings fs g = has_any (of_group g fs)

-- What a sub-score says of its group.
abbrev pub IsScoreOf : Table → List Finding → GroupScore → Type 0
IsScoreOf t fs s =
    (s.score ≡ compute_numeric t (of_group s.group fs))
    × (s.not_assessed ≡ length (select (λ f. is_unassessed f.status) (of_group s.group fs)))

-- What an assignment does to the entry of each group.
put-entry :
    {A : Type 0} (z : A) (change : A → A) (g j : CheckGroup) (m : GroupMap A)
    → group_entry g (put z change j m)
      ≡ (if text_eq j g then some (change (get_or_else (group_entry g m) z)) else group_entry g m)
unfolding put group_entry
put-entry z change g j [] = ground arith
put-entry z change g j ((k, a) ∷ m) = elim (Bool-cases (text_eq k j)) [
  | inl same ↦
      let e = ap (λ x. text_eq x g) ((text_eq_iff k j).0 same) in
      elim (Bool-cases (text_eq k g)) [
        | inl at ↦ rw (same, at, sym e ∙ at) refl
        | inr off ↦ rw (same, off, sym e ∙ off) refl
      ]
  | inr other ↦ elim (Bool-cases (text_eq k g)) [
    | inl at ↦
        let apart = sym (ap (text_eq k) ((text_eq_iff k g).0 at)) in
        rw (other, at, away k j g other at) refl
    | inr off ↦ rw (other, off) (put-entry z change g j m)
  ]
]
  where
    away : (k j g : CheckGroup) → text_eq k j ≡ false → text_eq k g ≡ true → text_eq j g ≡ false
    away k j g other at = elim (Bool-cases (text_eq j g)) [
      | inl same ↦ absurd (
          cc ((text_eq_iff k j).1 ((text_eq_iff k g).0 at ∙ sym ((text_eq_iff j g).0 same)), other))
      | inr off ↦ off
    ]

-- An entry with nothing is no entry.
abbrev entry_of : List Finding → Option (List Finding)
entry_of [] = none
entry_of (f ∷ fs) = some (f ∷ fs)

entry_of-append_one :
    (fs : List Finding) (f : Finding) → entry_of (fs ++ f ∷ []) ≡ some (fs ++ f ∷ [])
entry_of-append_one [] f = refl
entry_of-append_one (g ∷ fs) f = refl

get_or_else-entry_of : (fs : List Finding) → get_or_else (entry_of fs) [] ≡ fs
get_or_else-entry_of [] = refl
get_or_else-entry_of (f ∷ fs) = refl

abbrev unassessed_of : List Finding → ℕ
unassessed_of fs = length (select (λ f. is_unassessed f.status) fs)

unassessed_of-append_one :
    (fs : List Finding) (f : Finding)
    → unassessed_of (fs ++ f ∷ [])
      ≡ (if is_unassessed f.status then suc (unassessed_of fs) else unassessed_of fs)
unfolding select
unassessed_of-append_one [] f = ground arith
unassessed_of-append_one (g ∷ fs) f = ground (arith, unassessed_of-append_one fs f)

na_in :
    (g : CheckGroup) (s : FindingStatus) (k : CheckGroup) (m : GroupMap ℕ)
    → get_or_else (group_entry g (if not (is_assessed s) then put 0 suc k m else m)) 0 ≡ (
        if text_eq k g && is_unassessed s
        then suc (get_or_else (group_entry g m) 0)
        else get_or_else (group_entry g m) 0)
na_in g assessed k m = elim (Bool-cases (text_eq k g)) [
  | inl at ↦ rw at refl
  | inr off ↦ rw off refl
]
na_in g not_assessed k m = elim (Bool-cases (text_eq k g)) [
  | inl at ↦ rw (put-entry 0 suc g k m, at) refl
  | inr off ↦ rw (put-entry 0 suc g k m, off) refl
]

module _ (g : CheckGroup) where
  -- The maps hold the findings of the group that were seen.
  abbrev Holds : Groups → List Finding → Type 0
  Holds m fs =
      (group_entry g m.by_group ≡ entry_of fs)
      × (get_or_else (group_entry g m.na_by_group) 0 ≡ unassessed_of fs)

  step_in :
      (f : Finding) (m : Groups) (fs : List Finding)
      → text_eq f.group g ≡ true
      → Holds m fs
      → Holds (group_step f m) (fs ++ f ∷ [])
  unfolding group_step
  step_in f m fs at (by, na) = (
    put-entry [] (λ xs. xs ++ f ∷ []) g f.group m.by_group
        ∙ rw (at, by, get_or_else-entry_of fs) (sym (entry_of-append_one fs f)),
    na_in g f.status f.group m.na_by_group ∙ rw (at, na) (sym (unassessed_of-append_one fs f)),
  )

  step_off :
      (f : Finding) (m : Groups) (fs : List Finding)
      → text_eq f.group g ≡ false
      → Holds m fs
      → Holds (group_step f m) fs
  unfolding group_step
  step_off f m fs off (by, na) = (
    put-entry [] (λ xs. xs ++ f ∷ []) g f.group m.by_group ∙ rw off by,
    na_in g f.status f.group m.na_by_group ∙ rw off na,
  )

  loop-Holds :
      (fs : List Finding) (m : Groups) (seen : List Finding)
      → Holds m seen
      → Holds (group_loop fs m) (seen ++ of_group g fs)
  unfolding group_loop select
  loop-Holds [] m seen h = subst (Holds m) (sym (append-nil seen)) h
  loop-Holds (f ∷ fs) m seen h = elim (Bool-cases (text_eq f.group g)) [
    | inl at ↦
        subst (Holds (group_loop fs (group_step f m)))
          (append_assoc seen (f ∷ []) (of_group g fs) ∙ rw (at, select) refl)
          (loop-Holds fs (group_step f m) (seen ++ f ∷ []) (step_in f m seen at h))
    | inr off ↦
        subst (Holds (group_loop fs (group_step f m))) (rw (off, select) refl)
          (loop-Holds fs (group_step f m) seen (step_off f m seen off h))
  ]

select_keep :
    {A : Type 0} (p : A → Bool) (x : A) (xs : List A)
    → p x ≡ true
    → select p (x ∷ xs) ≡ x ∷ select p xs
unfolding select
select_keep p x xs h = rw h refl

select_drop :
    {A : Type 0} (p : A → Bool) (x : A) (xs : List A)
    → p x ≡ false
    → select p (x ∷ xs) ≡ select p xs
unfolding select
select_drop p x xs h = rw h refl

module _ (t : Table) (fs : List Finding) (m : Groups)
    (holds : (g : CheckGroup) → Holds g m (of_group g fs)) where
  -- What the scores of some groups are, in their order.
  abbrev AreScores : List CheckGroup → List GroupScore → Type 0
  AreScores gs scores =
      (map (λ s. s.group) scores ≡ select (has_findings fs) gs) × All (IsScoreOf t fs) scores

  add_score :
      (g : CheckGroup) (gs : List CheckGroup) (rest : List GroupScore) (xs : List Finding)
      → of_group g fs ≡ xs
      → AreScores gs rest
      → AreScores (g ∷ gs) (group_score t m g (entry_of xs) rest)
  unfolding group_score
  add_score g gs rest [] e (names, scores) =
      (names ∙ sym (select_drop (has_findings fs) g gs (ap has_any e)), scores)
  add_score g gs rest (x ∷ xs) e (names, scores) = (
    ap (λ z. g ∷ z) names ∙ sym (select_keep (has_findings fs) g gs (ap has_any e)),
    ((ap (compute_numeric t) (sym e), (holds g).1), scores),
  )

  scores_over-AreScores : (gs : List CheckGroup) → AreScores gs (scores_over t m gs)
  unfolding scores_over select
  scores_over-AreScores [] = (refl, tt)
  scores_over-AreScores (g ∷ gs) =
      subst (λ entry. AreScores (g ∷ gs) (group_score t m g entry (scores_over t m gs)))
        (sym (holds g).0)
        (add_score g gs (scores_over t m gs) (of_group g fs) refl (scores_over-AreScores gs))

-- The sub-scores are those of the groups of GroupOrder that have findings, in that order. Each has
-- the numeric score of the findings of its group, in their order, and the count of those among them
-- that are not assessed.
pub compute_sub_scores_lem :
    (t : Table) (fs : List Finding)
    → (map (λ s. s.group) (compute_sub_scores t fs) ≡ select (has_findings fs) group_order)
      × All (IsScoreOf t fs) (compute_sub_scores t fs)
unfolding compute_sub_scores group_entry select
compute_sub_scores_lem t fs =
    let empty : Groups = record { by_group = []; na_by_group = [] } in
    scores_over-AreScores t fs (group_loop fs empty) (λ g. loop-Holds g fs empty [] (refl, refl))
      group_order
