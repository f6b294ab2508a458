-- ===== src/Score/Regrade/Tallies.antt =====
-- The tallies of Regrade.
use keelix.Prelude.{
  ℕ, sym, ◌+◌, ◌≡◌, ◌∙◌, ap, Bool, true, false, List, [], ◌∷◌, arith, length, ltb, if◌then◌else◌,
  Bool-cases, inl, inr,
}
use keelix.Text.{Text, text_eq}
use keelix.Text.Laws.{text_eq_iff}
use keelix.Model.Finding.{Finding}
use keelix.Threatfeed.Record.{Table}
use keelix.Score.Grade.{grade_rank}
use keelix.Score.Regrade.{
  CountMap, RegradeReport, increment, v1_grade, v2_grade, transition, regrade_step, regrade_loop,
  regrade,
}

abbrev bit : Bool → ℕ
bit true = 1
bit false = 0

-- The count under a key.
unfoldable pub count_at : Text → CountMap → ℕ
count_at k [] = 0
count_at k ((j, n) ∷ m) = let rest = count_at k m in if text_eq j k then n else rest

-- The number of results with a property.
unfoldable pub how_many : (List Finding → Bool) → List (List Finding) → ℕ
how_many p [] = 0
how_many p (x ∷ xs) = let rest = how_many p xs in if p x then rest + 1 else rest

abbrev pub is_worse : Table → List Finding → Bool
is_worse t fs = ltb (grade_rank (v2_grade t fs)) (grade_rank (v1_grade fs))

abbrev pub is_better : Table → List Finding → Bool
is_better t fs = ltb (grade_rank (v1_grade fs)) (grade_rank (v2_grade t fs))

abbrev pub is_transition : Table → Text → List Finding → Bool
is_transition t k fs = text_eq (transition t fs) k

count_at-increment :
    (j k : Text) (m : CountMap)
    → count_at k (increment j m) ≡ (if text_eq j k then count_at k m + 1 else count_at k m)
unfolding count_at increment
count_at-increment j k [] = ground arith
count_at-increment j k ((i, n) ∷ m) = elim (Bool-cases (text_eq i j)) [
  | inl same ↦ let to_k = ap (λ x. text_eq x k) ((text_eq_iff i j).0 same) in ground (arith, to_k)
  | inr other ↦ elim (Bool-cases (text_eq j k)) [
    | inl hit ↦
        let apart = sym (ap (text_eq i) ((text_eq_iff j k).0 hit)) ∙ other in
        ground (arith, apart, count_at-increment j k m)
    | inr miss ↦ ground (arith, count_at-increment j k m)
  ]
]

-- What one turn of the loop adds to a report.
step_adds :
    (t : Table) (k : Text) (x : List Finding) (rep : RegradeReport)
    → ((regrade_step t rep x).total ≡ rep.total)
      × ((regrade_step t rep x).worsened ≡ rep.worsened + bit (is_worse t x))
      × ((regrade_step t rep x).improved ≡ rep.improved + bit (is_better t x))
      × (count_at k (regrade_step t rep x).transitions
          ≡ count_at k rep.transitions + bit (is_transition t k x))
unfolding regrade_step
step_adds t k x rep =
    let counted = count_at-increment (transition t x) k rep.transitions in ground (arith, counted)

how_many_cons :
    (p : List Finding → Bool) (x : List Finding) (xs : List (List Finding))
    → how_many p (x ∷ xs) ≡ bit (p x) + how_many p xs
unfolding how_many
how_many_cons p x xs = elim (Bool-cases (p x)) [
  | inl on ↦ rw on (omega arith)
  | inr off ↦ rw off (omega arith)
]

-- What the loop adds to a report.
loop_adds :
    (t : Table) (k : Text) (xs : List (List Finding)) (rep : RegradeReport)
    → ((regrade_loop t rep xs).total ≡ rep.total)
      × ((regrade_loop t rep xs).worsened ≡ rep.worsened + how_many (is_worse t) xs)
      × ((regrade_loop t rep xs).improved ≡ rep.improved + how_many (is_better t) xs)
      × (count_at k (regrade_loop t rep xs).transitions
          ≡ count_at k rep.transitions + how_many (is_transition t k) xs)
unfolding regrade_loop how_many
loop_adds t k [] rep = ground arith
loop_adds t k (x ∷ xs) rep =
    let step = step_adds t k x rep in
    let rest = loop_adds t k xs (regrade_step t rep x) in
    (
      rest.0 ∙ step.0,
      omega (arith, step.1, rest.1, how_many_cons (is_worse t) x xs),
      omega (arith, step.2, rest.2, how_many_cons (is_better t) x xs),
      omega (arith, step.3, rest.3, how_many_cons (is_transition t k) x xs),
    )

-- Regrade's total is the number of results, its tallies count those with a stricter and those with
-- a more lenient grade, and the count of a transition is the number of results with it.
regrade_lem :
    (t : Table) (xs : List (List Finding)) (k : Text)
    → ((regrade t xs).total ≡ length xs)
      × ((regrade t xs).worsened ≡ how_many (is_worse t) xs)
      × ((regrade t xs).improved ≡ how_many (is_better t) xs)
      × (count_at k (regrade t xs).transitions ≡ how_many (is_transition t k) xs)
unfolding regrade count_at
regrade_lem t xs k =
    let sums =
      loop_adds t k xs
        (record { total = length xs; transitions = []; worsened = 0; improved = 0 }) in
    (sums.0, omega (arith, sums.1), omega (arith, sums.2), omega (arith, sums.3))
