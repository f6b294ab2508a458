-- ===== src/Score/Grade.antt =====
-- The grades and their order: Rating of score.go, GradeRank, worst and band of v2.go.
use keelix.Prelude.{ℕ, ◌≡◌, ◌⊎◌, leb, ltb, if◌then◌else◌, arith, min}
use keelix.Text.{Text, codes, text_eq}

abbrev pub red : Text
red = codes "RED"

abbrev pub yellow : Text
yellow = codes "YELLOW"

abbrev pub green : Text
green = codes "GREEN"

abbrev green_min : ℕ
green_min = 85

abbrev yellow_min : ℕ
yellow_min = 50

-- Rating
unfoldable pub rating : ℕ → Text
rating s = if leb green_min s then green else if leb yellow_min s then yellow else red

-- band
unfoldable pub band : ℕ → Text
band numeric =
    if leb green_min numeric then green else if leb yellow_min numeric then yellow else red

-- GradeRank
unfoldable pub grade_rank : Text → ℕ
unfolding text_eq
grade_rank grade = if text_eq grade green then 2 else if text_eq grade yellow then 1 else 0

-- worst
unfoldable pub worst : Text → Text → Text
worst a b = if ltb (grade_rank b) (grade_rank a) then b else a

-- The rank of the worse of two grades is the smaller rank.
pub grade_rank-worst : (a b : Text) → grade_rank (worst a b) ≡ min (grade_rank a) (grade_rank b)
unfolding worst
grade_rank-worst a b = ground arith

-- The worse of two grades is one of them.
pub worst_cases : (a b : Text) → (worst a b ≡ a) ⊎ (worst a b ≡ b)
unfolding worst
worst_cases a b = ground arith
