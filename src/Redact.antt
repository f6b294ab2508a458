-- ===== src/Redact.antt =====
-- internal/redact/redact.go: the rules that replace secrets in a text. Each regular expression is a
-- matcher at a position: the character classes of one never contain what has to follow them, so that
-- a class takes its whole run. Matching goes on after a match, as in Go's ReplaceAll functions.
pub mod Patterns
pub mod Known
pub mod Masks
pub mod Report
use keelix.Prelude.{
  ℕ, zero, suc, List, [], ◌∷◌, ◌++◌, Option, none, some, drop, length, if◌then◌else◌,
}
use keelix.Text.{Text, codes, has_prefix, contains}

-- marker
abbrev pub marker : Text
marker = codes "[REDACTED]"

-- A match: the text to leave before the marker and the rest, or the text to leave as it is.
pub data Hit : Type 0 where
  hide : Text → Text → Hit
  keep : Text → Text → Hit

abbrev pub Matcher : Type 0
Matcher = Text → Option Hit

-- ReplaceAllString and ReplaceAllStringFunc, on fuel
unfoldable pub replace : Matcher → ℕ → Text → Text
replace m zero s = s
replace m (suc f) [] = []
replace m (suc f) (c ∷ s) = elim (m (c ∷ s)) [
  | none ↦ c ∷ replace m f s
  | some (hide before rest) ↦ before ++ marker ++ replace m f rest
  | some (keep text rest) ↦ text ++ replace m f rest
]

-- The length of a text is enough fuel.
unfoldable pub replace_all : Matcher → Text → Text
unfolding replace
replace_all m s = replace m (length s) s

-- The matcher of strings.ReplaceAll for one needle.
unfoldable pub match_text : Text → Matcher
match_text k s = if has_prefix s k then some (hide [] (drop (length k) s)) else none
