-- ===== src/Cli.antt =====
-- internal/cli/scan.go: the exit code of a scan under --ci. Reading the baseline file is an argument.
pub mod Fresh
use keelix.Prelude.{
  ℕ, Bool, true, false, not, List, [], ◌∷◌, ◌++◌, Option, none, some, any, select, length,
  if◌then◌else◌,
}
use keelix.Text.{Text, codes, text_eq, itoa}
use keelix.Outcome.{Outcome, done, fail}
use keelix.Model.Finding.{Finding, is_critical}
use keelix.Model.Result.{Result}

pub record ExitError : Type 0 where
  pub code : ℕ
  pub msg : Text

-- The key of a finding.
abbrev pub finding_key : Finding → Text
finding_key f = f.check_id ++ b'|' ∷ (f.service ++ b'|' ∷ f.resource)

keys_of : List Finding → List Text
keys_of [] = []
keys_of (f ∷ fs) =
    let rest = keys_of fs in if is_critical f.severity then finding_key f ∷ rest else rest

-- criticalKeys
unfoldable pub critical_keys : Result → List Text
unfolding keys_of
critical_keys r = keys_of r.findings

-- contains
unfoldable pub contains_key : List Text → Text → Bool
unfolding any
contains_key s v = any (text_eq v) s

abbrev exit_of : List Text → Option ExitError
exit_of [] = none
exit_of (k ∷ ks) =
    some (record { code = 2; msg = itoa (length (k ∷ ks)) ++ codes " critical finding(s) present" })

-- ciExit, given the loaded baseline, none for no path
unfoldable pub ci_exit : Result → Option (Outcome Result) → Option ExitError
unfolding select
ci_exit r none = exit_of (critical_keys r)
ci_exit r (some (fail e)) = some (record { code = 1; msg = codes "reading baseline: " ++ e })
ci_exit r (some (done base)) =
    exit_of (select (λ k. not (contains_key (critical_keys base) k)) (critical_keys r))
