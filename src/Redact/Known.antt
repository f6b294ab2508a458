-- ===== src/Redact/Known.antt =====
-- newRedactor, redactString and the values that it knows.
pub mod Gone
pub mod Order
pub mod Absent
use keelix.Prelude.{
  ℕ, zero, suc, Bool, true, false, List, [], ◌∷◌, ◌++◌, Option, none, some, any, length, ltb,
  if◌then◌else◌,
}
use keelix.Text.{Text, text_eq, trim_space, contains}
use keelix.Intel.Images.{is_secret_env_name}
use keelix.Model.Finding.{TextMap}
use keelix.Model.Stack.{Stack}
use keelix.Redact.{replace_all, match_text}
use keelix.Redact.Patterns.{match_pattern, conn_string, bearer, jwt, match_token}

abbrev pub min_known_value_len : ℕ
min_known_value_len = 6

-- The first loop of newRedactor, from the values kept so far; later ones are appended.
unfoldable pub keep_known : List Text → List Text → List Text
keep_known [] out = out
keep_known (v ∷ vs) out =
    let k = trim_space v in
    if ltb (length k) min_known_value_len
    then keep_known vs out
    else if any (text_eq k) out
    then keep_known vs out
    else keep_known vs (out ++ k ∷ [])

-- The inner loop of the sort: out[i], and the places after it.
unfoldable pub exchange : Text → List Text → Text × List Text
exchange x [] = (x, [])
exchange x (y ∷ ys) =
    let longer = ltb (length x) (length y) in
    let (m, rest) = exchange (if longer then y else x) ys in (m, (if longer then x else y) ∷ rest)

-- The outer loop, with the places left.
unfoldable pub longest_first : ℕ → List Text → List Text
longest_first zero out = out
longest_first (suc left) [] = []
longest_first (suc left) (x ∷ xs) = let (m, rest) = exchange x xs in m ∷ longest_first left rest

-- newRedactor
unfoldable pub new_redactor : List Text → List Text
new_redactor known = let out = keep_known known [] in longest_first (length out) out

-- The body of the loop of rule 1.
unfoldable pub redact_value : Text → Text → Text
redact_value k s = if contains s k then replace_all (match_text k) s else s

unfoldable pub redact_values : List Text → Text → Text
redact_values [] s = s
redact_values (k ∷ ks) s = redact_values ks (redact_value k s)

-- The rules 2 to 5.
unfoldable pub redact_patterns : Text → Text
redact_patterns s = replace_all match_token (
    replace_all (match_pattern jwt)
      (replace_all (match_pattern bearer) (replace_all (match_pattern conn_string) s)))

-- redactString
unfoldable pub redact_string : List Text → Text → Text
redact_string known [] = []
redact_string known (c ∷ s) = redact_patterns (redact_values known (c ∷ s))

-- The loop of knownSecretValues.
unfoldable pub secret_values : TextMap → List Text
secret_values [] = []
secret_values ((k, v) ∷ env) =
    let rest = secret_values env in if is_secret_env_name k then v ∷ rest else rest

-- knownSecretValues
unfoldable pub known_secret_values : Option Stack → List Text
known_secret_values none = []
known_secret_values (some s) = secret_values s.env
