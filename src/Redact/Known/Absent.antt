-- ===== src/Redact/Known/Absent.antt =====
-- What redactString leaves of the known values.
use keelix.Prelude.{◌≤◌, ◌≡◌, inl, inr, false, List, [], ◌∷◌, Mem, here, there, Bool-cases, length}
use keelix.Text.{Text, contains, trim_space}
use keelix.Redact.{match_text}
use keelix.Redact.Masks.{IsClean, replace_all_masks}
use keelix.Redact.Patterns.{match_pattern, conn_string, bearer, jwt, match_token}
use keelix.Redact.Patterns.Splits.{match_pattern-IsFaithful, match_token-IsFaithful}
use keelix.Redact.Known.{
  redact_value, redact_values, redact_patterns, redact_string, new_redactor, min_known_value_len,
}
use keelix.Redact.Known.Gone.{match_text-gone, match_text-IsFaithful, nowhere_in_empty}
use keelix.Redact.Known.Order.{new_redactor-Mem}

module _ (k : Text) (clean : IsClean k) where
  redact_value_masks : (j s : Text) → contains s k ≡ false → contains (redact_value j s) k ≡ false
  unfolding redact_value
  redact_value_masks j s h = elim (Bool-cases (contains s j)) [
    | inl has ↦
        rw (redact_value, has)
          (replace_all_masks (match_text j) (match_text-IsFaithful j) k clean s h)
    | inr lacks ↦ rw (redact_value, lacks) h
  ]

  redact_value-gone : (s : Text) → contains (redact_value k s) k ≡ false
  unfolding redact_value
  redact_value-gone s = elim (Bool-cases (contains s k)) [
    | inl has ↦ rw (redact_value, has) (match_text-gone k s clean)
    | inr lacks ↦ rw (redact_value, lacks) lacks
  ]

  redact_values_mask :
      (ks : List Text) (s : Text) → contains s k ≡ false → contains (redact_values ks s) k ≡ false
  unfolding redact_values
  redact_values_mask [] s h = h
  redact_values_mask (j ∷ ks) s h =
      redact_values_mask ks (redact_value j s) (redact_value_masks j s h)

  redact_values-gone :
      (ks : List Text) (s : Text) → Mem k ks → contains (redact_values ks s) k ≡ false
  unfolding redact_values
  redact_values-gone [] s h = elim h [ ]
  redact_values-gone (j ∷ ks) s here =
      redact_values_mask ks (redact_value k s) (redact_value-gone s)
  redact_values-gone (j ∷ ks) s (there m) = redact_values-gone ks (redact_value j s) m

  redact_patterns_mask : (s : Text) → contains s k ≡ false → contains (redact_patterns s) k ≡ false
  unfolding redact_patterns
  redact_patterns_mask s h = replace_all_masks match_token match_token-IsFaithful k clean _ (
      replace_all_masks (match_pattern jwt) (match_pattern-IsFaithful jwt) k clean _ (
        replace_all_masks (match_pattern bearer) (match_pattern-IsFaithful bearer) k clean _ (
          replace_all_masks (match_pattern conn_string) (match_pattern-IsFaithful conn_string) k
            clean s h)))

-- A value of at least six bytes that the redactor was given does not occur in what redactString
-- leaves, where the value has no bracket and is no part of the marker's word: whatever the other
-- values are, and whatever the rules for tokens replace after it.
pub redact_string-absent :
    (vs : List Text) (v s : Text)
    → Mem v vs
    → min_known_value_len ≤ length (trim_space v)
    → IsClean (trim_space v)
    → contains (redact_string (new_redactor vs) s) (trim_space v) ≡ false
unfolding redact_string
redact_string-absent vs v [] m le clean = nowhere_in_empty (trim_space v) clean
redact_string-absent vs v (c ∷ s) m le clean =
    redact_patterns_mask (trim_space v) clean _ (
      redact_values-gone (trim_space v) clean (new_redactor vs) (c ∷ s)
        (new_redactor-Mem v vs m le))
