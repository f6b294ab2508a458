-- ===== src/Redact/Patterns/Splits.antt =====
-- The matches of the expressions are parts of the text.
use keelix.Prelude.{
  ℕ, zero, suc, ◌≡◌, refl, ◌∙◌, sym, ap, subst, inl, inr, not, [], ◌∷◌, ◌++◌, some, Bool-cases,
  Option-cases, take, drop, leb,
}
use mathlib.Core.Option.{some-injective, none-ne-some}
use keelix.Text.{Text, text_eq}
use keelix.Redact.{marker, hide, keep}
use keelix.Redact.Masks.{IsSplit, IsFaithful}
use keelix.Redact.Patterns.{
  Pattern, match_pieces, match_pattern, match_token, run_length, is_token, is_high_entropy,
}

take-drop : (n : ℕ) (s : Text) → s ≡ take n s ++ drop n s
take-drop zero s = refl
take-drop (suc n) [] = refl
take-drop (suc n) (c ∷ s) = ap (◌∷◌ c) (take-drop n s)

-- Both a hidden and a kept match at a position split the text there.
hide-IsSplit : (n m : ℕ) (s : Text) → IsSplit s (hide (take n s) (drop m (drop n s)))
unfolding IsSplit
hide-IsSplit n m s =
    (take m (drop n s), take-drop n s ∙ ap (◌++◌ (take n s)) (take-drop m (drop n s)))

keep-IsSplit : (n : ℕ) (s : Text) → IsSplit s (keep (take n s) (drop n s))
unfolding IsSplit
keep-IsSplit n s = take-drop n s

whole : (n : ℕ) (s : Text) → IsSplit s (hide [] (drop n s))
unfolding IsSplit
whole n s = (take n s, take-drop n s)

pub match_pattern-IsFaithful : (p : Pattern) → IsFaithful (match_pattern p)
unfolding match_pattern
match_pattern-IsFaithful p s h e = elim (Option-cases (match_pieces p.shown s)) [
  | inl off ↦ absurd (none-ne-some _ (sym (rw (match_pattern, off) refl) ∙ e))
  | inr (n, shown) ↦ elim (Option-cases (match_pieces p.hidden (drop n s))) [
    | inl off ↦ absurd (none-ne-some _ (sym (rw (match_pattern, shown, off) refl) ∙ e))
    | inr (m, hidden) ↦ elim (Option-cases (match_pieces p.after (drop m (drop n s)))) [
      | inl off ↦ absurd (none-ne-some _ (sym (rw (match_pattern, shown, hidden, off) refl) ∙ e))
      | inr (l, after) ↦
          let is_h = some-injective _ _ (sym (rw (match_pattern, shown, hidden, after) refl) ∙ e) in
          subst (IsSplit s) is_h (hide-IsSplit n m s)
    ]
  ]
]

pub match_token-IsFaithful : IsFaithful match_token
unfolding match_token
match_token-IsFaithful s h e =
    let n = run_length is_token s in
    elim (Bool-cases (not (leb 24 n))) [
      | inl short ↦ absurd (none-ne-some _ (sym (rw (match_token, short) refl) ∙ e))
      | inr long ↦ elim (Bool-cases (text_eq (take n s) marker)) [
        | inl done_it ↦
            let given : match_token s ≡ some (keep (take n s) (drop n s)) =
              rw (match_token, long, done_it) refl in
            subst (IsSplit s) (some-injective _ _ (sym given ∙ e)) (keep-IsSplit n s)
        | inr plain ↦ elim (Bool-cases (is_high_entropy (take n s))) [
          | inl high ↦
              let given : match_token s ≡ some (hide [] (drop n s)) =
                rw (match_token, long, plain, high) refl in
              subst (IsSplit s) (some-injective _ _ (sym given ∙ e)) (whole n s)
          | inr low ↦
              let given : match_token s ≡ some (keep (take n s) (drop n s)) =
                rw (match_token, long, plain, low) refl in
              subst (IsSplit s) (some-injective _ _ (sym given ∙ e)) (keep-IsSplit n s)
        ]
      ]
    ]
