-- ===== src/Redact/Known/Gone.antt =====
-- What is left of a known value, and of the expressions.
use keelix.Prelude.{
  ℕ, zero, suc, ◌≤◌, ◌≡◌, ◌≢◌, refl, ◌∙◌, sym, ap, subst, inl, inr, true, false, [], ◌∷◌, ◌++◌,
  some, All, Bool-cases, drop, length, arith,
}
use mathlib.Core.Option.{some-injective, none-ne-some}
use keelix.Text.{Text, has_prefix, contains, index}
use keelix.Redact.{marker, hide, replace, replace_all, match_text}
use keelix.Redact.Masks.{IsClean, IsSplit, IsFaithful, contains-cons, contains-marker, All-map}

has_prefix-split : (s k : Text) → has_prefix s k ≡ true → s ≡ k ++ drop (length k) s
unfolding has_prefix
has_prefix-split s [] e = refl
has_prefix-split [] (d ∷ k) e = absurd (ground (arith, e))
has_prefix-split (c ∷ s) (d ∷ k) e = ground (arith, e, has_prefix-split s k)

pub match_text-IsFaithful : (k : Text) → IsFaithful (match_text k)
unfolding match_text IsSplit
match_text-IsFaithful k s h e = elim (Bool-cases (has_prefix s k)) [
  | inl hit ↦
      let given : match_text k s ≡ some (hide [] (drop (length k) s)) = rw (match_text, hit) refl in
      let is_h = some-injective _ _ (sym given ∙ e) in
      subst (IsSplit s) is_h (k, has_prefix-split s k hit)
  | inr miss ↦ absurd (none-ne-some _ (sym (rw (match_text, miss) refl) ∙ e))
]

-- The start of what a replacement leaves, up to a bracket, is that of the original.
has_prefix_kept :
    (k p : Text) (f : ℕ) (s : Text)
    → All (λ c. c ≢ b'[') p
    → has_prefix (replace (match_text k) f s) p ≡ true
    → has_prefix s p ≡ true
unfolding replace match_text has_prefix
has_prefix_kept k [] f s h e = refl
has_prefix_kept k (d ∷ p) zero s h e = e
has_prefix_kept k (d ∷ p) (suc f) [] h e = e
has_prefix_kept k (d ∷ p) (suc f) (c ∷ s) h e = elim (Bool-cases (has_prefix (c ∷ s) k)) [
  | inl hit ↦ absurd (ground (arith, e, hit, h.0))
  | inr miss ↦ ground (arith, e, miss, has_prefix_kept k p f s h.1)
]

step_hit :
    (k : Text) (f c : ℕ) (s : Text)
    → has_prefix (c ∷ s) k ≡ true
    → replace (match_text k) (suc f) (c ∷ s)
      ≡ marker ++ replace (match_text k) f (drop (length k) (c ∷ s))
unfolding replace match_text
step_hit k f c s hit = rw (replace, hit) refl

step_miss :
    (k : Text) (f c : ℕ) (s : Text)
    → has_prefix (c ∷ s) k ≡ false
    → replace (match_text k) (suc f) (c ∷ s) ≡ c ∷ replace (match_text k) f s
unfolding replace match_text
step_miss k f c s miss = rw (replace, miss) refl

length-drop : (n : ℕ) (s : Text) → length (drop n s) ≤ length s
length-drop zero s = omega arith
length-drop (suc n) [] = omega arith
length-drop (suc n) (c ∷ s) = omega (arith, length-drop n s)

pub nowhere_in_empty : (k : Text) → IsClean k → contains [] k ≡ false
unfolding IsClean contains index has_prefix
nowhere_in_empty [] (h, word) = absurd (ground (arith, word))
nowhere_in_empty (d ∷ k) clean = refl

shorter : (k : Text) (c : ℕ) (s : Text) → IsClean k → length (drop (length k) (c ∷ s)) ≤ length s
unfolding IsClean contains index has_prefix
shorter [] c s (h, word) = absurd (ground (arith, word))
shorter (d ∷ k) c s clean = length-drop (length k) s

no_bracket : (k : Text) → IsClean k → All (λ c. c ≢ b'[') k
unfolding IsClean
no_bracket k clean = All-map _ _ k (λ c. λ p. p.0) clean.0

nothing_left : (k : Text) (f : ℕ) → replace (match_text k) f [] ≡ []
unfolding replace
nothing_left k zero = refl
nothing_left k (suc f) = refl

gone :
    (k : Text) (f : ℕ) (s : Text)
    → IsClean k
    → length s ≤ f
    → contains (replace (match_text k) f s) k ≡ false
gone k f [] clean le = ap (λ x. contains x k) (nothing_left k f) ∙ nowhere_in_empty k clean
gone k zero (c ∷ s) clean le = absurd (omega (arith, le))
gone k (suc f) (c ∷ s) clean le =
    elim (Bool-cases (contains (replace (match_text k) (suc f) (c ∷ s)) k)) [
      | inr absent ↦ absent
      | inl found ↦ elim (Bool-cases (has_prefix (c ∷ s) k)) [
        | inl hit ↦
            let rest = drop (length k) (c ∷ s) in
            let at = sym (ap (λ x. contains x k) (step_hit k f c s hit)) ∙ found in
            elim (contains-marker [] (replace (match_text k) f rest) k clean at) [
              | inl left ↦ absurd (ground (arith, left, nowhere_in_empty k clean))
              | inr right ↦ absurd (
                  ground
                    (arith, right, gone k f rest clean (omega (arith, le, shorter k c s clean))))
            ]
        | inr miss ↦
            let at = sym (ap (λ x. contains x k) (step_miss k f c s miss)) ∙ found in
            elim (contains-cons c (replace (match_text k) f s) k at) [
              | inl here ↦
                  let kept =
                    has_prefix_kept k k (suc f) (c ∷ s) (no_bracket k clean)
                      (ap (λ x. has_prefix x k) (step_miss k f c s miss) ∙ here) in
                  absurd (ground (arith, kept, miss))
              | inr later ↦ absurd (ground (arith, later, gone k f s clean (omega (arith, le))))
            ]
      ]
    ]

-- ReplaceAll leaves no occurrence of a clean text.
pub match_text-gone : (k s : Text) → IsClean k → contains (replace_all (match_text k) s) k ≡ false
unfolding replace_all
match_text-gone k s clean = gone k (length s) s clean (omega arith)
