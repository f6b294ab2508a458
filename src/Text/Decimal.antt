-- ===== src/Text/Decimal.antt =====
-- strconv.Itoa and strconv.Atoi: decimal digits, and the round trip.
use keelix.Prelude.{
  ℕ, zero, suc, ◌+◌, ◌-◌, ◌*◌, ◌/◌, ◌%◌, ◌≤◌, ◌<◌, ◌≡◌, refl, sym, ◌≢◌, ap, ◌∙◌, [], ◌∷◌, some,
  arith, All, ltb, Bool-cases, inl, inr, ltb→lt, ltb-false→le,
}
use mathlib.Core.Option.{some-injective}
use keelix.Text.{Text, max_int, digits_of, digits_from, parse_digits, itoa, atoi}

abbrev pub IsDigit : ℕ → Type 0
IsDigit c = (48 ≤ c) × (c ≤ 57)

digits_of-IsDigit : (f n : ℕ) (acc : Text) → All IsDigit acc → All IsDigit (digits_of f n acc)
unfolding digits_of
digits_of-IsDigit zero n acc h = h
digits_of-IsDigit (suc f) n acc h = elim (Bool-cases (ltb n 10)) [
  | inl last ↦ rw last (omega arith, h)
  | inr more ↦ rw more (digits_of-IsDigit f (n / 10) ((48 + n % 10) ∷ acc) (omega arith, h))
]

-- The text of a number consists of digits.
pub itoa-IsDigit : (n : ℕ) → All IsDigit (itoa n)
unfolding itoa
itoa-IsDigit n = digits_of-IsDigit (suc n) n [] tt

digits_from_digit :
    (a n : ℕ) (acc : Text) → n < 10 → digits_from a ((48 + n) ∷ acc) ≡ digits_from (a * 10 + n) acc
unfolding digits_from
digits_from_digit a n acc lt =
    let value : a * 10 + (48 + n - 48) ≡ a * 10 + n = omega arith in rw value (ground arith)

digits_from-digits_of :
    (f n : ℕ) (acc : Text) → n < f → digits_from 0 (digits_of f n acc) ≡ digits_from n acc
unfolding digits_of
digits_from-digits_of zero n acc lt = absurd (omega arith)
digits_from-digits_of (suc f) n acc lt = elim (Bool-cases (ltb n 10)) [
  | inl last ↦ rw last (
      digits_from_digit 0 (n % 10) acc (omega arith)
      ∙ ap (λ z. digits_from z acc) (omega (arith, ltb→lt n 10 last)))
  | inr more ↦ rw more (
      digits_from-digits_of f (n / 10) ((48 + n % 10) ∷ acc) (omega (arith, ltb-false→le n 10 more))
      ∙ digits_from_digit (n / 10) (n % 10) acc (omega arith)
      ∙ ap (λ z. digits_from z acc) (omega arith))
]

digits_from-itoa : (n : ℕ) → digits_from 0 (itoa n) ≡ some n
unfolding itoa digits_from
digits_from-itoa n = digits_from-digits_of (suc n) n [] (omega arith)

-- Two numbers with the same text are equal.
pub itoa-injective : (m n : ℕ) → itoa m ≡ itoa n → m ≡ n
itoa-injective m n e =
    some-injective _ _ (sym (digits_from-itoa m) ∙ ap (digits_from 0) e ∙ digits_from-itoa n)

parse_digits-digit : (c : ℕ) (s : Text) → parse_digits (c ∷ s) ≡ digits_from 0 (c ∷ s)
unfolding parse_digits
parse_digits-digit c s = refl

atoi_of_digits :
    (s : Text) (n : ℕ)
    → All IsDigit s
    → s ≢ []
    → digits_from 0 s ≡ some n
    → n ≤ max_int
    → atoi s ≡ some n
unfolding atoi
atoi_of_digits [] n h ne e le = absurd (ne refl)
atoi_of_digits (c ∷ s) n (d, h) ne e le = ground (arith, parse_digits-digit c s)

digits_of-ne-nil : (f n : ℕ) (c : ℕ) (acc : Text) → digits_of f n (c ∷ acc) ≢ []
unfolding digits_of
digits_of-ne-nil zero n c acc = cc
digits_of-ne-nil (suc f) n c acc =
    ground (arith, digits_of-ne-nil f (n / 10) (48 + n % 10) (c ∷ acc))

itoa-ne-nil : (n : ℕ) → itoa n ≢ []
unfolding itoa digits_of
itoa-ne-nil n = ground (arith, digits_of-ne-nil n (n / 10) (48 + n % 10) [])

-- Reading the decimal text of a number within the range of int gives the number back.
pub atoi-itoa : (n : ℕ) → n ≤ max_int → atoi (itoa n) ≡ some n
atoi-itoa n le = atoi_of_digits (itoa n) n (itoa-IsDigit n) (itoa-ne-nil n) (digits_from-itoa n) le
