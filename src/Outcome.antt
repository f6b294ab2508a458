-- ===== src/Outcome.antt =====
-- Results of calls that may fail, alone and with a state: a value, or the text of Go's error.
use keelix.Prelude.{◌++◌, ◌≡◌, refl, ap, ◌⊎◌, inl, inr, arith}
use keelix.Text.{Text}

pub data Outcome (A : Type 0) : Type 0 where
  done : A → Outcome A
  fail : Text → Outcome A

-- A call that changes a state, also where it fails.
abbrev pub Call : Type 0 → Type 0 → Type 0
Call S A = S → Outcome A × S

abbrev pub pure : {S A : Type 0} → A → Call S A
pure a s = (done a, s)

-- A result that leaves the state alone.
abbrev pub lift : {S A : Type 0} → Outcome A → Call S A
lift o s = (o, s)

abbrev pub follow : {S A B : Type 0} → Outcome A × S → (A → Call S B) → Outcome B × S
follow (done a, s) f = f a s
follow (fail e, s) f = (fail e, s)

infixl 5 ◌>>=◌ ◌>>◌
abbrev pub ◌>>=◌ : {S A B : Type 0} → Call S A → (A → Call S B) → Call S B
(m >>= f) s = follow (m s) f

abbrev pub ◌>>◌ : {S A B : Type 0} → Call S A → Call S B → Call S B
m >> k = m >>= λ _. k

-- fmt.Errorf("<label>%w", err)
abbrev pub labelled : {A : Type 0} → Text → Outcome A → Outcome A
labelled label (done a) = done a
labelled label (fail e) = fail (label ++ e)

abbrev pub named : {S A : Type 0} → Text → Call S A → Call S A
named label m s = let (o, s') = m s in (labelled label o, s')

pub Outcome-cases :
    {A : Type 0} (o : Outcome A) → ((a : A) × (o ≡ done a)) ⊎ ((e : Text) × (o ≡ fail e))
Outcome-cases (done a) = inl (a, refl)
Outcome-cases (fail e) = inr (e, refl)

value_or : {A : Type 0} → A → Outcome A → A
value_or d (done a) = a
value_or d (fail e) = d

pub done-injective : {A : Type 0} (a b : A) → done a ≡ done b → a ≡ b
unfolding value_or
done-injective a b e = ap (value_or a) e

pub fail-ne-done : {A : Type 0} (e : Text) (a : A) → ¬ (fail e ≡ done a)
fail-ne-done e a h = absurd (ground (arith, h))
