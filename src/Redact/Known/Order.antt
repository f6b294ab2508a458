-- ===== src/Redact/Known/Order.antt =====
-- newRedactor keeps every value that is long enough.
use keelix.Prelude.{
  ℕ, zero, suc, ◌≤◌, ◌≡◌, refl, sym, ap, subst, inl, inr, Bool, true, false, List, [], ◌∷◌, ◌++◌,
  any, any-witness, Mem, here, there, Bool-cases, length, ltb, if◌then◌else◌, arith,
}
use keelix.Text.{Text, text_eq, trim_space}
use keelix.Text.Laws.{text_eq_iff}
use keelix.Redact.Known.{exchange, keep_known, longest_first, min_known_value_len, new_redactor}

length-exchange : (ys : List Text) (x : Text) → length (exchange x ys).1 ≡ length ys
unfolding exchange
length-exchange [] x = refl
length-exchange (y ∷ ys) x = ap suc (length-exchange ys _)

-- The values of a place in hand and of the places after it.
abbrev Holds : Text → Text × List Text → Type 0
Holds k r = Mem k (r.0 ∷ r.1)

behind : (k m z : Text) (rest : List Text) → Mem k (m ∷ rest) → Mem k (m ∷ z ∷ rest)
behind k m z rest here = here
behind k m z rest (there h) = there (there h)

exchange_step :
    (k x y : Text) (ys : List Text) (longer : Bool)
    → ((z : Text) → Mem k (z ∷ ys) → Holds k (exchange z ys))
    → Mem k (x ∷ y ∷ ys)
    → Holds k (
      (exchange (if longer then y else x) ys).0,
      (if longer then x else y) ∷ (exchange (if longer then y else x) ys).1,
    )
exchange_step k x y ys true ih here = there here
exchange_step k x y ys true ih (there h) = behind k _ x _ (ih y h)
exchange_step k x y ys false ih here = behind k _ y _ (ih x here)
exchange_step k x y ys false ih (there here) = there here
exchange_step k x y ys false ih (there (there h)) = behind k _ y _ (ih x (there h))

exchange-Mem : (k : Text) (ys : List Text) (x : Text) → Mem k (x ∷ ys) → Holds k (exchange x ys)
unfolding exchange
exchange-Mem k [] x h = h
exchange-Mem k (y ∷ ys) x h =
    exchange_step k x y ys (ltb (length x) (length y)) (exchange-Mem k ys) h

cons-Mem :
    (k m : Text) (rest rest' : List Text)
    → (Mem k rest → Mem k rest')
    → Mem k (m ∷ rest)
    → Mem k (m ∷ rest')
cons-Mem k m rest rest' f here = here
cons-Mem k m rest rest' f (there h) = there (f h)

longest_first-Mem :
    (k : Text) (n : ℕ) (out : List Text) → length out ≤ n → Mem k out → Mem k (longest_first n out)
unfolding longest_first
longest_first-Mem k zero out le h = h
longest_first-Mem k (suc n) [] le h = h
longest_first-Mem k (suc n) (x ∷ xs) le h =
    cons-Mem k _ _ _
      (longest_first-Mem k n (exchange x xs).1 (omega (arith, le, length-exchange xs x)))
      (exchange-Mem k xs x h)

Mem-append : (k : Text) (out new : List Text) → Mem k out → Mem k (out ++ new)
Mem-append k [] new h = elim h [ ]
Mem-append k (x ∷ out) new here = here
Mem-append k (x ∷ out) new (there h) = there (Mem-append k out new h)

Mem-append-last : (k : Text) (out : List Text) → Mem k (out ++ k ∷ [])
Mem-append-last k [] = here
Mem-append-last k (x ∷ out) = there (Mem-append-last k out)

keep_known-keeps : (k : Text) (vs out : List Text) → Mem k out → Mem k (keep_known vs out)
unfolding keep_known
keep_known-keeps k [] out h = h
keep_known-keeps k (v ∷ vs) out h =
    elim (Bool-cases (ltb (length (trim_space v)) min_known_value_len)) [
      | inl short ↦ rw (keep_known, short) (keep_known-keeps k vs out h)
      | inr long ↦ elim (Bool-cases (any (text_eq (trim_space v)) out)) [
        | inl seen ↦ rw (keep_known, long, seen) (keep_known-keeps k vs out h)
        | inr new ↦ rw (keep_known, long, new) (keep_known-keeps k vs _ (Mem-append k out _ h))
      ]
    ]

keep_known-Mem :
    (v : Text) (vs out : List Text)
    → Mem v vs
    → min_known_value_len ≤ length (trim_space v)
    → Mem (trim_space v) (keep_known vs out)
unfolding keep_known
keep_known-Mem v [] out h le = elim h [ ]
keep_known-Mem v (u ∷ vs) out here le =
    let k = trim_space v in
    elim (Bool-cases (ltb (length k) min_known_value_len)) [
      | inl short ↦ absurd (ground (arith, short, le))
      | inr long ↦ elim (Bool-cases (any (text_eq k) out)) [
        | inl seen ↦
            let (t, m, same) = any-witness (text_eq k) out seen in
            let at = subst (λ x. Mem x out) (sym ((text_eq_iff k t).0 same)) m in
            rw (keep_known, long, seen) (keep_known-keeps k vs out at)
        | inr new ↦ rw (keep_known, long, new) (keep_known-keeps k vs _ (Mem-append-last k out))
      ]
    ]
keep_known-Mem v (u ∷ vs) out (there m) le =
    elim (Bool-cases (ltb (length (trim_space u)) min_known_value_len)) [
      | inl short ↦ rw (keep_known, short) (keep_known-Mem v vs out m le)
      | inr long ↦ elim (Bool-cases (any (text_eq (trim_space u)) out)) [
        | inl seen ↦ rw (keep_known, long, seen) (keep_known-Mem v vs out m le)
        | inr new ↦ rw (keep_known, long, new) (keep_known-Mem v vs _ m le)
      ]
    ]

-- Every value that has at least six bytes without its outer spaces is known.
pub new_redactor-Mem :
    (v : Text) (vs : List Text)
    → Mem v vs
    → min_known_value_len ≤ length (trim_space v)
    → Mem (trim_space v) (new_redactor vs)
unfolding new_redactor
new_redactor-Mem v vs m le =
    longest_first-Mem (trim_space v) _ _ (omega arith) (keep_known-Mem v vs [] m le)
