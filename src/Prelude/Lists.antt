-- ===== src/Prelude/Lists.antt =====
-- Lists measured by the native numbers, membership by recursion, and Boolean quantifiers.
use Prim.Native.Nat.{ℕ, zero, suc, ◌+◌}
use mathlib.Core.Path.{◌≡◌}
use mathlib.Core.Logic.{◌⊎◌, inl, inr}
use mathlib.Core.Bool.{Bool, true, false}
use mathlib.Core.List.{List, [], ◌∷◌, ◌++◌, map}
use mathlib.Core.Option.{Option, none, some}
use native.Mathlib.Omega.{arith}
use keelix.Prelude.Tests.{if◌then◌else◌, Bool-cases}

module _ {ℓ} {A : Type ℓ} where
  abbrev pub length : List A → ℕ
  length [] = 0
  length (x ∷ xs) = suc (length xs)

  abbrev pub get_elem? : List A → ℕ → Option A
  get_elem? [] i = none
  get_elem? (x ∷ xs) zero = some x
  get_elem? (x ∷ xs) (suc i) = get_elem? xs i

  abbrev pub take : ℕ → List A → List A
  take zero xs = []
  take (suc n) [] = []
  take (suc n) (x ∷ xs) = x ∷ take n xs

  abbrev pub drop : ℕ → List A → List A
  drop zero xs = xs
  drop (suc n) [] = []
  drop (suc n) (x ∷ xs) = drop n xs

  abbrev pub replicate : ℕ → A → List A
  replicate zero a = []
  replicate (suc n) a = a ∷ replicate n a

  -- A loop that keeps the elements that pass a test.
  unfoldable pub select : (A → Bool) → List A → List A
  select p [] = []
  select p (x ∷ xs) = if p x then x ∷ select p xs else select p xs

  -- A loop that returns true at the first element that passes.
  unfoldable pub any : (A → Bool) → List A → Bool
  any p [] = false
  any p (x ∷ xs) = if p x then true else any p xs

  -- The place of an element, as evidence that can be matched.
  pub data Mem (a : A) : List A → Type ℓ where
    here : {xs : List A} → Mem a (a ∷ xs)
    there : {x : A} {xs : List A} → Mem a xs → Mem a (x ∷ xs)

abbrev pub All {ℓ κ} : {A : Type ℓ} → (A → Type κ) → List A → Type κ
All P [] = Unit
All P (x ∷ xs) = P x × All P xs

pub All-Mem {ℓ κ} : {A : Type ℓ} (P : A → Type κ) {a : A} {xs : List A} → All P xs → Mem a xs → P a
All-Mem P h here = h.0
All-Mem P h (there m) = All-Mem P h.1 m

pub All-tabulate {ℓ κ} :
    {A : Type ℓ} (P : A → Type κ) (xs : List A) → ((a : A) → Mem a xs → P a) → All P xs
All-tabulate P [] h = tt
All-tabulate P (x ∷ xs) h = (h x here, All-tabulate P xs λ a m. h a (there m))

pub any-Mem {ℓ} :
    {A : Type ℓ} (p : A → Bool) {a : A} {xs : List A} → Mem a xs → p a ≡ true → any p xs ≡ true
unfolding any
any-Mem p here e = ground arith
any-Mem p (there m) e = ground (arith, any-Mem p m e)

pub any-witness {ℓ} :
    {A : Type ℓ} (p : A → Bool) (xs : List A) → any p xs ≡ true → (a : A) × Mem a xs × (p a ≡ true)
unfolding any
any-witness p [] h = absurd (ground arith)
any-witness p (x ∷ xs) h = elim (Bool-cases (p x)) [
  | inl e ↦ (x, here, e)
  | inr e ↦ let (a, m, q) = any-witness p xs (ground arith) in (a, there m, q)
]

pub length-append {ℓ} : {A : Type ℓ} (xs ys : List A) → length (xs ++ ys) ≡ length xs + length ys
length-append [] ys = omega arith
length-append (x ∷ xs) ys = omega (arith, length-append xs ys)

pub select-Mem :
    {A : Type 0} (p : A → Bool) {x : A} (xs : List A) → Mem x xs → p x ≡ true → Mem x (select p xs)
unfolding select
select-Mem p [] m e = elim m [ ]
select-Mem p (x ∷ xs) here e = rw e here
select-Mem p (y ∷ xs) (there m) e = elim (Bool-cases (p y)) [
  | inl kept ↦ rw kept (there (select-Mem p xs m e))
  | inr left ↦ rw left (select-Mem p xs m e)
]

pub select-All : {A : Type 0} (p : A → Bool) (xs : List A) → All (λ x. p x ≡ true) (select p xs)
unfolding select
select-All p [] = tt
select-All p (x ∷ xs) = elim (Bool-cases (p x)) [
  | inl kept ↦ rw (select, kept) (kept, select-All p xs)
  | inr left ↦ rw (select, left) (select-All p xs)
]

pub map-Mem : {A B : Type 0} (g : A → B) {x : A} (xs : List A) → Mem x xs → Mem (g x) (map g xs)
map-Mem g [] m = elim m [ ]
map-Mem g (x ∷ xs) here = here
map-Mem g (y ∷ xs) (there m) = there (map-Mem g xs m)

pub Mem-append_left {ℓ} : {A : Type ℓ} {x : A} (xs ys : List A) → Mem x xs → Mem x (xs ++ ys)
Mem-append_left [] ys m = elim m [ ]
Mem-append_left (y ∷ xs) ys here = here
Mem-append_left (y ∷ xs) ys (there m) = there (Mem-append_left xs ys m)

pub Mem-append_right {ℓ} : {A : Type ℓ} {x : A} (xs ys : List A) → Mem x ys → Mem x (xs ++ ys)
Mem-append_right [] ys m = m
Mem-append_right (x ∷ xs) ys m = there (Mem-append_right xs ys m)

pub Mem-append_cases {ℓ} :
    {A : Type ℓ} {x : A} (xs ys : List A) → Mem x (xs ++ ys) → Mem x xs ⊎ Mem x ys
Mem-append_cases [] ys m = inr m
Mem-append_cases (x ∷ xs) ys here = inl here
Mem-append_cases (x ∷ xs) ys (there m) = elim (Mem-append_cases xs ys m) [
  | inl l ↦ inl (there l)
  | inr r ↦ inr r
]
