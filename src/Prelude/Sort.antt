-- ===== src/Prelude/Sort.antt =====
-- Go's sorts by a strict order, as an insertion sort, which is stable as sort.SliceStable is.
use mathlib.Core.Path.{◌≡◌, refl, ◌∙◌}
use mathlib.Core.Logic.{inl, inr}
use mathlib.Core.Bool.{Bool, true, false}
use mathlib.Core.List.{List, [], ◌∷◌, Perm}
use mathlib.Core.List.Perm
use native.Mathlib.Omega.{arith}
use keelix.Prelude.Tests.{if◌then◌else◌, Bool-cases}
use keelix.Prelude.Lists.{All, Mem, select}

module _ {A : Type 0} (before : A → A → Bool) where
  unfoldable pub insert : A → List A → List A
  insert x [] = x ∷ []
  insert x (y ∷ ys) = let rest = insert x ys in if before y x then y ∷ rest else x ∷ y ∷ ys

  -- sort.SliceStable
  unfoldable pub sort : List A → List A
  sort [] = []
  sort (x ∷ xs) = insert x (sort xs)

  insert-Perm : (x : A) (ys : List A) → Perm (insert x ys) (x ∷ ys)
  unfolding insert
  insert-Perm x [] = Perm.refl (x ∷ [])
  insert-Perm x (y ∷ ys) = elim (Bool-cases (before y x)) [
    | inl late ↦ rw (insert, late) (Perm.trans (Perm.cons y (insert-Perm x ys)) (Perm.swap x y ys))
    | inr early ↦ rw (insert, early) (Perm.refl (x ∷ y ∷ ys))
  ]

  -- Sorting permutes.
  pub sort-Perm : (xs : List A) → Perm (sort xs) xs
  unfolding sort
  sort-Perm [] = Perm.nil
  sort-Perm (x ∷ xs) = Perm.trans (insert-Perm x (sort xs)) (Perm.cons x (sort-Perm xs))

  pub insert-All : (P : A → Type 0) (x : A) (ys : List A) → P x → All P ys → All P (insert x ys)
  unfolding insert
  insert-All P x [] p h = (p, tt)
  insert-All P x (y ∷ ys) p (q, h) = elim (Bool-cases (before y x)) [
    | inl late ↦ rw (insert, late) (q, insert-All P x ys p h)
    | inr early ↦ rw (insert, early) (p, (q, h))
  ]

  -- Sorting keeps a property of all elements.
  pub sort-All : (P : A → Type 0) (xs : List A) → All P xs → All P (sort xs)
  unfolding sort
  sort-All P [] h = tt
  sort-All P (x ∷ xs) (p, h) = insert-All P x (sort xs) p (sort-All P xs h)

  -- No element comes before an earlier one.
  unfoldable pub IsSorted : List A → Type 0
  IsSorted [] = Unit
  IsSorted (x ∷ xs) = All (λ y. before y x ≡ false) xs × IsSorted xs

  -- Elements that pass a test stay in order when none of them comes before another.
  insert-select :
      (p : A → Bool) (x : A) (ys : List A)
      → ((a b : A) → p a ≡ true → p b ≡ true → before a b ≡ false)
      → select p (insert x ys) ≡ select p (x ∷ ys)
  unfolding insert select
  insert-select p x [] level = refl
  insert-select p x (y ∷ ys) level = elim (Bool-cases (before y x)) [
    | inl late ↦ elim (Bool-cases (p x)) [
      | inl px ↦ elim (Bool-cases (p y)) [
        | inl py ↦ absurd (ground (arith, late, level y x py px))
        | inr ny ↦ rw (insert, late, ny) (insert-select p x ys level)
      ]
      | inr nx ↦
          let rest = insert-select p x ys level ∙ rw nx refl in
          rw (insert, late) (rw (nx, rest) refl)
    ]
    | inr early ↦ rw (insert, early) refl
  ]

  -- Sorting is stable.
  pub sort-select :
      (p : A → Bool) (xs : List A)
      → ((a b : A) → p a ≡ true → p b ≡ true → before a b ≡ false)
      → select p (sort xs) ≡ select p xs
  unfolding sort select
  sort-select p [] level = refl
  sort-select p (x ∷ xs) level =
      insert-select p x (sort xs) level ∙ rw (sort-select p xs level) refl

  module _ (asym : (a b : A) → before a b ≡ true → before b a ≡ false)
      (trans : (a b c : A) → before b a ≡ false → before c b ≡ false → before c a ≡ false) where
    All-above :
        (x y : A) (ys : List A)
        → before y x ≡ false
        → All (λ z. before z y ≡ false) ys
        → All (λ z. before z x ≡ false) ys
    All-above x y [] h hs = tt
    All-above x y (z ∷ ys) h (k, ks) = (trans x y z h k, All-above x y ys h ks)

    insert-IsSorted : (x : A) (ys : List A) → IsSorted ys → IsSorted (insert x ys)
    unfolding insert IsSorted
    insert-IsSorted x [] h = (tt, tt)
    insert-IsSorted x (y ∷ ys) (h, hs) = elim (Bool-cases (before y x)) [
      | inl late ↦
          rw (insert, late)
            (insert-All (λ z. before z y ≡ false) x ys (asym y x late) h, insert-IsSorted x ys hs)
      | inr early ↦ rw (insert, early) ((early, All-above x y ys early h), (h, hs))
    ]

    -- Sorting sorts, by a strict weak order.
    pub sort-IsSorted : (xs : List A) → IsSorted (sort xs)
    unfolding sort IsSorted
    sort-IsSorted [] = tt
    sort-IsSorted (x ∷ xs) = insert-IsSorted x (sort xs) (sort-IsSorted xs)

insert_cons :
    {A : Type 0} (before : A → A → Bool) (x : A) (ys : List A)
    → (z : A) × (zs : List A) × (insert before x ys ≡ z ∷ zs)
unfolding insert
insert_cons before x [] = (x, [], refl)
insert_cons before x (y ∷ ys) = elim (Bool-cases (before y x)) [
  | inl late ↦ (y, insert before x ys, rw late refl)
  | inr early ↦ (x, y ∷ ys, rw early refl)
]

-- Sorting keeps a list from being empty.
pub sort_cons :
    {A : Type 0} (before : A → A → Bool) (xs : List A) {x : A}
    → Mem x xs
    → (z : A) × (zs : List A) × (sort before xs ≡ z ∷ zs)
unfolding sort
sort_cons before [] m = elim m [ ]
sort_cons before (x ∷ xs) m = insert_cons before x (sort before xs)
