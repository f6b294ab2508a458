-- ===== src/Correlate/Report/Keys.antt =====
-- The lists of keys that correlate.go builds: their members and their order.
use keelix.Prelude.{
  ℕ, ◌<◌, ◌≡◌, refl, ◌∙◌, ap, Bool, ◌&&◌, ◌||◌, List, [], ◌∷◌, ◌++◌, map, arith, All, ltb, ◌==◌,
  any, Bool-cases, inl, inr, Option, ==_iff, ltb→lt,
}
use keelix.Model.Stack.{Stack}
use keelix.Correlate.Report.{
  PortFinding, has, insert_key, sorted_keys, keys_where, insert_finding, sort_findings,
  select_findings, finding_of, category,
}

-- Strictly ascending numbers.
abbrev pub IsAscending : List ℕ → Type 0
IsAscending [] = Unit
IsAscending (k ∷ ks) = All (λ j. k < j) ks × IsAscending ks

has-insert_key : (p k : ℕ) (js : List ℕ) → has p (insert_key k js) ≡ (k == p || has p js)
unfolding has insert_key
has-insert_key p k [] = refl
has-insert_key p k (j ∷ js) = ground (arith, has-insert_key p k js)

pub has-sorted_keys : (p : ℕ) (ks : List ℕ) → has p (sorted_keys ks) ≡ has p ks
unfolding has sorted_keys
has-sorted_keys p [] = refl
has-sorted_keys p (k ∷ ks) =
    has-insert_key p k (sorted_keys ks) ∙ ap (λ b. k == p || b) (has-sorted_keys p ks)

pub has-append : (p : ℕ) (js ks : List ℕ) → has p (js ++ ks) ≡ (has p js || has p ks)
unfolding has
has-append p [] ks = refl
has-append p (j ∷ js) ks = ground (arith, has-append p js ks)

pub has-keys_where :
    {A : Type 0} (accepts : A → Bool) (key : A → ℕ) (p : ℕ) (xs : List A)
    → has p (keys_where accepts key xs) ≡ any (λ x. key x == p && accepts x) xs
unfolding has keys_where any
has-keys_where accepts key p [] = refl
has-keys_where accepts key p (x ∷ xs) = ground (arith, has-keys_where accepts key p xs)

All-insert_key :
    (i k : ℕ) (js : List ℕ) → i < k → All (λ j. i < j) js → All (λ j. i < j) (insert_key k js)
unfolding insert_key
All-insert_key i k [] l h = (l, tt)
All-insert_key i k (j ∷ js) l (h, hs) = ground (arith, All-insert_key i k js l hs)

All-weaken : (i j : ℕ) (ks : List ℕ) → i < j → All (λ k. j < k) ks → All (λ k. i < k) ks
All-weaken i j [] l h = tt
All-weaken i j (k ∷ ks) l (h, hs) = (omega arith, All-weaken i j ks l hs)

insert_key-IsAscending : (k : ℕ) (js : List ℕ) → IsAscending js → IsAscending (insert_key k js)
unfolding insert_key
insert_key-IsAscending k [] h = (tt, tt)
insert_key-IsAscending k (j ∷ js) (h, hs) = elim (Bool-cases (ltb k j)) [
  | inl less ↦ let l = ltb→lt k j less in rw less ((l, All-weaken k j js l h), (h, hs))
  | inr more ↦ elim (Bool-cases (k == j)) [
    | inl same ↦ rw (more, same) (h, hs)
    | inr other ↦
        let l : j < k = ground arith in
        rw (more, other) (All-insert_key j k js l h, insert_key-IsAscending k js hs)
  ]
]

pub sorted_keys-IsAscending : (ks : List ℕ) → IsAscending (sorted_keys ks)
unfolding sorted_keys
sorted_keys-IsAscending [] = tt
sorted_keys-IsAscending (k ∷ ks) =
    insert_key-IsAscending k (sorted_keys ks) (sorted_keys-IsAscending ks)

-- The ports of findings.
abbrev pub ports_of : List PortFinding → List ℕ
ports_of fs = map (λ f. f.port) fs

has-insert_finding :
    (p : ℕ) (f : PortFinding) (gs : List PortFinding)
    → has p (ports_of (insert_finding f gs)) ≡ (f.port == p || has p (ports_of gs))
unfolding has insert_finding
has-insert_finding p f [] = refl
has-insert_finding p f (g ∷ gs) = ground (arith, has-insert_finding p f gs)

has-sort_findings :
    (p : ℕ) (fs : List PortFinding) → has p (ports_of (sort_findings fs)) ≡ has p (ports_of fs)
unfolding has sort_findings
has-sort_findings p [] = refl
has-sort_findings p (f ∷ fs) =
    has-insert_finding p f (sort_findings fs) ∙ ap (λ b. f.port == p || b) (has-sort_findings p fs)

has-select_findings :
    (accepts : ℕ → Bool) (s : Option Stack) (p : ℕ) (ports : List ℕ)
    → has p (ports_of (select_findings accepts s ports)) ≡ (has p ports && accepts p)
unfolding has select_findings finding_of
has-select_findings accepts s p [] = refl
has-select_findings accepts s p (j ∷ ports) =
    let rest = has-select_findings accepts s p ports in
    elim (Bool-cases (j == p)) [
      | inl same ↦ let e = ap accepts ((==_iff j p).0 same) in ground (arith, rest, e)
      | inr other ↦ ground (arith, rest)
    ]

pub has-category :
    (accepts : ℕ → Bool) (s : Option Stack) (p : ℕ) (ports : List ℕ)
    → has p (ports_of (category accepts s ports)) ≡ (has p ports && accepts p)
unfolding category
has-category accepts s p ports =
    has-sort_findings p (select_findings accepts s ports) ∙ has-select_findings accepts s p ports
