-- ===== src/Redact/Masks.antt =====
-- Replacing adds no occurrence of a text that the marker is clear of.
use keelix.Prelude.{
  ℕ, zero, suc, ◌≡◌, ◌≢◌, refl, ◌∙◌, sym, ap, ◌⊎◌, inl, inr, true, false, [], ◌∷◌, ◌++◌, some, All,
  Bool-cases, Option-cases, length, arith,
}
use mathlib.Core.List.{append_assoc}
use keelix.Text.{Text, codes, has_prefix, contains, index}
use keelix.Redact.{marker, Hit, hide, keep, Matcher, replace, replace_all}

-- No byte of the text is a bracket, and it does not occur in the word between them.
unfoldable pub IsClean : Text → Type 0
IsClean k = All (λ c. (c ≢ b'[') × (c ≢ b']')) k × (contains (codes "REDACTED") k ≡ false)

has_prefix_stop :
    (x r k : Text) (d : ℕ)
    → All (λ c. c ≢ d) k
    → has_prefix (x ++ d ∷ r) k ≡ true
    → has_prefix x k ≡ true
unfolding has_prefix
has_prefix_stop [] r [] d h e = refl
has_prefix_stop [] r (c ∷ k) d h e = absurd (ground (arith, e, h.0))
has_prefix_stop (b ∷ x) r [] d h e = refl
has_prefix_stop (b ∷ x) r (c ∷ k) d h e = ground (arith, e, has_prefix_stop x r k d h.1)

pub contains-cons :
    (c : ℕ) (s k : Text)
    → contains (c ∷ s) k ≡ true
    → (has_prefix (c ∷ s) k ≡ true) ⊎ (contains s k ≡ true)
unfolding contains index
contains-cons c s k e = ground (arith, e)

contains_here : (s k : Text) → has_prefix s k ≡ true → contains s k ≡ true
unfolding contains index
contains_here [] k e = ground (arith, e)
contains_here (c ∷ s) k e = ground (arith, e)

contains_later : (c : ℕ) (s k : Text) → contains s k ≡ true → contains (c ∷ s) k ≡ true
unfolding contains index
contains_later c s k e = ground (arith, e)

-- An occurrence does not cross a byte that it does not have.
contains_stop :
    (x r k : Text) (d : ℕ)
    → All (λ c. c ≢ d) k
    → contains (x ++ d ∷ r) k ≡ true
    → (contains x k ≡ true) ⊎ (contains r k ≡ true)
contains_stop [] r k d h e = elim (contains-cons d r k e) [
  | inl at ↦ inl (contains_here [] k (has_prefix_stop [] r k d h at))
  | inr below ↦ inr below
]
contains_stop (c ∷ x) r k d h e = elim (contains-cons c (x ++ d ∷ r) k e) [
  | inl at ↦ inl (contains_here (c ∷ x) k (has_prefix_stop (c ∷ x) r k d h at))
  | inr below ↦ elim (contains_stop x r k d h below) [
    | inl left ↦ inl (contains_later c x k left)
    | inr right ↦ inr right
  ]
]

has_prefix_longer : (x r k : Text) → has_prefix x k ≡ true → has_prefix (x ++ r) k ≡ true
unfolding has_prefix
has_prefix_longer [] [] [] e = refl
has_prefix_longer [] (b ∷ r) [] e = refl
has_prefix_longer [] r (c ∷ k) e = absurd (ground (arith, e))
has_prefix_longer (b ∷ x) r [] e = refl
has_prefix_longer (b ∷ x) r (c ∷ k) e = ground (arith, e, has_prefix_longer x r k)

contains_append_left : (x r k : Text) → contains x k ≡ true → contains (x ++ r) k ≡ true
unfolding contains index
contains_append_left [] r k e = contains_here r k (has_prefix_longer [] r k (ground (arith, e)))
contains_append_left (c ∷ x) r k e = elim (contains-cons c x k e) [
  | inl at ↦ contains_here (c ∷ x ++ r) k (has_prefix_longer (c ∷ x) r k at)
  | inr below ↦ contains_later c (x ++ r) k (contains_append_left x r k below)
]

contains_append_right : (x r k : Text) → contains r k ≡ true → contains (x ++ r) k ≡ true
contains_append_right [] r k e = e
contains_append_right (c ∷ x) r k e = contains_later c (x ++ r) k (contains_append_right x r k e)

pub All-map : (P Q : ℕ → Type 0) (k : Text) → ((c : ℕ) → P c → Q c) → All P k → All Q k
All-map P Q [] f h = tt
All-map P Q (c ∷ k) f (h, hs) = (f c h, All-map P Q k f hs)

-- An occurrence of a clean text beside a marker is on one side of it.
pub contains-marker :
    (x y k : Text)
    → IsClean k
    → contains (x ++ (marker ++ y)) k ≡ true
    → (contains x k ≡ true) ⊎ (contains y k ≡ true)
unfolding IsClean
contains-marker x y k (h, word) e =
    elim (contains_stop x (codes "REDACTED]" ++ y) k b'[' (All-map _ _ k (λ c. λ p. p.0) h) e) [
      | inl left ↦ inl left
      | inr right ↦
          elim (contains_stop (codes "REDACTED") y k b']' (All-map _ _ k (λ c. λ p. p.1) h) right) [
            | inl inside ↦ absurd (ground (arith, inside, word))
            | inr after ↦ inr after
          ]
    ]

-- What a matcher finds is a part of the text.
unfoldable pub IsSplit : Text → Hit → Type 0
IsSplit s (hide before rest) = (secret : Text) × (s ≡ before ++ (secret ++ rest))
IsSplit s (keep text rest) = s ≡ text ++ rest

abbrev pub IsFaithful : Matcher → Type 0
IsFaithful m = (s : Text) (h : Hit) → m s ≡ some h → IsSplit s h

module _ (m : Matcher) (faithful : IsFaithful m) (k : Text) (clean : IsClean k) where
  Has : Text → Type 0
  Has s = contains s k ≡ true

  Has-along : (s t : Text) → s ≡ t → Has s → Has t
  unfolding Has
  Has-along s t e h = sym (ap (λ x. contains x k) e) ∙ h

  adds_none : (f : ℕ) (u s : Text) → Has (u ++ replace m f s) → Has (u ++ s)
  unfolding replace Has IsSplit
  adds_none zero u s e = e
  adds_none (suc f) u [] e = e
  adds_none (suc f) u (c ∷ s) e = elim (Option-cases (m (c ∷ s))) [
    | inl miss ↦
        let step : replace m (suc f) (c ∷ s) ≡ c ∷ replace m f s = rw (replace, miss) refl in
        let moved =
          Has-along _ _ (ap (◌++◌ u) step ∙ sym (append_assoc u (c ∷ []) (replace m f s))) e in
        Has-along _ _ (append_assoc u (c ∷ []) s) (adds_none f (u ++ (c ∷ [])) s moved)
    | inr (hide before rest, hit) ↦
        let step : replace m (suc f) (c ∷ s) ≡ before ++ marker ++ replace m f rest =
          rw (replace, hit) refl in
        let (secret, whole) = faithful (c ∷ s) (hide before rest) hit in
        let tail = secret ++ rest in
        let back = sym (ap (◌++◌ u) whole ∙ sym (append_assoc u before tail)) in
        let parted =
          Has-along _ _
            (ap (◌++◌ u) (step ∙ append_assoc before marker (replace m f rest))
              ∙ sym (append_assoc u before (marker ++ replace m f rest)))
            e in
        elim (contains-marker (u ++ before) (replace m f rest) k clean parted) [
          | inl left ↦ Has-along _ _ back (contains_append_left (u ++ before) tail k left)
          | inr right ↦ Has-along _ _ back (
              contains_append_right (u ++ before) tail k
                (contains_append_right secret rest k (adds_none f [] rest right)))
        ]
    | inr (keep text rest, hit) ↦
        let step : replace m (suc f) (c ∷ s) ≡ text ++ replace m f rest = rw (replace, hit) refl in
        let whole = faithful (c ∷ s) (keep text rest) hit in
        let moved =
          Has-along _ _ (ap (◌++◌ u) step ∙ sym (append_assoc u text (replace m f rest))) e in
        Has-along _ _ (append_assoc u text rest ∙ sym (ap (◌++◌ u) whole))
          (adds_none f (u ++ text) rest moved)
  ]

  -- What a replacement leaves contains a clean text only if the original did.
  pub replace_all_masks : (s : Text) → contains s k ≡ false → contains (replace_all m s) k ≡ false
  unfolding replace_all Has
  replace_all_masks s h = elim (Bool-cases (contains (replace m (length s) s) k)) [
    | inl has ↦ absurd (ground (arith, h, adds_none (length s) [] s has))
    | inr none_left ↦ none_left
  ]
