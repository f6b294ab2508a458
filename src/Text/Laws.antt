-- ===== src/Text/Laws.antt =====
-- Laws of the string operations.
use keelix.Prelude.{
  drop, length, All, ℕ, none, false, ◌≢◌, ◌≡◌, refl, ◌↔◌, true, [], ◌∷◌, ◌++◌, arith,
}
use keelix.Text.{Text, text_lt, text_eq, has_prefix, index, contains}

text_eq→eq : (s t : Text) → text_eq s t ≡ true → s ≡ t
unfolding text_eq
text_eq→eq [] [] h = refl
text_eq→eq [] (d ∷ t) h = absurd (ground arith)
text_eq→eq (c ∷ s) [] h = absurd (ground arith)
text_eq→eq (c ∷ s) (d ∷ t) h = ground (arith, text_eq→eq s t)

pub text_eq_refl : (s : Text) → text_eq s s ≡ true
unfolding text_eq
text_eq_refl [] = refl
text_eq_refl (c ∷ s) = ground (arith, text_eq_refl s)

-- The test decides equality.
pub text_eq_iff : (s t : Text) → (text_eq s t ≡ true) ↔ (s ≡ t)
text_eq_iff s t = (text_eq→eq s t, λ e. rw e (text_eq_refl t))

pub has_prefix-append : (p s : Text) → has_prefix (p ++ s) p ≡ true
unfolding has_prefix
has_prefix-append [] [] = refl
has_prefix-append [] _ = refl
has_prefix-append (c ∷ p) s = ground (arith, has_prefix-append p s)

-- A text that lacks the first byte of the needle does not contain it.
pub index_absent : (s p : Text) (d : ℕ) → All (λ c. c ≢ d) s → index s (d ∷ p) ≡ none
unfolding index has_prefix
index_absent [] p d h = refl
index_absent (c ∷ s) p d h = ground (arith, index_absent s p d h.1)

has_prefix_refl : (s : Text) → has_prefix s s ≡ true
unfolding has_prefix
has_prefix_refl [] = refl
has_prefix_refl (c ∷ s) = ground (arith, has_prefix_refl s)

pub contains-append-cons : (c : ℕ) (s p : Text) → contains s p ≡ true → contains (c ∷ s) p ≡ true
unfolding contains index
contains-append-cons c s p h = ground (arith, h)

-- A text that ends in the needle contains it.
pub contains-append : (s p : Text) → contains (s ++ p) p ≡ true
unfolding contains index
contains-append [] [] = refl
contains-append [] (c ∷ p) = ground (arith, has_prefix_refl (c ∷ p))
contains-append (c ∷ s) p = ground (arith, contains-append s p)

pub drop-append : (p s : Text) → drop (length p) (p ++ s) ≡ s
drop-append [] s = refl
drop-append (c ∷ p) s = drop-append p s

-- The order of texts is a strict weak order.
pub text_lt_asym : (s t : Text) → text_lt s t ≡ true → text_lt t s ≡ false
unfolding text_lt
text_lt_asym s [] h = absurd (ground (arith, h))
text_lt_asym [] (d ∷ t) h = refl
text_lt_asym (c ∷ s) (d ∷ t) h = ground (arith, text_lt_asym s t)

pub text_lt_trans : (s t u : Text) → text_lt t s ≡ false → text_lt u t ≡ false → text_lt u s ≡ false
unfolding text_lt
text_lt_trans [] t u h k = refl
text_lt_trans (c ∷ s) [] u h k = absurd (ground (arith, h))
text_lt_trans (c ∷ s) (d ∷ t) [] h k = absurd (ground (arith, k))
text_lt_trans (c ∷ s) (d ∷ t) (e ∷ u) h k = ground (arith, text_lt_trans s t u)

pub text_lt_irrefl : (s : Text) → text_lt s s ≡ false
unfolding text_lt
text_lt_irrefl [] = refl
text_lt_irrefl (c ∷ s) = ground (arith, text_lt_irrefl s)
