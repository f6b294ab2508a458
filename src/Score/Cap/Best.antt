-- ===== src/Score/Cap/Best.antt =====
-- The drivers of computeCap, one at a time.
use keelix.Prelude.{
  ℕ, ◌≤◌, ◌≡◌, refl, sym, ap, ◌∙◌, Bool, true, false, List, [], ◌∷◌, none, some, arith, ltb, Mem,
  here, there, subst, ltb→lt, ltb-false→le, Bool-cases, inl, inr, ◌⊎◌,
}
use mathlib.Core.Bool.{true≢false}
use keelix.Model.Finding.{Finding}
use keelix.Threatfeed.Record.{Table}
use keelix.Score.Risk.{risk}
use keelix.Score.Cap.{
  Driver, Drivers, no_driver, consider, find_drivers, caps_network, caps_autonomy, caps_yellow,
}

-- The loop, for one of the conditions.
pub best_from : (Finding → Bool) → Table → Driver → List Finding → Driver
best_from caps t d [] = d
best_from caps t d (f ∷ fs) = best_from caps t (consider caps t d f) fs

abbrev pub best : (Finding → Bool) → Table → List Finding → Driver
best caps t fs = best_from caps t no_driver fs

pub find_drivers_split :
    (t : Table) (fs : List Finding) (ds : Drivers)
    → find_drivers t ds fs ≡ record {
      network = best_from caps_network t ds.network fs;
      autonomy = best_from caps_autonomy t ds.autonomy fs;
      yellow = best_from caps_yellow t ds.yellow fs;
    }
unfolding find_drivers best_from
find_drivers_split t [] ds = refl
find_drivers_split t (f ∷ fs) ds = find_drivers_split t fs _

-- What a driver says of the findings seen so far.
pub data IsBest (caps : Finding → Bool) (t : Table) (seen : Finding → Type 0)
    : Driver → Type 0 where
  nobody :
      (r : ℕ)
      → ((g : Finding) → seen g → caps g ≡ false)
      → IsBest caps t seen (record { finding = none; risk = r })
  somebody :
      (f : Finding)
      → seen f
      → caps f ≡ true
      → ((g : Finding) → seen g → caps g ≡ true → risk t g ≤ risk t f)
      → IsBest caps t seen (record { finding = some f; risk = risk t f })

module _ (caps : Finding → Bool) (t : Table) where
  IsBest-map :
      {p q : Finding → Type 0} {d : Driver}
      → ((g : Finding) → p g → q g)
      → ((g : Finding) → q g → p g)
      → IsBest caps t p d
      → IsBest caps t q d
  IsBest-map to from (nobody r h) = nobody r (λ g m. h g (from g m))
  IsBest-map to from (somebody f m e h) = somebody f (to f m) e (λ g k. h g (from g k))

  abbrev Also : (Finding → Type 0) → Finding → Finding → Type 0
  Also seen f g = seen g ⊎ (g ≡ f)

  off-Also :
      (seen : Finding → Type 0) (f : Finding)
      → caps f ≡ false
      → ((g : Finding) → seen g → caps g ≡ false)
      → (g : Finding) → Also seen f g
      → caps g ≡ false
  off-Also seen f off h g (inl m) = h g m
  off-Also seen f off h g (inr e) = ap caps e ∙ off

  bound-Also :
      (seen : Finding → Type 0) (f : Finding) (n : ℕ)
      → (caps f ≡ true → risk t f ≤ n)
      → ((g : Finding) → seen g → caps g ≡ true → risk t g ≤ n)
      → (g : Finding) → Also seen f g
      → caps g ≡ true
      → risk t g ≤ n
  bound-Also seen f n own h g (inl m) on = h g m on
  bound-Also seen f n own h g (inr e) on = rw (ap (risk t) e) (own (ap caps (sym e) ∙ on))

  consider-IsBest :
      (seen : Finding → Type 0) (f : Finding) {d : Driver}
      → IsBest caps t seen d
      → IsBest caps t (Also seen f) (consider caps t d f)
  unfolding consider
  consider-IsBest seen f (nobody r h) = elim (Bool-cases (caps f)) [
    | inl on ↦ rw on (
        somebody f (inr refl) on (
          bound-Also seen f (risk t f) (λ _. omega arith)
            λ g m k. absurd (true≢false (sym k ∙ h g m))))
    | inr off ↦ rw off (nobody r (off-Also seen f off h))
  ]
  consider-IsBest seen f (somebody b m e h) = elim (Bool-cases (caps f)) [
    | inr off ↦ rw off (
        somebody b (inl m) e
          (bound-Also seen f (risk t b) (λ on. absurd (true≢false (sym on ∙ off))) h))
    | inl on ↦ elim (Bool-cases (ltb (risk t b) (risk t f))) [
      | inl more ↦
          rw (on, more)
            (somebody f (inr refl) on (
              bound-Also seen f (risk t f) (λ _. omega arith)
                λ g k x. omega (arith, h g k x, ltb→lt (risk t b) (risk t f) more)))
      | inr less ↦
          rw (on, less)
            (somebody b (inl m) e
              (bound-Also seen f (risk t b) (λ _. ltb-false→le (risk t b) (risk t f) less) h))
    ]
  ]

  later :
      (seen : Finding → Type 0) (f : Finding) (fs : List Finding) (g : Finding)
      → Also seen f g ⊎ Mem g fs
      → seen g ⊎ Mem g (f ∷ fs)
  later seen f fs g (inl (inl m)) = inl m
  later seen f fs g (inl (inr e)) = inr (subst (λ x. Mem x (f ∷ fs)) (sym e) here)
  later seen f fs g (inr m) = inr (there m)

  sooner :
      (seen : Finding → Type 0) (f : Finding) (fs : List Finding) (g : Finding)
      → seen g ⊎ Mem g (f ∷ fs)
      → Also seen f g ⊎ Mem g fs
  sooner seen f fs g (inl m) = inl (inl m)
  sooner seen f fs g (inr here) = inl (inr refl)
  sooner seen f fs g (inr (there m)) = inr m

  best_from-IsBest :
      (fs : List Finding) (seen : Finding → Type 0) (d : Driver)
      → IsBest caps t seen d
      → IsBest caps t (λ g. seen g ⊎ Mem g fs) (best_from caps t d fs)
  unfolding best_from
  best_from-IsBest [] seen d b =
      IsBest-map (λ g m. inl m) (λ g. elim [ inl m ↦ m | inr k ↦ elim k [ ] ]) b
  best_from-IsBest (f ∷ fs) seen d b =
      IsBest-map (later seen f fs) (sooner seen f fs)
        (best_from-IsBest fs (Also seen f) (consider caps t d f) (consider-IsBest seen f b))

  pub best-IsBest : (fs : List Finding) → IsBest caps t (λ g. Mem g fs) (best caps t fs)
  best-IsBest fs =
      IsBest-map (λ g. elim [ inl h ↦ elim h [ ] | inr m ↦ m ]) (λ g m. inr m)
        (best_from-IsBest fs (λ _. ⊥) no_driver (nobody 0 (λ g h. elim h [ ])))
