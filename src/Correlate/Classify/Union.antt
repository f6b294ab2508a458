-- ===== src/Correlate/Classify/Union.antt =====
-- The loop of classifyOne over the candidate ports.
use keelix.Prelude.{
  ℕ, ◌≤◌, ◌≡◌, refl, sym, ap, ◌∙◌, false, List, [], ◌∷◌, Option, arith, Bool-cases, inl, inr, ◌⊎◌,
  Mem, here, there, subst, ltb→lt, ltb-false→le,
}
use keelix.Model.Finding.{unknown, exposure_rank, more_exposed}
use keelix.Model.Scan.{ScanContext, is_reachable}
use keelix.Correlate.Classify.{
  probe_of, port_class, candidates, Best, best_loop, best_step, best_of, head_or,
}

-- The state stands for a port among those seen.
pub record StandsFor (ctx : Option ScanContext) (ps : List ℕ) (b : Best) : Type 0 where
  pub listed : Mem b.effective ps
  pub class : b.best ≡ port_class ctx b.effective
  pub probed : b.probe_open ≡ is_reachable (probe_of ctx) b.effective

module _ (ctx : Option ScanContext) where
  best_step_grows :
      (b : Best) (p : ℕ) → exposure_rank b.best ≤ exposure_rank (best_step ctx b p).best
  unfolding best_step
  best_step_grows b p = elim (Bool-cases (more_exposed (port_class ctx p) b.best)) [
    | inl more ↦ rw more (ground (arith, ltb→lt _ _ more))
    | inr less ↦ rw less (omega arith)
  ]

  best_step_bound :
      (b : Best) (p : ℕ) → exposure_rank (port_class ctx p) ≤ exposure_rank (best_step ctx b p).best
  unfolding best_step
  best_step_bound b p = elim (Bool-cases (more_exposed (port_class ctx p) b.best)) [
    | inl more ↦ rw more (omega arith)
    | inr less ↦ rw less (ltb-false→le _ _ less)
  ]

  best_loop_grows :
      (ps : List ℕ) (b : Best) → exposure_rank b.best ≤ exposure_rank (best_loop ctx b ps).best
  unfolding best_loop
  best_loop_grows [] b = omega arith
  best_loop_grows (p ∷ ps) b =
      omega (arith, best_step_grows b p, best_loop_grows ps (best_step ctx b p))

  best_loop_bound :
      {p : ℕ} {ps : List ℕ} (b : Best)
      → Mem p ps
      → exposure_rank (port_class ctx p) ≤ exposure_rank (best_loop ctx b ps).best
  unfolding best_loop
  best_loop_bound {p} b (here {xs = ps}) =
      omega (arith, best_step_bound b p, best_loop_grows ps (best_step ctx b p))
  best_loop_bound b (there {x} m) = best_loop_bound (best_step ctx b x) m

  StandsFor-there : {ps : List ℕ} {b : Best} (p : ℕ) → StandsFor ctx ps b → StandsFor ctx (p ∷ ps) b
  StandsFor-there p s = record { listed = there s.listed; class = s.class; probed = s.probed }

  best_step_cases :
      (b : Best) (p : ℕ) (ps : List ℕ)
      → (best_step ctx b p ≡ b) ⊎ StandsFor ctx (p ∷ ps) (best_step ctx b p)
  unfolding best_step
  best_step_cases b p ps = elim (Bool-cases (more_exposed (port_class ctx p) b.best)) [
    | inl more ↦ rw more (inr (record { listed = here; class = refl; probed = refl }))
    | inr less ↦ rw less (inl refl)
  ]

  best_loop_cases :
      (ps : List ℕ) (b : Best) → (best_loop ctx b ps ≡ b) ⊎ StandsFor ctx ps (best_loop ctx b ps)
  unfolding best_loop
  best_loop_cases [] b = inl refl
  best_loop_cases (p ∷ ps) b = elim (best_loop_cases ps (best_step ctx b p)) [
    | inr s ↦ inr (StandsFor-there p s)
    | inl kept ↦ elim (best_step_cases b p ps) [
      | inl same ↦ inl (kept ∙ same)
      | inr s ↦ inr (subst (StandsFor ctx (p ∷ ps)) (sym kept) s)
    ]
  ]

  -- The chosen class is at least that of every candidate port. It is unknown, or it is the class
  -- of a candidate, which is then the port, with its probe result, that the controls are given.
  pub best_of_max :
      (port : ℕ)
      → ((p : ℕ)
          → Mem p (candidates ctx port)
          → exposure_rank (port_class ctx p) ≤ exposure_rank (best_of ctx port).best)
        × (((best_of ctx port).best ≡ unknown)
            ⊎ StandsFor ctx (candidates ctx port) (best_of ctx port))
  unfolding best_of
  best_of_max port = (
    λ p m. best_loop_bound _ m,
    elim (best_loop_cases (candidates ctx port) (record {
      best = unknown;
      effective = head_or port (candidates ctx port);
      probe_open = false;
    })) [ inl kept ↦ inl (ap (λ (b : Best). b.best) kept) | inr s ↦ inr s ],
  )
