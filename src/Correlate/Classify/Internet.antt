-- ===== src/Correlate/Classify/Internet.antt =====
-- When a finding is classified as reachable from the internet.
use keelix.Prelude.{
  ℕ, ◌≤◌, ◌≡◌, refl, sym, ap, ◌∙◌, Bool, true, false, Option, none, some, arith, if◌then◌else◌,
  Bool-cases, inl, inr, ◌⊎◌, Mem, any, min, ◌==◌,
}
use keelix.Model.Finding.{Finding, ExposureClass, unknown, internet, exposure_rank}
use keelix.Model.Signals.{Signals, socket_by_port}
use keelix.Model.Scan.{ScanContext, ProbeResult, is_reachable}
use keelix.Correlate.Binds.Max.{max_bind_class_rank}
use keelix.Correlate.Ports.{finding_port, declared_public}
use keelix.Correlate.Controls.{apply_controls, can_collapse}
use keelix.Correlate.Controls.Bands.{apply_controls-Collapsed, apply_controls_same}
use keelix.Correlate.Classify.{
  probe_of, collector_of, stack_of, intended_of, socket_found, declared_class, probed_class,
  socket_class, port_class, candidates, best_of, classify_port, classify_one,
}
use keelix.Correlate.Classify.Union.{best_of_max}

-- The evidence for a port: the probe found it open; or there was no probe and no socket on it, and
-- the stack publishes it to all interfaces without its being intended.
pub data IsConfirmed (ctx : Option ScanContext) (p : ℕ) : Type 0 where
  observed : is_reachable (probe_of ctx) p ≡ true → IsConfirmed ctx p
  declared :
      probe_of ctx ≡ none
      → socket_found (collector_of ctx) p ≡ false
      → declared_public (stack_of ctx) p ≡ true
      → any (λ q. q == p) (intended_of ctx) ≡ false
      → IsConfirmed ctx p

internet≢unknown : internet ≡ unknown → ⊥
internet≢unknown e = cc

internet_of_rank : (c : ExposureClass) → 5 ≤ exposure_rank c → c ≡ internet
internet_of_rank c h = ground arith

declared_class-internet :
    (ctx : Option ScanContext) (p : ℕ)
    → declared_class ctx p ≡ internet
    → (declared_public (stack_of ctx) p ≡ true) × (any (λ q. q == p) (intended_of ctx) ≡ false)
unfolding declared_class
declared_class-internet ctx p h = ground arith

no_socket : (p : ℕ) → socket_found none p ≡ false
unfolding socket_found socket_by_port
no_socket p = refl

module _ (ctx : Option ScanContext) (p : ℕ) where
  probed_class-internet :
      (o : Option ProbeResult)
      → probed_class ctx o p ≡ internet
      → (is_reachable o p ≡ true) ⊎ ((o ≡ none) × (declared_class ctx p ≡ internet))
  unfolding probed_class
  probed_class-internet none h = inr (refl, h)
  probed_class-internet (some r) h = inl (ground arith)

  probed_class-IsConfirmed :
      socket_found (collector_of ctx) p ≡ false
      → probed_class ctx (probe_of ctx) p ≡ internet
      → IsConfirmed ctx p
  probed_class-IsConfirmed unseen h = elim (probed_class-internet (probe_of ctx) h) [
    | inl seen ↦ observed seen
    | inr (e, d) ↦
        let (public, unintended) = declared_class-internet ctx p d in
        declared e unseen public unintended
  ]

  open_of_rank : (b : Bool) (n m : ℕ) → n ≡ min m (if b then 5 else 4) → n ≡ 5 → b ≡ true
  open_of_rank true n m e h = refl
  open_of_rank false n m e h = absurd (omega arith)

  socket_class-IsConfirmed :
      (o : Option Signals)
      → collector_of ctx ≡ o
      → socket_class ctx o p ≡ internet
      → IsConfirmed ctx p
  unfolding socket_class
  socket_class-IsConfirmed none e h =
      probed_class-IsConfirmed (ap (λ z. socket_found z p) e ∙ no_socket p) h
  socket_class-IsConfirmed (some s) e h = elim (Bool-cases (socket_found (some s) p)) [
    | inr unseen ↦ probed_class-IsConfirmed (ap (λ z. socket_found z p) e ∙ unseen) (ground arith)
    | inl seen ↦ observed (
        open_of_rank (is_reachable (probe_of ctx) p) _ _
          (max_bind_class_rank s.sockets p (is_reachable (probe_of ctx) p))
          (ap exposure_rank {y = internet} (ground arith)))
  ]

  pub port_class-IsConfirmed : port_class ctx p ≡ internet → IsConfirmed ctx p
  unfolding port_class
  port_class-IsConfirmed h = socket_class-IsConfirmed (collector_of ctx) refl h

-- Controls only lower a class.
apply_controls-internet :
    (collector : Option Signals) (port : ℕ) (probe_open : Bool) (f : Finding)
    → (apply_controls collector port probe_open f).exposure_class ≡ internet
    → f.exposure_class ≡ internet
apply_controls-internet collector port probe_open f h =
    elim (Bool-cases (can_collapse f.exposure_class)) [
      | inr kept ↦
          ap (λ (z : Finding). z.exposure_class)
            (sym (apply_controls_same collector port probe_open f kept))
          ∙ h
      | inl e ↦
          let c = apply_controls-Collapsed collector port probe_open f e in
          internet_of_rank f.exposure_class (
            omega (
              arith,
              c.lowered,
              ap exposure_rank (sym (ap (λ (z : Finding). z.exposure_class) c.same) ∙ h),
            ))
    ]

candidate_of :
    (ctx : Option ScanContext) (port : ℕ)
    → (best_of ctx port).best ≡ internet
    → (p : ℕ) × Mem p (candidates ctx port) × IsConfirmed ctx p
candidate_of ctx port h = elim (best_of_max ctx port).1 [
  | inl unseen ↦ absurd (internet≢unknown (sym h ∙ unseen))
  | inr s ↦ ((best_of ctx port).effective, s.listed, port_class-IsConfirmed ctx _ (sym s.class ∙ h))
]

-- A finding that the port classification leaves at the internet class has a port, and one of the
-- host ports that may stand for it was found open by the probe; or no probe ran, no socket was
-- seen on it, and the stack publishes it to all interfaces though it is not intended to be public.
pub classify_one-internet :
    (ctx : Option ScanContext) (f : Finding)
    → (classify_one ctx f).exposure_class ≡ internet
    → (port : ℕ) × (finding_port f ≡ some port)
      × ((p : ℕ) × Mem p (candidates ctx port) × IsConfirmed ctx p)
unfolding classify_one
classify_one-internet ctx f h = go (finding_port f) refl h
  where
    go :
        (o : Option ℕ)
        → finding_port f ≡ o
        → (classify_port ctx f o).exposure_class ≡ internet
        → (port : ℕ) × (finding_port f ≡ some port)
          × ((p : ℕ) × Mem p (candidates ctx port) × IsConfirmed ctx p)
    go none e k = absurd (ground arith)
    go (some port) e k = (port, e, candidate_of ctx port (apply_controls-internet _ _ _ _ k))
