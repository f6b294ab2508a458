-- ===== src/Checks/Exposure/Covers.antt =====
-- internal/checks/exposure: which open ports the checks of the probe report.
use keelix.Prelude.{
  ℕ, Bool, true, false, not, ◌&&◌, ◌||◌, ◌++◌, some, ◌≡◌, refl, sym, ap, ◌∙◌, subst, ◌↔◌, inl, inr,
  Mem, arith, ◌==◌, Bool-cases, Mem-append_left, Mem-append_right, Mem-append_cases, drop,
}
use keelix.Text.{codes, itoa}
use keelix.Text.Laws.{drop-append}
use keelix.Text.Decimal.{itoa-injective}
use keelix.Intel.Ports.{is_sensitive_port}
use keelix.Model.Finding.{Finding}
use keelix.Model.Scan.{ScanContext, ProbeResult, PortProbe}
use keelix.Catalog.{finding}
use keelix.Checks.Laws.{report_iff}
use keelix.Checks.Exposure.{
  port_resource, is_intended, declared_public_host_port, exp001, exp001_probed, exp001_port,
  exp001_finding, exp002, exp002_probed, exp002_port, exp002_finding, exp002_skips,
}

-- A finding of the two checks that does not pass and names the port.
abbrev pub Reported : ScanContext → ℕ → Type 0
Reported ctx port =
    (f : Finding) × Mem f (exp001 ctx ++ exp002 ctx)
    × (f.passed ≡ false)
    × (f.resource ≡ port_resource port)

-- What is to be reported of an open port.
abbrev pub is_exposed : ScanContext → ℕ → Bool
is_exposed ctx port =
    not (is_intended ctx port)
    && (is_sensitive_port port
        || not (declared_public_host_port ctx.stack port || port == 80 || port == 443))

port_resource-injective : (m n : ℕ) → port_resource m ≡ port_resource n → m ≡ n
port_resource-injective m n e = itoa-injective m n (
    sym (drop-append (codes "port ") (itoa m))
    ∙ ap (drop 5) e
    ∙ drop-append (codes "port ") (itoa n))

exp001_test : ScanContext → ℕ × PortProbe → Bool
exp001_test ctx (port, pp) = pp.is_open && (is_sensitive_port port && not (is_intended ctx port))

exp002_test : ScanContext → ℕ × PortProbe → Bool
exp002_test ctx (port, pp) = pp.is_open && not (exp002_skips ctx port)

module _ (ctx : ScanContext) (p : ProbeResult) (probed : ctx.probe ≡ some p) where
  -- What the first check reports, it reports of a port of the probe that meets its conditions.
  exp001_iff :
      (f : Finding)
      → (Mem f (exp001 ctx) × (f.passed ≡ false)) ↔ (
          (q : ℕ × PortProbe) × Mem q p.reachable
          × (exp001_test ctx q ≡ true)
          × (f ≡ exp001_finding ctx p q.0))
  unfolding exp001 exp001_port exp001_finding exp001_test finding
  exp001_iff f =
      subst
        (λ fs. (Mem f fs × (f.passed ≡ false)) ↔ (
          (q : ℕ × PortProbe) × Mem q p.reachable
          × (exp001_test ctx q ≡ true)
          × (f ≡ exp001_finding ctx p q.0)))
        (sym (ap (exp001_probed ctx) probed))
        (report_iff _ _ (exp001_test ctx) (λ q. exp001_finding ctx p q.0) (λ q. refl) p.reachable f)

  exp002_iff :
      (f : Finding)
      → (Mem f (exp002 ctx) × (f.passed ≡ false)) ↔ (
          (q : ℕ × PortProbe) × Mem q p.reachable
          × (exp002_test ctx q ≡ true)
          × (f ≡ exp002_finding p q.0))
  unfolding exp002 exp002_port exp002_finding exp002_test finding
  exp002_iff f =
      subst
        (λ fs. (Mem f fs × (f.passed ≡ false)) ↔ (
          (q : ℕ × PortProbe) × Mem q p.reachable
          × (exp002_test ctx q ≡ true)
          × (f ≡ exp002_finding p q.0)))
        (sym (ap (exp002_probed ctx) probed))
        (report_iff _ _ (exp002_test ctx) (λ q. exp002_finding p q.0) (λ q. refl) p.reachable f)

  names_001 : (port : ℕ) → (exp001_finding ctx p port).resource ≡ port_resource port
  unfolding exp001_finding
  names_001 port = refl

  names_002 : (port : ℕ) → (exp002_finding p port).resource ≡ port_resource port
  unfolding exp002_finding
  names_002 port = refl

  -- The port of a finding is the one that its resource names.
  port_of_resource :
      {f g : Finding} {m n : ℕ}
      → f ≡ g
      → g.resource ≡ port_resource m
      → f.resource ≡ port_resource n
      → m ≡ n
  port_of_resource {m = m} {n} e named r =
      port_resource-injective m n (sym named ∙ sym (ap (λ (z : Finding). z.resource) e) ∙ r)

  -- An open port is reported, by the check of sensitive ports or by that of undeclared ones, exactly
  -- if it is not intended, and is sensitive or neither declared nor one of 80 and 443.
  pub exposed_iff :
      (port : ℕ) (pp : PortProbe)
      → Mem (port, pp) p.reachable
      → pp.is_open ≡ true
      → Reported ctx port ↔ (is_exposed ctx port ≡ true)
  exposed_iff port pp at seen = (
    λ (f, m, h, r). elim (Mem-append_cases (exp001 ctx) (exp002 ctx) m) [
      | inl l ↦
          let (q, in_probe, test, e) = (exp001_iff f).0 (l, h) in
          subst (λ n. is_exposed ctx n ≡ true) (port_of_resource e (names_001 q.0) r)
            (unfold exp001_test in ground arith)
      | inr l ↦
          let (q, in_probe, test, e) = (exp002_iff f).0 (l, h) in
          subst (λ n. is_exposed ctx n ≡ true) (port_of_resource e (names_002 q.0) r)
            (unfold exp002_test exp002_skips in ground arith)
    ],
    λ exposed. elim (Bool-cases (is_sensitive_port port)) [
      | inl sensitive ↦
          let (m, h) =
            (exp001_iff (exp001_finding ctx p port)).1
              ((port, pp), at, (unfold exp001_test in ground arith), refl) in
          (_, Mem-append_left (exp001 ctx) (exp002 ctx) m, h, names_001 port)
      | inr plain ↦
          let (m, h) =
            (exp002_iff (exp002_finding p port)).1
              ((port, pp), at, (unfold exp002_test exp002_skips in ground arith), refl) in
          (_, Mem-append_right (exp001 ctx) (exp002 ctx) m, h, names_002 port)
    ],
  )
