-- ===== src/Checks/SupplyChain/Reported.antt =====
-- internal/checks/supplychain, with internal/correlate: the finding on an image with a known-exploited
-- CVE, and its class.
use keelix.Prelude.{
  ℕ, ◌≤◌, ◌<◌, Bool, true, false, List, [], ◌∷◌, Option, none, some, ◌≡◌, refl, ap, subst, ◌∙◌, Mem,
  here, All, arith, select, select-Mem, select-All, get_or_else,
}
use keelix.Prelude.Sort.{sort-All, sort_cons}
use keelix.Text
use keelix.Text.{
  Text, codes, text_eq, trim_space, trim_left, trim_right, is_space, itoa, atoi, lookup_text,
  max_int,
}
use keelix.Text.Decimal.{atoi-itoa}
use keelix.Intel.Cves.{image_cves}
use keelix.Threatfeed.Record.{Table}
use keelix.Threatfeed.Lookup.{kev_listed}
use keelix.Model.Finding.{Finding, ExposureClass, exposure_rank, can_cap_red, critical}
use keelix.Model.Stack.{Service}
use keelix.Model.Scan.{ScanContext, ProbeResult}
use keelix.Catalog.{finding, get}
use keelix.Correlate.Ports.{finding_port, metadata_port, positive, host_ports_for}
use keelix.Correlate.Controls.{apply_controls, collapse, overlay_holds, firewall_holds, proxy_holds}
use keelix.Correlate.Classify.{
  stack_of, port_class, probed_class, socket_class, candidates, or_port, best_of, classify_port,
  classify_one, classify_step, is_skipped,
}
use keelix.Correlate.Classify.Union.{best_of_max}
use keelix.Model.Check.{group_supply_chain, domain_of, is_ai_mcp}
use keelix.Score.Risk.{cve_of}
use keelix.Checks.{Formats, entry_of}
use keelix.Checks.SupplyChain.Named.{IsPort, trim_space-itoa}
use keelix.Checks.SupplyChain.{
  most_exposed_host_port, ranks_before, stamped, sup003_finding, report_worst, sup003_cves,
  sup003_service,
}

-- What the catalog says of the check.
pub sup003_severity : (entry_of (codes "SUP003")).severity ≡ critical
unfolding entry_of get text_eq
sup003_severity = refl

sup003_group : (entry_of (codes "SUP003")).group ≡ group_supply_chain
unfolding entry_of get text_eq
sup003_group = refl

supply_chain_box : is_ai_mcp (domain_of group_supply_chain) ≡ false
unfolding domain_of text_eq
supply_chain_box = refl

finding_port-lookup :
    (f : Finding) (raw : Text) (n : ℕ)
    → Text.lookup (codes "port") f.metadata ≡ some raw
    → atoi (trim_space raw) ≡ some n
    → 0 < n
    → finding_port f ≡ some n
unfolding finding_port metadata_port positive
finding_port-lookup f raw n e a pos =
    let number : metadata_port (Text.lookup (codes "port") f.metadata) ≡ some n =
      ap metadata_port e ∙ ap positive a ∙ ground arith in
    rw (number, finding_port) refl

module _ (fmt : Formats) (t : Table) (svc : Service) where
  -- The check reports the service, with a CVE that is known to be exploited.
  pub sup003_service-reports :
      {cves : List Text} {cve : Text}
      → text_eq svc.image [] ≡ false
      → image_cves svc.image ≡ some cves
      → Mem cve cves
      → kev_listed t cve ≡ true
      → (worst : Text) × (kev_listed t worst ≡ true)
        × Mem (sup003_finding fmt svc worst) (sup003_service fmt t svc)
  unfolding sup003_service sup003_cves
  sup003_service-reports {cves} named known at kev =
      let kevs = select (kev_listed t) cves in
      let (worst, rest, sorted) =
        sort_cons (ranks_before t) kevs (select-Mem (kev_listed t) cves at kev) in
      let all =
        sort-All (ranks_before t) (λ c. kev_listed t c ≡ true) kevs
          (select-All (kev_listed t) cves) in
      let found = subst (All (λ c. kev_listed t c ≡ true)) sorted all in
      (worst, found.0, rw (named, known, sup003_cves, sorted, report_worst) here)

module _ (fmt : Formats) (svc : Service) where
  -- The port of the finding is the one that the check named.
  finding_port-sup003 :
      (worst : Text) (port : ℕ)
      → most_exposed_host_port svc ≡ some port
      → IsPort port
      → finding_port (sup003_finding fmt svc worst) ≡ some port
  unfolding sup003_finding Text.lookup stamped text_eq
  finding_port-sup003 worst port e (pos, le) =
      finding_port-lookup (sup003_finding fmt svc worst) (itoa port) port
        (ap (λ z. Text.lookup (codes "port") (stamped worst z)) e)
        (ap atoi (trim_space-itoa port) ∙ atoi-itoa port le) pos

  pub cve_of-sup003 : (worst : Text) → cve_of (sup003_finding fmt svc worst) ≡ worst
  unfolding cve_of sup003_finding lookup_text Text.lookup stamped text_eq
  cve_of-sup003 worst =
      elim (most_exposed_host_port svc)
        as (λ z. get_or_else (Text.lookup (codes "cve") (stamped worst z)) [] ≡ worst) [
          | none ↦ refl
          | some port ↦ refl
        ]

-- With a probe and no collector, a port is reachable or filtered.
probed_port :
    (ctx : ScanContext) (p : ProbeResult) (port : ℕ)
    → ctx.probe ≡ some p
    → ctx.collector ≡ none
    → 4 ≤ exposure_rank (port_class (some ctx) port)
unfolding port_class socket_class probed_class
probed_port ctx p port e c = rw (c, e, socket_class) (ground arith)

candidate : (ctx : Option ScanContext) (port : ℕ) → (q : ℕ) × Mem q (candidates ctx port)
unfolding candidates or_port
candidate ctx port =
    elim (host_ports_for (stack_of ctx) port) as (λ ps. (q : ℕ) × Mem q (or_port port ps)) [
      | [] ↦ (port, here)
      | p ∷ ps ↦ (p, here)
    ]

can_cap_red_of_rank : (c : ExposureClass) → 4 ≤ exposure_rank c → can_cap_red c ≡ true
unfolding can_cap_red
can_cap_red_of_rank c h = ground arith

-- Whatever the probe saw, the class of a finding on a port can then cap RED.
pub best_of-can_cap_red :
    (ctx : ScanContext) (p : ProbeResult) (port : ℕ)
    → ctx.probe ≡ some p
    → ctx.collector ≡ none
    → can_cap_red (best_of (some ctx) port).best ≡ true
best_of-can_cap_red ctx p port e c =
    let (q, at) = candidate (some ctx) port in
    can_cap_red_of_rank _
      (omega (arith, (best_of_max (some ctx) port).0 q at, probed_port ctx p q e c))

-- Without a collector and the mark of a proxy, no control applies.
apply_controls-none :
    (port : ℕ) (seen : Bool) (f : Finding)
    → proxy_holds f ≡ false
    → apply_controls none port seen f ≡ f
unfolding apply_controls collapse overlay_holds firewall_holds
apply_controls-none port seen f h = ground (arith, h)

classify_port-none :
    (ctx : ScanContext) (f : Finding) (port : ℕ)
    → ctx.collector ≡ none
    → proxy_holds f ≡ false
    → classify_port (some ctx) f (some port)
      ≡ record f { exposure_class = (best_of (some ctx) port).best }
unfolding classify_port proxy_holds
classify_port-none ctx f port c h =
    let b = best_of (some ctx) port in
    let g = record f { exposure_class = b.best } in
    ap (λ z. apply_controls z b.effective b.probe_open g) c
    ∙ apply_controls-none b.effective b.probe_open g h

module _ (fmt : Formats) (svc : Service) (worst : Text) where
  sup003_finding-kept :
      (port : ℕ)
      → most_exposed_host_port svc ≡ some port
      → proxy_holds (sup003_finding fmt svc worst) ≡ false
  unfolding proxy_holds sup003_finding lookup_text Text.lookup text_eq stamped
  sup003_finding-kept port e = rw (e) refl

  sup003_finding-is_skipped : is_skipped (sup003_finding fmt svc worst) ≡ false
  unfolding is_skipped sup003_finding finding
  sup003_finding-is_skipped = rw (sup003_severity, sup003_group, supply_chain_box) refl

  pub classify_step-sup003 :
      (ctx : ScanContext) (port : ℕ)
      → ctx.collector ≡ none
      → most_exposed_host_port svc ≡ some port
      → IsPort port
      → classify_step (some ctx) (sup003_finding fmt svc worst)
        ≡ record (sup003_finding fmt svc worst) { exposure_class = (best_of (some ctx) port).best }
  unfolding classify_step classify_one
  classify_step-sup003 ctx port c e is =
      let f = sup003_finding fmt svc worst in
      rw (sup003_finding-is_skipped) (
        ap (classify_port (some ctx) f) (finding_port-sup003 fmt svc worst port e is)
        ∙ classify_port-none ctx f port c (sup003_finding-kept port e))
