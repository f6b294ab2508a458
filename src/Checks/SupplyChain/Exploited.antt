-- ===== src/Checks/SupplyChain/Exploited.antt =====
-- internal/checks/supplychain, with internal/correlate and internal/score: what an image with a
-- known-exploited CVE does to the rating.
use keelix.Prelude.{
  ◌≤◌, true, false, List, [], ◌∷◌, none, some, ◌≡◌, refl, sym, ap, subst, ◌∙◌, ◌≢◌, Mem, All,
  map-Mem,
}
use mathlib.Core.Option.{none-ne-some}
use keelix.Text
use keelix.Text.{
  Text, codes, text_eq, trim_space, trim_left, trim_right, is_space, itoa, atoi, lookup_text,
  max_int,
}
use keelix.Intel.Cves.{image_cves}
use keelix.Threatfeed.Record.{Table}
use keelix.Threatfeed.Cve.{parse_cve}
use keelix.Threatfeed.Lookup.{kev_listed, lookup}
use keelix.Model.Finding.{Finding, ExposureClass, can_cap_red, is_critical}
use keelix.Model.Stack.{Service, PortMapping, published_to_all_interfaces}
use keelix.Model.Scan.{ScanContext, ProbeResult}
use keelix.Catalog.{finding}
use keelix.Correlate.Classify.{classify_step, classify}
use keelix.Score.Grade.{red}
use keelix.Score.Risk.{cve_of}
use keelix.Score.V2.{compute_v2}
use keelix.Score.V2.Caps.{compute_v2-kev}
use keelix.Checks.{Formats, services_of}
use keelix.Checks.Laws.{over_services-Mem}
use keelix.Checks.SupplyChain.Reported.{
  sup003_severity, sup003_service-reports, cve_of-sup003, best_of-can_cap_red, classify_step-sup003,
}
use keelix.Checks.SupplyChain.Named.{most_exposed_host_port-some, most_exposed_host_port-public}
use keelix.Checks.SupplyChain.{sup003_finding, sup003_service, sup003, most_exposed_host_port}

no_cve : (t : Table) → kev_listed t [] ≡ false
unfolding kev_listed lookup parse_cve
no_cve none = refl
no_cve (some recs) = refl

kev_named : (t : Table) (cve : Text) → kev_listed t cve ≡ true → text_eq cve [] ≡ false
unfolding text_eq
kev_named t [] h = absurd (cc (no_cve t))
kev_named t (c ∷ cve) h = refl

no_image : image_cves [] ≡ none
unfolding image_cves text_eq Text.to_lower Text.index Text.last_index_byte Text.trim_prefix
no_image = refl

image_named :
    (image : Text) {cves : List Text} → image_cves image ≡ some cves → text_eq image [] ≡ false
unfolding text_eq image_cves
image_named [] h = absurd (none-ne-some _ (sym no_image ∙ h))
image_named (c ∷ image) h = refl

sup003_red_of :
    (fmt : Formats) (t : Table) (svc : Service) (worst : Text) (class : ExposureClass)
    (fs : List Finding)
    → Mem (record (sup003_finding fmt svc worst) { exposure_class = class }) fs
    → can_cap_red class ≡ true
    → kev_listed t worst ≡ true
    → (compute_v2 t fs).rating ≡ red
unfolding cve_of
sup003_red_of fmt t svc worst class fs at routable exploited =
    let f = record (sup003_finding fmt svc worst) { exposure_class = class } in
    let named : cve_of f ≡ worst = cve_of-sup003 fmt svc worst in
    compute_v2-kev t fs f at (ap (λ z. text_eq z []) named ∙ kev_named t worst exploited)
      (ap (kev_listed t) named ∙ exploited) routable
      (unfold sup003_finding finding in ap is_critical sup003_severity)
      (unfold sup003_finding in refl) (unfold sup003_finding finding in refl)

-- A service that runs an image with a CVE known to be exploited, and that publishes a host port
-- other than 0 to all interfaces, its ports in the range of an int, makes the rating of a scan with a
-- probe and without collector data RED, whatever the probe saw of the port and whatever else the scan
-- found; and the port that the finding is stamped with is one that the service publishes to all
-- interfaces, also where it binds others to the loopback interface.
pub sup003-red :
    (fmt : Formats) (t : Table) (ctx : ScanContext) {p : ProbeResult} {svc : Service}
    {pm : PortMapping} {cves : List Text} {cve : Text} (fs : List Finding)
    → ctx.probe ≡ some p
    → ctx.collector ≡ none
    → Mem svc (services_of ctx.stack)
    → Mem pm svc.ports
    → pm.host_port ≢ 0
    → published_to_all_interfaces pm ≡ true
    → All (λ (q : PortMapping). q.host_port ≤ max_int) svc.ports
    → image_cves svc.image ≡ some cves
    → Mem cve cves
    → kev_listed t cve ≡ true
    → ((f : Finding) → Mem f (sup003 fmt t ctx) → Mem f fs)
    → ((compute_v2 t (classify (some ctx) fs)).rating ≡ red)
      × ((q : PortMapping) × Mem q svc.ports
          × (published_to_all_interfaces q ≡ true)
          × (most_exposed_host_port svc ≡ some q.host_port))
unfolding classify sup003
sup003-red fmt t ctx {p = p} {svc} fs probed bare at listed used public within known kev_at kev
      all =
    let (port, e, is) = most_exposed_host_port-some svc listed used within in
    let (worst, exploited, reported) =
      sup003_service-reports fmt t svc (image_named svc.image known) known kev_at kev in
    let f = sup003_finding fmt svc worst in
    let found = all f (over_services-Mem _ _ (sup003_service fmt t) ctx at reported) in
    let same = classify_step-sup003 fmt svc worst ctx port bare e is in
    let kept =
      subst (λ z. Mem z (classify (some ctx) fs)) same
        (map-Mem (classify_step (some ctx)) fs found) in
    (
      sup003_red_of fmt t svc worst _ (classify (some ctx) fs) kept
          (best_of-can_cap_red ctx p port probed bare) exploited,
      most_exposed_host_port-public svc listed used public,
    )
