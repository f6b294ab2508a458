-- ===== src/Checks/Origin/Containers.antt =====
-- internal/checks: the origin of the findings of the checks of containers, secrets, logins and images.
use keelix.Prelude.{if◌then◌else◌, List, [], ◌∷◌, none, some, refl, Option, Bool, true, false}
use keelix.Text.{Text, codes, text_eq}
use keelix.Model.Finding.{Finding, critical}
use keelix.Model.Stack.{Service}
use keelix.Model.Scan.{ScanContext}
use keelix.Catalog.{finding, pass}
use keelix.Threatfeed.Record.{Table}
use keelix.Checks.{Formats, services_of}
use keelix.Intel.Capabilities.{dangerous_cap, Credential}
use keelix.Checks.Hardening.{
  hrd001, hrd001_service, hrd002, hrd002_finding, hrd002_cap, hrd002_reason, hrd003, hrd003_service,
  hrd004, hrd004_service, hrd005, hrd005_service, hrd006, hrd006_service, hrd007, hrd007_service,
  hrd008, hrd008_service, is_critical_cap,
}
use keelix.Checks.Secrets.{
  sec001, sec001_service, sec001_entry, sec001_finding, sec002, sec002_finding, sec003,
  sec003_service, sec003_entry, sec003_finding, sec004, sec004_service, sec004_finding,
}
use keelix.Checks.Access.{
  auth001, auth001_services, auth001_finding, auth002, auth002_service, auth002_finding,
  known_credentials, report_first, has_password_override,
}
use keelix.Checks.SupplyChain.{
  sup001, sup001_service, sup002, sup002_service, sup003, sup003_service, sup003_cves,
  sup003_finding, sup004, sup004_service, sup004_cves, sup004_finding, epss_loop, report_worst,
}
use keelix.Intel.Cves.{image_cves}
use keelix.Checks.Origin.{
  IsFrom, AreFrom, if-AreFrom, option-AreFrom, either-AreFrom, report_if-AreFrom, for_each-AreFrom,
  loop-AreFrom, with_services-AreFrom, over_services-AreFrom,
}

module _ (fmt : Formats) (ctx : ScanContext) where
  pub hrd001-AreFrom : AreFrom (codes "HRD001") (hrd001 fmt ctx)
  unfolding hrd001 hrd001_service finding
  hrd001-AreFrom =
      over_services-AreFrom (codes "HRD001") _ _ ctx
        λ svc. report_if-AreFrom (codes "HRD001") _ _ refl

  pub hrd003-AreFrom : AreFrom (codes "HRD003") (hrd003 fmt ctx)
  unfolding hrd003 hrd003_service finding
  hrd003-AreFrom =
      over_services-AreFrom (codes "HRD003") _ _ ctx
        λ svc. report_if-AreFrom (codes "HRD003") _ _ refl

  pub hrd004-AreFrom : AreFrom (codes "HRD004") (hrd004 fmt ctx)
  unfolding hrd004 hrd004_service finding
  hrd004-AreFrom =
      over_services-AreFrom (codes "HRD004") _ _ ctx
        λ svc. report_if-AreFrom (codes "HRD004") _ _ refl

  pub hrd005-AreFrom : AreFrom (codes "HRD005") (hrd005 fmt ctx)
  unfolding hrd005 hrd005_service finding
  hrd005-AreFrom =
      over_services-AreFrom (codes "HRD005") _ _ ctx
        λ svc. report_if-AreFrom (codes "HRD005") _ _ refl

  pub hrd006-AreFrom : AreFrom (codes "HRD006") (hrd006 fmt ctx)
  unfolding hrd006 hrd006_service finding
  hrd006-AreFrom =
      over_services-AreFrom (codes "HRD006") _ _ ctx
        λ svc. report_if-AreFrom (codes "HRD006") _ _ refl

  pub hrd007-AreFrom : AreFrom (codes "HRD007") (hrd007 fmt ctx)
  unfolding hrd007 hrd007_service finding
  hrd007-AreFrom =
      over_services-AreFrom (codes "HRD007") _ _ ctx
        λ svc. report_if-AreFrom (codes "HRD007") _ _ refl

  pub hrd008-AreFrom : AreFrom (codes "HRD008") (hrd008 fmt ctx)
  unfolding hrd008 hrd008_service finding
  hrd008-AreFrom =
      over_services-AreFrom (codes "HRD008") _ _ ctx
        λ svc. report_if-AreFrom (codes "HRD008") _ _ refl

  critical-IsFrom :
      (b : Bool) (f : Finding)
      → IsFrom (codes "HRD002") f
      → IsFrom (codes "HRD002") (if b then record f { severity = critical } else f)
  critical-IsFrom true f h = h
  critical-IsFrom false f h = h

  hrd002_reason-AreFrom :
      (svc : Service) (cap : Text) (o : Option Text)
      → AreFrom (codes "HRD002") (hrd002_reason fmt svc cap o)
  unfolding hrd002_reason hrd002_finding finding
  hrd002_reason-AreFrom svc cap none = tt
  hrd002_reason-AreFrom svc cap (some reason) = (critical-IsFrom (is_critical_cap cap) _ refl, tt)

  pub hrd002-AreFrom : AreFrom (codes "HRD002") (hrd002 fmt ctx)
  unfolding hrd002 hrd002_cap
  hrd002-AreFrom = over_services-AreFrom (codes "HRD002") _ _ ctx λ svc.
      for_each-AreFrom (codes "HRD002") _ (λ cap. hrd002_reason-AreFrom svc cap (dangerous_cap cap))
        svc.cap_add

  pub sec001-AreFrom : AreFrom (codes "SEC001") (sec001 ctx)
  unfolding sec001 sec001_service sec001_entry sec001_finding finding
  sec001-AreFrom = over_services-AreFrom (codes "SEC001") _ _ ctx λ svc.
      for_each-AreFrom (codes "SEC001") _ (λ e. report_if-AreFrom (codes "SEC001") _ _ refl)
        svc.environment

  pub sec002-AreFrom : AreFrom (codes "SEC002") (sec002 ctx)
  unfolding sec002 sec002_finding pass finding
  sec002-AreFrom = option-AreFrom (codes "SEC002") ctx.stack [] _ tt λ s.
      if-AreFrom (codes "SEC002") (text_eq s.env_path []) [] _ tt
        (either-AreFrom (codes "SEC002") s.env_committed _ _ refl refl)

  pub sec003-AreFrom : AreFrom (codes "SEC003") (sec003 ctx)
  unfolding sec003 sec003_service sec003_entry sec003_finding finding
  sec003-AreFrom = over_services-AreFrom (codes "SEC003") _ _ ctx λ svc.
      for_each-AreFrom (codes "SEC003") _ (λ e. report_if-AreFrom (codes "SEC003") _ _ refl)
        svc.environment

  pub sec004-AreFrom : AreFrom (codes "SEC004") (sec004 fmt ctx)
  unfolding sec004 sec004_service sec004_finding finding
  sec004-AreFrom =
      over_services-AreFrom (codes "SEC004") _ _ ctx
        λ svc. report_if-AreFrom (codes "SEC004") _ _ refl

  pub sup001-AreFrom : AreFrom (codes "SUP001") (sup001 fmt ctx)
  unfolding sup001 sup001_service finding
  sup001-AreFrom =
      over_services-AreFrom (codes "SUP001") _ _ ctx
        λ svc. report_if-AreFrom (codes "SUP001") _ _ refl

  pub sup002-AreFrom : (feed : List Text) → AreFrom (codes "SUP002") (sup002 fmt feed ctx)
  unfolding sup002 sup002_service finding
  sup002-AreFrom feed =
      over_services-AreFrom (codes "SUP002") _ _ ctx
        λ svc. report_if-AreFrom (codes "SUP002") _ _ refl

  pub auth001-AreFrom : AreFrom (codes "AUTH001") (auth001 fmt ctx)
  unfolding auth001 auth001_services auth001_finding finding
  auth001-AreFrom = with_services-AreFrom (codes "AUTH001") _ ctx.stack (
      loop-AreFrom (codes "AUTH001") _ _ (services_of ctx.stack)
        λ svc. report_if-AreFrom (codes "AUTH001") _ _ refl)

  report_first-AreFrom :
      (svc : Service) (o : Option (List Credential))
      → AreFrom (codes "AUTH002") (report_first fmt svc o)
  unfolding report_first auth002_finding finding
  report_first-AreFrom svc none = tt
  report_first-AreFrom svc (some []) = tt
  report_first-AreFrom svc (some (cred ∷ creds)) =
      if-AreFrom (codes "AUTH002") (has_password_override svc) []
        (auth002_finding fmt svc cred ∷ []) tt (refl, tt)

  pub auth002-AreFrom : AreFrom (codes "AUTH002") (auth002 fmt ctx)
  unfolding auth002 auth002_service
  auth002-AreFrom = with_services-AreFrom (codes "AUTH002") _ ctx.stack (
      loop-AreFrom (codes "AUTH002") _ _ (services_of ctx.stack)
        λ svc. report_first-AreFrom svc (known_credentials fmt svc))

  report_worst-AreFrom :
      (svc : Service) (kev : List Text) → AreFrom (codes "SUP003") (report_worst fmt svc kev)
  unfolding report_worst sup003_finding finding
  report_worst-AreFrom svc [] = tt
  report_worst-AreFrom svc (worst ∷ kev) = (refl, tt)

  sup003_cves-AreFrom :
      (t : Table) (svc : Service) (o : Option (List Text))
      → AreFrom (codes "SUP003") (sup003_cves fmt t svc o)
  unfolding sup003_cves
  sup003_cves-AreFrom t svc none = tt
  sup003_cves-AreFrom t svc (some cves) = report_worst-AreFrom svc _

  pub sup003-AreFrom : (t : Table) → AreFrom (codes "SUP003") (sup003 fmt t ctx)
  unfolding sup003 sup003_service
  sup003-AreFrom t = over_services-AreFrom (codes "SUP003") _ _ ctx λ svc.
      if-AreFrom (codes "SUP003") (text_eq svc.image []) [] _ tt
        (sup003_cves-AreFrom t svc (image_cves svc.image))

  sup004_cves-AreFrom :
      (t : Table) (svc : Service) (o : Option (List Text))
      → AreFrom (codes "SUP004") (sup004_cves fmt t svc o)
  unfolding sup004_cves sup004_finding finding
  sup004_cves-AreFrom t svc none = tt
  sup004_cves-AreFrom t svc (some cves) =
      let w = epss_loop t cves ([], 0) in
      if-AreFrom (codes "SUP004") (text_eq w.0 []) [] (sup004_finding fmt svc w ∷ []) tt (refl, tt)

  pub sup004-AreFrom : (t : Table) → AreFrom (codes "SUP004") (sup004 fmt t ctx)
  unfolding sup004 sup004_service
  sup004-AreFrom t = over_services-AreFrom (codes "SUP004") _ _ ctx λ svc.
      if-AreFrom (codes "SUP004") (text_eq svc.image []) [] _ tt
        (sup004_cves-AreFrom t svc (image_cves svc.image))
