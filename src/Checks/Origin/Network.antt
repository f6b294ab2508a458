-- ===== src/Checks/Origin/Network.antt =====
-- internal/checks: the origin of the findings of the checks of ports, proxies, certificates and names.
use keelix.Prelude.{arith, List, [], ◌∷◌, none, some, refl, Option, not}
use keelix.Text.{Text, codes}
use keelix.Model.Finding.{Finding}
use keelix.Model.Stack.{Stack, FirewallConfig, ProxyConfig}
use keelix.Model.Signals.{ProcessFact}
use keelix.Model.Scan.{ScanContext, ProbeResult, CertInfo}
use keelix.Catalog.{finding, pass}
use keelix.Correlate.Ports.{stack_ports}
use keelix.Checks.{Formats}
use keelix.Checks.Origin.{
  IsFrom, AreFrom, if-AreFrom, option-AreFrom, either-AreFrom, report_if-AreFrom,
  no_collector-AreFrom, loop-AreFrom, with_services-AreFrom, over_services-AreFrom,
}
use keelix.Checks.Exposure.{
  exp001, exp001_probed, exp001_port, exp001_finding, exp002, exp002_probed, exp002_port,
  exp002_finding, exp003, exp003_port, exp003_finding,
}
use keelix.Checks.Firewall.{
  fw001, fw001_with, fw001_port, fw001_finding, fw002, fw002_port, fw002_finding, fw003,
  fw003_service, fw004, fw004_finding,
}
use keelix.Checks.Daemons.{fw005, fw005_finding, report_first, is_darwin}
use keelix.Checks.Kubelet.{
  fw006, fw006_processes, fw006_finding, kubelet_anon_auth, is_kubelet_process,
}
use keelix.Checks.Proxy.{
  over_routes, prx001, prx002, prx003, prx003_finding, prx004, prx005, prx006, prx006_finding,
}
use keelix.Checks.Certificates.{
  tls001, is_open_port, over_certificates, tls003, tls003_certificate, tls004, tls004_certificate,
  dns001, dns001_record, dns002, dns002_record,
}

certificates-AreFrom :
    (id detail : Text) (body : CertInfo → List Finding) (cs : List CertInfo)
    → ((c : CertInfo) → AreFrom id (body c))
    → AreFrom id (over_certificates id detail body cs)
unfolding over_certificates
certificates-AreFrom id detail body [] h = tt
certificates-AreFrom id detail body (c ∷ cs) h = loop-AreFrom id detail body (c ∷ cs) h

module _ (ctx : ScanContext) where
  exp001_probed-AreFrom : (o : Option ProbeResult) → AreFrom (codes "EXP001") (exp001_probed ctx o)
  unfolding exp001_probed exp001_port exp001_finding finding
  exp001_probed-AreFrom none = tt
  exp001_probed-AreFrom (some p) =
      loop-AreFrom (codes "EXP001") _ _ p.reachable λ q. report_if-AreFrom (codes "EXP001") _ _ refl

  pub exp001-AreFrom : AreFrom (codes "EXP001") (exp001 ctx)
  unfolding exp001
  exp001-AreFrom = exp001_probed-AreFrom ctx.probe

  exp002_probed-AreFrom : (o : Option ProbeResult) → AreFrom (codes "EXP002") (exp002_probed ctx o)
  unfolding exp002_probed exp002_port exp002_finding finding
  exp002_probed-AreFrom none = tt
  exp002_probed-AreFrom (some p) =
      loop-AreFrom (codes "EXP002") _ _ p.reachable λ q. report_if-AreFrom (codes "EXP002") _ _ refl

  pub exp002-AreFrom : AreFrom (codes "EXP002") (exp002 ctx)
  unfolding exp002
  exp002-AreFrom = exp002_probed-AreFrom ctx.probe

  pub exp003-AreFrom : (s : Stack) → AreFrom (codes "EXP003") (exp003 s ctx)
  unfolding exp003 exp003_port exp003_finding finding
  exp003-AreFrom s = option-AreFrom (codes "EXP003") ctx.probe [] _ tt λ p.
      loop-AreFrom (codes "EXP003") _ _ (stack_ports (some s))
        λ q. report_if-AreFrom (codes "EXP003") _ _ refl

  fw001_with-AreFrom :
      (s : Stack) (o : Option FirewallConfig) → AreFrom (codes "FW001") (fw001_with s ctx o)
  unfolding fw001_with fw001_port fw001_finding finding
  fw001_with-AreFrom s none = tt
  fw001_with-AreFrom s (some fw) =
      loop-AreFrom (codes "FW001") _ _ (stack_ports (some s))
        λ q. report_if-AreFrom (codes "FW001") _ _ refl

  pub fw001-AreFrom : (s : Stack) → AreFrom (codes "FW001") (fw001 s ctx)
  unfolding fw001
  fw001-AreFrom s = fw001_with-AreFrom s s.firewall

  pub fw002-AreFrom : AreFrom (codes "FW002") (fw002 ctx)
  unfolding fw002 fw002_port fw002_finding finding
  fw002-AreFrom = with_services-AreFrom (codes "FW002") _ ctx.stack (
      loop-AreFrom (codes "FW002") _ _ (stack_ports ctx.stack)
        λ q. report_if-AreFrom (codes "FW002") _ _ refl)

  pub fw003-AreFrom : AreFrom (codes "FW003") (fw003 ctx)
  unfolding fw003 fw003_service finding
  fw003-AreFrom =
      over_services-AreFrom (codes "FW003") _ _ ctx
        λ svc. report_if-AreFrom (codes "FW003") _ _ refl

  pub fw004-AreFrom : (s : Stack) → AreFrom (codes "FW004") (fw004 s ctx)
  unfolding fw004 fw004_finding pass finding
  fw004-AreFrom s = option-AreFrom (codes "FW004") s.firewall [] _ tt λ fw.
      if-AreFrom (codes "FW004") _ [] _ tt
        (either-AreFrom (codes "FW004") fw.has_docker_user_chain _ _ refl refl)

  report_first-AreFrom : (addrs : List Text) → AreFrom (codes "FW005") (report_first addrs)
  unfolding report_first fw005_finding pass finding
  report_first-AreFrom [] = (refl, tt)
  report_first-AreFrom (addr ∷ addrs) = (refl, tt)

  pub fw005-AreFrom : AreFrom (codes "FW005") (fw005 ctx)
  unfolding fw005
  fw005-AreFrom =
      option-AreFrom (codes "FW005") ctx.collector _ _ (no_collector-AreFrom (codes "FW005")) λ s.
        if-AreFrom (codes "FW005") (is_darwin s) _ (report_first _)
          (no_collector-AreFrom (codes "FW005")) (report_first-AreFrom _)

  fw006_processes-AreFrom : (ps : List ProcessFact) → AreFrom (codes "FW006") (fw006_processes ps)
  unfolding fw006_processes fw006_finding pass finding
  fw006_processes-AreFrom [] = (refl, tt)
  fw006_processes-AreFrom (p ∷ ps) =
      let rest = fw006_processes-AreFrom ps in
      if-AreFrom (codes "FW006") (not (is_kubelet_process p.comm)) (fw006_processes ps) _ rest (
        option-AreFrom (codes "FW006") (kubelet_anon_auth p.args) (fw006_processes ps) _ rest
          λ reason. (refl, tt))

  pub fw006-AreFrom : AreFrom (codes "FW006") (fw006 ctx)
  unfolding fw006
  fw006-AreFrom =
      option-AreFrom (codes "FW006") ctx.collector _ _ (no_collector-AreFrom (codes "FW006")) λ s.
        if-AreFrom (codes "FW006") (is_darwin s) _ _ (no_collector-AreFrom (codes "FW006"))
          (fw006_processes-AreFrom s.processes)

  pub prx001-AreFrom : (s : Stack) → AreFrom (codes "PRX001") (prx001 s ctx)
  unfolding prx001 over_routes finding
  prx001-AreFrom s = option-AreFrom (codes "PRX001") s.proxy [] _ tt λ p.
      loop-AreFrom (codes "PRX001") _ _ p.routes λ r. report_if-AreFrom (codes "PRX001") _ _ refl

  pub prx002-AreFrom : (s : Stack) → AreFrom (codes "PRX002") (prx002 s ctx)
  unfolding prx002 over_routes finding
  prx002-AreFrom s = option-AreFrom (codes "PRX002") s.proxy [] _ tt λ p.
      loop-AreFrom (codes "PRX002") _ _ p.routes λ r. report_if-AreFrom (codes "PRX002") _ _ refl

  pub prx004-AreFrom : (s : Stack) → AreFrom (codes "PRX004") (prx004 s ctx)
  unfolding prx004 over_routes finding
  prx004-AreFrom s = option-AreFrom (codes "PRX004") s.proxy [] _ tt λ p.
      loop-AreFrom (codes "PRX004") _ _ p.routes λ r. report_if-AreFrom (codes "PRX004") _ _ refl

  pub prx005-AreFrom : (s : Stack) → AreFrom (codes "PRX005") (prx005 s ctx)
  unfolding prx005 over_routes finding
  prx005-AreFrom s = option-AreFrom (codes "PRX005") s.proxy [] _ tt λ p.
      loop-AreFrom (codes "PRX005") _ _ p.routes λ r. report_if-AreFrom (codes "PRX005") _ _ refl

  prx003_finding-IsFrom : (p : ProxyConfig) → IsFrom (codes "PRX003") (prx003_finding p)
  unfolding prx003_finding finding
  prx003_finding-IsFrom p = ground arith

  pub prx003-AreFrom : (s : Stack) → AreFrom (codes "PRX003") (prx003 s ctx)
  unfolding prx003 pass finding
  prx003-AreFrom s = option-AreFrom (codes "PRX003") s.proxy [] _ tt λ p.
      either-AreFrom (codes "PRX003") (not p.dashboard_exposed) _ (prx003_finding p) refl
        (prx003_finding-IsFrom p)

  pub prx006-AreFrom : (s : Stack) → AreFrom (codes "PRX006") (prx006 s ctx)
  unfolding prx006 prx006_finding pass finding
  prx006-AreFrom s =
      option-AreFrom (codes "PRX006") s.proxy [] _ tt
        λ p. either-AreFrom (codes "PRX006") _ _ _ refl refl

  pub tls001-AreFrom : AreFrom (codes "TLS001") (tls001 ctx)
  unfolding tls001 pass finding
  tls001-AreFrom = option-AreFrom (codes "TLS001") ctx.probe [] _ tt λ p.
      if-AreFrom (codes "TLS001") (not (is_open_port p 80)) [] _ tt
        (either-AreFrom (codes "TLS001") (is_open_port p 443) _ _ refl refl)

  pub tls003-AreFrom : AreFrom (codes "TLS003") (tls003 ctx)
  unfolding tls003 tls003_certificate finding
  tls003-AreFrom = option-AreFrom (codes "TLS003") ctx.probe [] _ tt λ p.
      certificates-AreFrom (codes "TLS003") _ _ p.certificates
        λ c. report_if-AreFrom (codes "TLS003") _ _ refl

  pub tls004-AreFrom : AreFrom (codes "TLS004") (tls004 ctx)
  unfolding tls004 tls004_certificate finding
  tls004-AreFrom = option-AreFrom (codes "TLS004") ctx.probe [] _ tt λ p.
      certificates-AreFrom (codes "TLS004") _ _ p.certificates
        λ c. report_if-AreFrom (codes "TLS004") _ _ refl

  pub dns001-AreFrom : AreFrom (codes "DNS001") (dns001 ctx)
  unfolding dns001 dns001_record finding
  dns001-AreFrom = option-AreFrom (codes "DNS001") ctx.probe [] _ tt λ p.
      loop-AreFrom (codes "DNS001") _ _ p.dns_records
        λ r. report_if-AreFrom (codes "DNS001") _ _ refl

  pub dns002-AreFrom : (fmt : Formats) → AreFrom (codes "DNS002") (dns002 fmt ctx)
  unfolding dns002 dns002_record finding
  dns002-AreFrom fmt = option-AreFrom (codes "DNS002") ctx.probe [] _ tt λ p.
      loop-AreFrom (codes "DNS002") _ _ p.dns_records
        λ r. report_if-AreFrom (codes "DNS002") _ _ refl
