-- ===== src/Catalog/Types.antt =====
-- internal/catalog/catalog.go: the entries of the catalog and the references that they share.
use keelix.Prelude.{ℕ, Bool, false, List}
use keelix.Text.{Text, codes}
use keelix.Model.Finding.{Severity, ControlRef}
use keelix.Model.Check.{CheckGroup}

-- The type Entry; `base_impact` is in tenths.
pub record Entry : Type 0 where
  pub id : Text
  pub group : CheckGroup
  pub title : Text
  pub severity : Severity
  pub rationale : Text
  pub controls : List ControlRef
  pub base_impact : ℕ
  pub fatal : Bool

-- An entry as it is written in the list, where no entry sets `fatal`.
abbrev pub entry : Text → CheckGroup → Text → Severity → Text → List ControlRef → ℕ → Entry
entry id group title severity rationale controls base_impact = record {
  id = id;
  group = group;
  title = title;
  severity = severity;
  rationale = rationale;
  controls = controls;
  base_impact = base_impact;
  fatal = false;
}

abbrev pub soc2 : Text → Text → ControlRef
soc2 id title = record { framework = codes "SOC2"; id = id; title = title }

abbrev pub iso : Text → Text → ControlRef
iso id title = record { framework = codes "ISO27001"; id = id; title = title }

abbrev pub cis : Text → Text → ControlRef
cis id title = record { framework = codes "CIS-Docker"; id = id; title = title }

abbrev pub cisl : Text → Text → ControlRef
cisl id title = record { framework = codes "CIS-Linux"; id = id; title = title }

abbrev pub c_boundary : ControlRef
c_boundary = soc2 (codes "CC6.6") (codes "Boundary protection / external threats")

abbrev pub c_logical : ControlRef
c_logical = soc2 (codes "CC6.1") (codes "Logical access controls")

abbrev pub c_transit : ControlRef
c_transit = soc2 (codes "CC6.7") (codes "Data in transit encryption")

abbrev pub c_malicious : ControlRef
c_malicious = soc2 (codes "CC6.8") (codes "Prevention of unauthorized/malicious software")

abbrev pub c_vuln_detect : ControlRef
c_vuln_detect = soc2 (codes "CC7.1") (codes "Vulnerability detection")

abbrev pub c_monitor : ControlRef
c_monitor = soc2 (codes "CC7.2") (codes "Security event monitoring")

abbrev pub c_net_sec : ControlRef
c_net_sec = iso (codes "A.8.20") (codes "Network security")

abbrev pub c_net_svc : ControlRef
c_net_svc = iso (codes "A.8.21") (codes "Security of network services")

abbrev pub c_segregate : ControlRef
c_segregate = iso (codes "A.8.22") (codes "Segregation of networks")

abbrev pub c_config : ControlRef
c_config = iso (codes "A.8.9") (codes "Configuration management")

abbrev pub c_crypto : ControlRef
c_crypto = iso (codes "A.8.24") (codes "Use of cryptography")

abbrev pub c_auth_info : ControlRef
c_auth_info = iso (codes "A.5.17") (codes "Authentication information")

abbrev pub c_secure_auth : ControlRef
c_secure_auth = iso (codes "A.8.5") (codes "Secure authentication")

abbrev pub c_priv_access : ControlRef
c_priv_access = iso (codes "A.8.2") (codes "Privileged access rights")

abbrev pub c_vuln_mgmt : ControlRef
c_vuln_mgmt = iso (codes "A.8.8") (codes "Management of technical vulnerabilities")
