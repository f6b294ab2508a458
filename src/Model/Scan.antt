-- ===== src/Model/Scan.antt =====
-- internal/model/scan.go: the options and the context of a scan, and the outside-in observations.
-- The logger has no effect on a result and is left out; times and durations are numbers.
use keelix.Prelude.{ℕ, Bool, false, List, [], ◌∷◌, Option, none, some, ◌==◌, if◌then◌else◌}
use keelix.Text.{Text}
use keelix.Model.Signals.{Signals}
use keelix.Model.Stack.{Stack}

pub record ScanOptions : Type 0 where
  pub host : Text
  pub domains : List Text
  pub no_probe : Bool
  pub probe_url : Text
  pub probe_timeout : ℕ
  pub ci : Bool
  pub ai_enabled : Bool
  pub intended_ports : List ℕ
  pub policy_path : Text
  pub brand_name : Text
  pub collect : Bool
  pub collect_privileged : Bool
  pub signals_path : Text
  pub compose_path : Text
  pub mcp_probe_enabled : Bool
  pub mcp_probe_consent : Bool
  pub mcp_probe_unsandboxed : Bool

pub record CertInfo : Type 0 where
  pub endpoint : Text
  pub subject : Text
  pub issuer : Text
  pub dns_names : List Text
  pub not_before : ℕ
  pub not_after : ℕ
  pub self_signed : Bool
  pub expired : Bool
  pub tls_version : Text
  pub weak_cipher : Bool
  pub cipher_name : Text

pub record PortProbe : Type 0 where
  pub port : ℕ
  pub is_open : Bool
  pub protocol : Text
  pub service : Text
  pub banner : Text
  pub tls : Option CertInfo

pub record DnsRecord : Type 0 where
  pub name : Text
  pub kind : Text
  pub value : Text
  pub wildcard : Bool
  pub dangling : Bool

pub record ProbeResult : Type 0 where
  pub host : Text
  pub vantage_point : Text
  pub probed_at : ℕ
  pub resolved_ips : List Text
  pub domain_ips : List (Text × List Text)
  pub reachable : List (ℕ × PortProbe)
  pub dns_records : List DnsRecord
  pub certificates : List CertInfo
  pub errors : List Text

-- A read of a Go map with integer keys.
unfoldable pub lookup_port {ℓ} : {A : Type ℓ} → ℕ → List (ℕ × A) → Option A
lookup_port port [] = none
lookup_port port ((k, v) ∷ m) = if k == port then some v else lookup_port port m

-- ProbeResult.IsReachable; a nil receiver is none
unfoldable pub is_reachable : Option ProbeResult → ℕ → Bool
unfolding lookup_port
is_reachable none port = false
is_reachable (some p) port = elim (lookup_port port p.reachable) [
  | none ↦ false
  | some pp ↦ pp.is_open
]

pub record Counts : Type 0 where
  pub critical : ℕ
  pub warning : ℕ
  pub passed : ℕ
  pub info : ℕ

-- A nil context, stack, probe or collector is none. `intended` holds the ports of the map that
-- are true.
pub record ScanContext : Type 0 where
  pub stack : Option Stack
  pub options : ScanOptions
  pub probe : Option ProbeResult
  pub collector : Option Signals
  pub intended : List ℕ
