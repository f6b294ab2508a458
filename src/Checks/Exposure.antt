-- ===== src/Checks/Exposure.antt =====
-- internal/checks/exposure: the ports that the probe sees, and the ports that the stack declares.
pub mod Covers
use keelix.Prelude.{
  ℕ, Bool, not, ◌&&◌, ◌||◌, List, [], ◌∷◌, ◌++◌, Option, none, some, ◌==◌, any, if◌then◌else◌,
}
use keelix.Text.{Text, codes, text_eq, itoa}
use keelix.Model.Finding.{Finding}
use keelix.Model.Stack.{Stack, Service, PortMapping, published_to_all_interfaces}
use keelix.Model.Scan.{ScanContext, ProbeResult, PortProbe, is_reachable}
use keelix.Checks.{Check, failing, for_each, or_pass, report_if, concat, summary_fix}
use keelix.Intel.Ports.{PortInfo, lookup_port_info, is_sensitive_port}
use keelix.Correlate.Ports.{stack_ports}

abbrev pub port_resource : ℕ → Text
port_resource port = (codes "port ") ++ itoa port

-- ctx.Intended[port]
abbrev pub is_intended : ScanContext → ℕ → Bool
is_intended ctx port = any (λ p. p == port) ctx.intended

-- The variable vantage.
abbrev vantage_of : ProbeResult → Text
vantage_of p = if text_eq p.vantage_point [] then (codes "the internet") else p.vantage_point

unfoldable pub service_name : Option PortInfo → Text
service_name none = []
service_name (some info) = info.service

first_owner : ℕ → List (Service × PortMapping) → Text
first_owner port [] = []
first_owner port ((svc, pm) ∷ rest) =
    let later = first_owner port rest in if pm.host_port == port then svc.name else later

-- owningService
unfoldable pub owning_service : Option Stack → ℕ → Text
unfolding first_owner
owning_service stack port = first_owner port (stack_ports stack)

-- The fix that binds a port to the loopback interface.
abbrev pub bind_diff : ℕ → ℕ → Text
bind_diff host container = concat (
    (codes "ports:\n  - \"")
    ∷ itoa host
    ∷ (codes ":")
    ∷ itoa container
    ∷ (codes "\"  ->  \"127.0.0.1:")
    ∷ itoa host
    ∷ (codes ":")
    ∷ itoa container
    ∷ (codes "\"")
    ∷ [])

unfoldable pub exp001_finding : ScanContext → ProbeResult → ℕ → Finding
unfolding owning_service service_name
exp001_finding ctx p port = record (failing (codes "EXP001")) {
  service = owning_service ctx.stack port;
  resource = port_resource port;
  evidence = concat (
      service_name (lookup_port_info port)
      ∷ (codes " is reachable on port ")
      ∷ itoa port
      ∷ (codes " from ")
      ∷ vantage_of p
      ∷ []);
  fix = record (summary_fix (codes "Bind to 127.0.0.1 and reach via reverse proxy or SSH tunnel")) {
    diff = bind_diff port port;
  };
}

-- The body of the loop of exp001.
unfoldable pub exp001_port : ScanContext → ProbeResult → ℕ × PortProbe → List Finding
exp001_port ctx p (port, pp) =
    report_if (pp.is_open && (is_sensitive_port port && not (is_intended ctx port)))
      (exp001_finding ctx p port)

unfoldable pub exp001_probed : ScanContext → Option ProbeResult → List Finding
exp001_probed ctx none = []
exp001_probed ctx (some p) =
    or_pass (codes "EXP001") (codes "No sensitive services are reachable from the internet.")
      (for_each (exp001_port ctx p) p.reachable)

-- exp001.Run
unfoldable pub exp001 : Check
unfolding exp001_probed
exp001 ctx = exp001_probed ctx ctx.probe

abbrev pub is_declared_port : PortMapping → Bool
is_declared_port pm = published_to_all_interfaces pm && not (pm.host_port == 0)

-- declaredPublicHostPorts[port]
unfoldable pub declared_public_host_port : Option Stack → ℕ → Bool
declared_public_host_port stack port =
    any (λ (svc, pm). is_declared_port pm && pm.host_port == port) (stack_ports stack)

unfoldable pub exp002_finding : ProbeResult → ℕ → Finding
exp002_finding p port = record (failing (codes "EXP002")) {
  resource = port_resource port;
  evidence = concat (
      (codes "port ")
      ∷ itoa port
      ∷ (codes " is reachable from ")
      ∷ vantage_of p
      ∷ (codes " but is not declared in Compose")
      ∷ []);
}

-- The conditions under which the loop of exp002 goes on to the next port.
unfoldable pub exp002_skips : ScanContext → ℕ → Bool
exp002_skips ctx port =
    declared_public_host_port ctx.stack port
    || is_intended ctx port
    || is_sensitive_port port
    || port == 80
    || port == 443

unfoldable pub exp002_port : ScanContext → ProbeResult → ℕ × PortProbe → List Finding
exp002_port ctx p (port, pp) =
    report_if (pp.is_open && not (exp002_skips ctx port)) (exp002_finding p port)

unfoldable pub exp002_probed : ScanContext → Option ProbeResult → List Finding
exp002_probed ctx none = []
exp002_probed ctx (some p) =
    or_pass (codes "EXP002") (codes "No undeclared ports are reachable from the internet.")
      (for_each (exp002_port ctx p) p.reachable)

-- exp002.Run
unfoldable pub exp002 : Check
unfolding exp002_probed
exp002 ctx = exp002_probed ctx ctx.probe

unfoldable pub exp003_finding : Service → ℕ → Finding
exp003_finding svc port = record (failing (codes "EXP003")) {
  service = svc.name;
  resource = port_resource port;
  evidence = concat (
      (codes "port ")
      ∷ itoa port
      ∷ (codes " is declared in Compose but is not reachable from outside")
      ∷ []);
}

unfoldable pub exp003_port : Option ProbeResult → Service × PortMapping → List Finding
exp003_port probe (svc, pm) =
    report_if (is_declared_port pm && not (is_reachable probe pm.host_port))
      (exp003_finding svc pm.host_port)

-- exp003.Run, which dereferences ctx.Stack: the stack is the first argument
unfoldable pub exp003 : Stack → Check
exp003 stack ctx = elim ctx.probe [
  | none ↦ []
  | some p ↦
      or_pass (codes "EXP003") (codes "All declared public ports are reachable.")
        (for_each (exp003_port (some p)) (stack_ports (some stack)))
]
