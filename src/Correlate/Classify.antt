-- ===== src/Correlate/Classify.antt =====
-- Classify and classifyOne of classify.go.
pub mod Frame
pub mod Union
pub mod Internet
use keelix.Prelude.{
  ℕ, Bool, false, not, ◌||◌, List, [], ◌∷◌, map, Option, none, some, ◌==◌, if◌then◌else◌, any,
  is_some,
}
use keelix.Model.Finding.{
  Finding, ExposureClass, unknown, filtered, internet, more_exposed, is_ok, is_unknown,
}
use keelix.Model.Check.{domain_of, is_ai_mcp}
use keelix.Model.Signals.{Signals, socket_by_port}
use keelix.Model.Stack.{Stack}
use keelix.Model.Scan.{ScanContext, ProbeResult, is_reachable}
use keelix.Correlate.Binds.{max_bind_class}
use keelix.Correlate.Ports.{finding_port, host_ports_for, declared_public}
use keelix.Correlate.Controls.{apply_controls}

abbrev pub probe_of : Option ScanContext → Option ProbeResult
probe_of none = none
probe_of (some c) = c.probe

abbrev pub collector_of : Option ScanContext → Option Signals
collector_of none = none
collector_of (some c) = c.collector

abbrev pub stack_of : Option ScanContext → Option Stack
stack_of none = none
stack_of (some c) = c.stack

abbrev pub intended_of : Option ScanContext → List ℕ
intended_of none = []
intended_of (some c) = c.intended

-- socketFound
unfoldable pub socket_found : Option Signals → ℕ → Bool
socket_found s port = is_some (socket_by_port s port)

-- The default case of the switch: what the stack declares.
unfoldable pub declared_class : Option ScanContext → ℕ → ExposureClass
declared_class ctx port =
    if declared_public (stack_of ctx) port
    then if any (λ p. p == port) (intended_of ctx) then filtered else internet
    else unknown

unfoldable pub probed_class : Option ScanContext → Option ProbeResult → ℕ → ExposureClass
probed_class ctx none port = declared_class ctx port
probed_class ctx (some p) port = if is_reachable (some p) port then internet else filtered

unfoldable pub socket_class : Option ScanContext → Option Signals → ℕ → ExposureClass
socket_class ctx none port = probed_class ctx (probe_of ctx) port
socket_class ctx (some s) port =
    if socket_found (some s) port
    then max_bind_class s.sockets port (is_reachable (probe_of ctx) port)
    else probed_class ctx (probe_of ctx) port

-- The switch in the loop: the class of one candidate port.
unfoldable pub port_class : Option ScanContext → ℕ → ExposureClass
unfolding probed_class socket_class
port_class ctx port = socket_class ctx (collector_of ctx) port

-- The candidates: the mapped host ports, or else the container port.
unfoldable pub or_port : ℕ → List ℕ → List ℕ
or_port port [] = port ∷ []
or_port port (p ∷ ps) = p ∷ ps

unfoldable pub candidates : Option ScanContext → ℕ → List ℕ
unfolding or_port
candidates ctx port = or_port port (host_ports_for (stack_of ctx) port)

-- best, bestEffective and bestProbeOpen
pub record Best : Type 0 where
  pub best : ExposureClass
  pub effective : ℕ
  pub probe_open : Bool

-- The body of the loop, for one candidate port.
unfoldable pub best_step : Option ScanContext → Best → ℕ → Best
best_step ctx b p =
    if more_exposed (port_class ctx p) b.best
    then record {
      best = port_class ctx p;
      effective = p;
      probe_open = is_reachable (probe_of ctx) p;
    }
    else b

unfoldable pub best_loop : Option ScanContext → Best → List ℕ → Best
best_loop ctx b [] = b
best_loop ctx b (p ∷ ps) = best_loop ctx (best_step ctx b p) ps

abbrev pub head_or : ℕ → List ℕ → ℕ
head_or port [] = port
head_or port (p ∷ ps) = p

unfoldable pub best_of : Option ScanContext → ℕ → Best
best_of ctx port =
    let ps = candidates ctx port in
    best_loop ctx (record { best = unknown; effective = head_or port ps; probe_open = false }) ps

unfoldable pub classify_port : Option ScanContext → Finding → Option ℕ → Finding
classify_port ctx f none = record f { exposure_class = unknown }
classify_port ctx f (some port) =
    let b = best_of ctx port in
    apply_controls (collector_of ctx) b.effective b.probe_open
      (record f { exposure_class = b.best })

-- classifyOne
unfoldable pub classify_one : Option ScanContext → Finding → Finding
unfolding classify_port
classify_one ctx f = classify_port ctx f (finding_port f)

-- The conditions under which the loop of Classify goes on to the next finding.
unfoldable pub is_skipped : Finding → Bool
is_skipped f =
    is_ok f.severity || is_ai_mcp (domain_of f.group) || not (is_unknown f.exposure_class)

unfoldable pub classify_step : Option ScanContext → Finding → Finding
classify_step ctx f = if is_skipped f then f else classify_one ctx f

-- Classify
unfoldable pub classify : Option ScanContext → List Finding → List Finding
classify ctx fs = map (classify_step ctx) fs
