-- ===== src/Redact/Report.antt =====
-- Result of redact.go: the fields of a scan's result that are redacted. A map is redacted at every
-- key.
pub mod Texts
use keelix.Prelude.{ℕ, List, [], ◌∷◌, map, Option, none, some, if◌then◌else◌}
use keelix.Text.{Text, text_eq}
use keelix.Model.Finding.{Finding, Fix, CapDriver, TextMap}
use keelix.Model.Signals.{
  Signals, ConfigFact, ProcessFact, FirewallState, CollectError, McpProbe, McpServerProbe,
  McpToolFact,
}
use keelix.Model.Scan.{ProbeResult, PortProbe}
use keelix.Model.Result.{Result}
use keelix.Redact.Known.{new_redactor, redact_string, known_secret_values}

abbrev pub map_option : {A B : Type 0} → (A → B) → Option A → Option B
map_option f none = none
map_option f (some a) = some (f a)

abbrev pub map_values : {K A B : Type 0} → (A → B) → List (K × A) → List (K × B)
map_values f m = map (λ (k, v). (k, f v)) m

module _ (red : Text → Text) where
  abbrev redact_fix : Fix → Fix
  redact_fix x = record x {
    summary = red x.summary;
    diff = red x.diff;
    commands = map red x.commands;
  }

  -- redactFinding
  unfoldable pub redact_finding : Finding → Finding
  redact_finding f = record f {
    title = red f.title;
    detail = red f.detail;
    evidence = red f.evidence;
    resource = red f.resource;
    fix = redact_fix f.fix;
    mitigations = map red f.mitigations;
    metadata = map_values red f.metadata;
  }

  unfoldable pub redact_port : PortProbe → PortProbe
  redact_port pp = if text_eq pp.banner [] then pp else record pp { banner = red pp.banner }

  unfoldable pub redact_probe : ProbeResult → ProbeResult
  unfolding redact_port
  redact_probe p = record p { reachable = map_values redact_port p.reachable }

  abbrev pub redact_config : ConfigFact → ConfigFact
  redact_config c = record c { values = map_values red c.values }

  abbrev pub redact_process : ProcessFact → ProcessFact
  redact_process p = record p { args = map red p.args }

  abbrev pub redact_error : CollectError → CollectError
  redact_error e = record e { err = red e.err }

  abbrev pub redact_tool : McpToolFact → McpToolFact
  redact_tool t = record t { name = red t.name }

  abbrev pub redact_server : McpServerProbe → McpServerProbe
  redact_server s = record s {
    name = red s.name;
    errors = map red s.errors;
    tools = map redact_tool s.tools;
  }

  abbrev pub redact_mcp : McpProbe → McpProbe
  redact_mcp p = record p { servers = map redact_server p.servers }

  abbrev redact_firewall : FirewallState → FirewallState
  redact_firewall w = record w { rules = map red w.rules }

  unfoldable pub redact_signals : Signals → Signals
  redact_signals s = record s {
    configs = map redact_config s.configs;
    firewall = redact_firewall s.firewall;
    processes = map redact_process s.processes;
    errors = map redact_error s.errors;
    mcp_probe = map_option redact_mcp s.mcp_probe;
  }

  abbrev pub redact_cap : CapDriver → CapDriver
  redact_cap c = record c { reason = red c.reason }

  -- The steps of Result with one redactor.
  unfoldable pub redact_with : Result → Result
  redact_with r = record r {
    ai_summary = red r.ai_summary;
    findings = map redact_finding r.findings;
    not_assessed = map redact_finding r.not_assessed;
    cap_driver = map_option redact_cap r.cap_driver;
    probe = map_option redact_probe r.probe;
    collector = map_option redact_signals r.collector;
  }

-- Result
unfoldable pub redact_result : Result → Result
redact_result r =
    let known = new_redactor (known_secret_values r.stack) in redact_with (redact_string known) r
