-- ===== src/Engine.antt =====
-- internal/engine/engine.go: the pipeline of a scan. The parser, the probe, the collectors, the
-- checks and the AI client are arguments, and so are the clock, the host's name and the network.
pub mod Methodology
pub mod Order
use keelix.Prelude.{
  ℕ, Bool, true, false, not, ◌&&◌, ◌||◌, List, [], ◌∷◌, ◌++◌, map, Option, none, some, ltb, ◌==◌,
  select, if◌then◌else◌,
}
use keelix.Prelude.Sort.{sort}
use keelix.Text.{Text, codes, text_eq, text_lt}
use keelix.Outcome.{Outcome, done, fail, Call}
use keelix.Threatfeed.Record.{Table}
use keelix.Intel.Ports.{PortInfo, sensitive_ports}
use keelix.Model.Finding.{Finding, Severity, critical, warning, info, ok, is_assessed}
use keelix.Model.Signals.{Signals, McpProbe}
use keelix.Model.Stack.{Stack, Service, PortMapping}
use keelix.Model.Scan.{ScanOptions, ScanContext, ProbeResult}
use keelix.Model.Result.{Result}
use keelix.Correlate.Ports.{stack_ports}
use keelix.Correlate.Report.{sorted_keys, keys_where, host_port_of, build_intended}
use keelix.Correlate.Classify.{classify}
use keelix.Score.V1.{count}
use keelix.Score.V2.{Posture, compute_v2}
use keelix.Redact.Report.{redact_result}
use keelix.Policy.{Policy, Library, evaluate}
use keelix.Mcp.Probe.{System}
use keelix.Mcp.Gate.{maybe_probe_mcp}
use keelix.Engine.Methodology.{brand, methodology}

-- The type Input.
pub record Input : Type 0 where
  pub compose_path : Text
  pub env_path : Text
  pub firewall_path : Text
  pub proxy_config_path : Text
  pub options : ScanOptions

-- commonPorts
abbrev pub common_ports : List ℕ
common_ports = 22 ∷ 80 ∷ 443 ∷ 3000 ∷ 8000 ∷ 8080 ∷ 8443 ∷ 8888 ∷ 9000 ∷ []

abbrev is_published : Service × PortMapping → Bool
is_published (svc, pm) = not (pm.host_port == 0)

-- candidatePorts
unfoldable pub candidate_ports : Stack → List ℕ
candidate_ports s = sorted_keys (
    common_ports
    ++ (map (λ (p : PortInfo). p.port) sensitive_ports
        ++ keys_where is_published host_port_of (stack_ports (some s))))

-- sevRank of sortFindings
unfoldable pub sev_rank : Severity → ℕ
sev_rank critical = 0
sev_rank warning = 1
sev_rank info = 2
sev_rank ok = 3

-- The order of sortFindings.
unfoldable pub comes_before : Finding → Finding → Bool
comes_before f g =
    let i = sev_rank f.severity in
    let j = sev_rank g.severity in if not (i == j) then ltb i j else text_lt f.check_id g.check_id

-- sortFindings
unfoldable pub sort_findings : List Finding → List Finding
sort_findings fs = sort comes_before fs

-- What a scan takes from the rest of the program and from the system, over its world.
pub record Parts (W : Type 0) : Type 0 where
  pub load_stack : Input → Call W Stack
  pub probe_ports : ScanOptions → List ℕ → W → ProbeResult × W
  pub load_signals : Text → Call W Signals
  pub collect_signals : Bool → Stack → Call W Signals
  pub system : System W
  pub sandbox_available : Bool
  pub checks : List (ScanContext → List Finding)
  pub load_policy : Text → Call W Policy
  pub library : Library
  pub table : Table
  pub hostname : Outcome Text
  pub now : ℕ
  pub version : Text
  pub ai_enabled : Bool
  pub enrich : Result → W → Result × W

-- &model.Signals{}
abbrev empty_signals : Signals
empty_signals = record {
  version = [];
  collected_at = 0;
  platform = record { os = []; distro = []; version = []; is_vm = false };
  privilege = record { root = false; euid = 0 };
  sockets = [];
  files = [];
  configs = [];
  processes = [];
  packages = record {
    manager = [];
    security_updates_pending = 0;
    reboot_required = false;
    distro_eol = false;
  };
  firewall = record { backend = []; default_inbound = []; rules = [] };
  errors = [];
  mcp_probe = none;
}

abbrev or_none : {A : Type 0} → Outcome A → Option A
or_none (done a) = some a
or_none (fail e) = none

abbrev with_mcp : Option Signals → Option McpProbe → Option Signals
with_mcp sig none = sig
with_mcp none (some p) = some (record empty_signals { mcp_probe = some p })
with_mcp (some s) (some p) = some (record s { mcp_probe = some p })

-- The first name of the target that is not empty.
abbrev target_of : ScanOptions → Stack → Outcome Text → Text
target_of opts stack host =
    if not (text_eq opts.host [])
    then opts.host
    else if not (text_eq stack.project_name [])
    then stack.project_name
    else elim host [ fail e ↦ codes "local" | done h ↦ if text_eq h [] then codes "local" else h ]

unfoldable pub run_checks : List (ScanContext → List Finding) → ScanContext → List Finding
run_checks [] ctx = []
run_checks (c ∷ cs) ctx = c ctx ++ run_checks cs ctx

module _ {W : Type 0} (p : Parts W) where
  -- The probe of the ports.
  probe_step : ScanOptions → Stack → W → Option ProbeResult × W
  probe_step opts stack w =
      let (pr, w') = p.probe_ports opts (candidate_ports stack) w in
      if not opts.no_probe && not (text_eq opts.host []) then (some pr, w') else (none, w)

  -- The switch that gathers the signals; an error leaves none.
  signals_step : ScanOptions → Stack → W → Option Signals × W
  signals_step opts stack w =
      let (loaded, w1) = p.load_signals opts.signals_path w in
      let (collected, w2) = p.collect_signals opts.collect_privileged stack w in
      if not (text_eq opts.signals_path [])
      then (or_none loaded, w1)
      else if opts.collect
      then (or_none collected, w2)
      else (none, w)

  -- The findings of the policy; an error leaves none.
  policy_step : ScanOptions → Stack → W → List Finding × W
  policy_step opts stack w =
      let (loaded, w') = p.load_policy opts.policy_path w in
      if text_eq opts.policy_path []
      then ([], w)
      else elim loaded [ fail e ↦ ([], w') | done pol ↦ (evaluate p.library pol stack, w') ]

  -- The order, the classification, the scores and the redaction of the findings.
  unfoldable pub assemble : ScanContext → Stack → List Finding → Result
  unfolding select
  assemble ctx stack raw =
      let findings = classify (some ctx) (sort_findings raw) in
      let posture = compute_v2 p.table findings in
      redact_result (record {
        target = target_of ctx.options stack p.hostname;
        scanned_at = p.now;
        version = p.version;
        score = posture.numeric;
        rating = posture.rating;
        counts = count findings;
        findings = findings;
        stack = some stack;
        probe = ctx.probe;
        methodology = methodology ctx.options ctx.collector;
        ai_summary = [];
        brand_name = brand ctx.options;
        collector = ctx.collector;
        scoring_model = codes "v2";
        sub_scores = posture.subs;
        cap_driver = posture.cap;
        not_assessed = select (λ f. not (is_assessed f.status)) findings;
      })

  -- Scan from the parsed stack on.
  unfoldable pub scan_stack : Input → Stack → W → Result × W
  unfolding probe_step signals_step policy_step
  scan_stack input stack w =
      let opts = input.options in
      let (pr, w1) = probe_step opts stack w in
      let (sig, w2) = signals_step opts stack w1 in
      let (mcp, w3) = maybe_probe_mcp p.system p.now opts sig p.sandbox_available w2 in
      let ctx : ScanContext = record {
        stack = some stack;
        options = opts;
        probe = pr;
        collector = with_mcp sig mcp.0;
        intended = build_intended (some stack) opts.intended_ports;
      } in
      let (custom, w4) = policy_step opts stack w3 in
      let r = assemble ctx stack (run_checks p.checks ctx ++ mcp.1 ++ custom) in
      let (enriched, w5) = p.enrich r w4 in
      if opts.ai_enabled && p.ai_enabled then (enriched, w5) else (r, w4)

  -- Scan
  unfoldable pub scan : Input → Call W Result
  scan input w =
      let (parsed, w') = p.load_stack input w in
      elim parsed [
        | fail e ↦ (fail (codes "parse stack: " ++ e), w')
        | done stack ↦ let (r, w'') = scan_stack input stack w' in (done r, w'')
      ]
