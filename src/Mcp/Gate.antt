-- ===== src/Mcp/Gate.antt =====
-- internal/cli/consent.go and internal/engine/engine.go: whether the probe runs.
pub mod Permits
use keelix.Prelude.{
  ℕ, ◌≡◌, refl, ◌⊎◌, inl, inr, Bool, true, false, not, ◌&&◌, ◌||◌, List, [], ◌∷◌, ◌++◌, Option,
  none, some, if◌then◌else◌, Bool-cases, arith,
}
use keelix.Text.{Text, codes, text_eq, trim_space, to_lower}
use keelix.Model.Finding.{
  Finding, Severity, info, warning, FindingStatus, assessed, not_assessed, high, unknown,
}
use keelix.Model.Check.{group_mcp}
use keelix.Model.Signals.{Signals, McpProbe}
use keelix.Model.Scan.{ScanOptions}
use keelix.Mcp.Specs.{ServerSpec, derive_server_specs}
use keelix.Mcp.Probe.{System, probe}

-- The type consentEnv, less the commands that it prints.
pub record ConsentEnv : Type 0 where
  pub enabled : Bool
  pub consented : Bool
  pub is_tty : Bool

-- The answers that count as consent.
abbrev pub is_yes : Text → Bool
is_yes line =
    let answer = to_lower (trim_space line) in
    text_eq answer (codes "y") || text_eq answer (codes "yes")

-- resolveMCPConsent, given the line that a terminal would read
unfoldable pub resolve_mcp_consent : ConsentEnv → Text → Bool
resolve_mcp_consent env line =
    if not env.enabled
    then true
    else if env.consented
    then true
    else if not env.is_tty
    then false
    else is_yes line

-- applyMCPConsentWith
unfoldable pub apply_mcp_consent_with : ScanOptions → Bool → Text → ScanOptions
apply_mcp_consent_with opts is_tty line =
    let given =
      resolve_mcp_consent
        (record {
          enabled = opts.mcp_probe_enabled;
          consented = opts.mcp_probe_consent;
          is_tty = is_tty;
        })
        line in
    record opts { mcp_probe_consent = given && opts.mcp_probe_enabled }

-- The findings of maybeProbeMCPInner.
abbrev mcp000 : Severity → FindingStatus → Text → Text → Finding
mcp000 severity status title detail = record {
  check_id = codes "MCP000";
  group = group_mcp;
  title = title;
  severity = severity;
  passed = false;
  service = [];
  resource = [];
  detail = detail;
  evidence = [];
  fix = record { summary = []; diff = []; commands = []; doc_url = [] };
  controls = [];
  ai_explanation = [];
  ai_diff = [];
  metadata = [];
  base_impact = 0;
  confidence = high;
  exposure_class = unknown;
  mitigations = [];
  fatal = false;
  status = status;
}

abbrev em_dash : Text
em_dash = 226 ∷ 128 ∷ 148 ∷ []

abbrev pub skipped_finding : Finding
skipped_finding =
    mcp000 info not_assessed (codes "MCP active probe skipped: no sandbox available") (
      codes "The active MCP probe requires a real kernel-level sandbox (Landlock on Linux, "
      ++ codes "Seatbelt on macOS). No supported isolation tier was detected on this host. Pass "
      ++ codes "--probe-mcp-unsandboxed to run the probe under Tier-0 process hygiene only (clean "
      ++ codes "env, throwaway dir, pgid kill "
      ++ em_dash
      ++ codes " no kernel confinement).")

abbrev pub unsandboxed_finding : Finding
unsandboxed_finding =
    mcp000 warning assessed
      (codes "MCP active probe running without kernel sandbox (--probe-mcp-unsandboxed)")
      (codes "The active MCP probe is executing untrusted MCP server code under Tier-0 process "
        ++ codes
            "hygiene only (clean env, throwaway tempdir, pgid kill). No kernel-level confinement "
        ++ codes
            "(Landlock/Seatbelt) is available on this host. This reduces the isolation guarantee: "
        ++ codes
            "a malicious server could attempt host-level attacks that kernel confinement would "
        ++ codes "have blocked.")

module _ {W : Type 0} (sys : System W) (now : ℕ) where
  -- maybeProbeMCPInner
  unfoldable pub maybe_probe_mcp :
      ScanOptions → Option Signals → Bool → W → (Option McpProbe × List Finding) × W
  maybe_probe_mcp opts sig available w =
      let specs = derive_server_specs sig in
      let (p, w') = probe sys now specs w in
      if not opts.mcp_probe_enabled || not opts.mcp_probe_consent
      then ((none, []), w)
      else elim specs [
        | [] ↦ ((none, []), w)
        | s ∷ ss ↦
            if not available
            then (if not opts.mcp_probe_unsandboxed
                then ((none, skipped_finding ∷ []), w)
                else ((some p, unsandboxed_finding ∷ []), w'))
            else ((some p, []), w')
      ]

  -- The probe of a scan command: the consent, then the engine's gate.
  unfoldable pub consent_and_probe :
      ScanOptions → Bool → Text → Option Signals → Bool → W → (Option McpProbe × List Finding) × W
  consent_and_probe opts is_tty line sig available w =
      maybe_probe_mcp (apply_mcp_consent_with opts is_tty line) sig available w
