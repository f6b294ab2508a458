-- ===== src/Redact/Report/Texts.antt =====
-- The texts of a result that RedactResult covers, and what it leaves in them.
use keelix.Prelude.{
  ℕ, ◌≤◌, ◌≡◌, ◌∙◌, ap, false, List, [], ◌∷◌, ◌++◌, map, Option, none, some, All, Mem, length,
  Bool-cases, inl, inr,
}
use keelix.Text.{Text, contains, text_eq, trim_space}
use keelix.Model.Finding.{Finding, CapDriver}
use keelix.Model.Signals.{
  Signals, ConfigFact, ProcessFact, CollectError, McpProbe, McpServerProbe, McpToolFact,
}
use keelix.Model.Scan.{ProbeResult, PortProbe}
use keelix.Model.Result.{Result}
use keelix.Redact.Masks.{IsClean}
use keelix.Redact.Known.{known_secret_values, min_known_value_len}
use keelix.Text.Laws.{text_eq_iff}
use keelix.Redact.Known.Gone.{nowhere_in_empty}
use keelix.Redact.Known.Absent.{redact_string-absent}
use keelix.Redact.Report.{
  map_option, map_values, redact_finding, redact_port, redact_probe, redact_config, redact_process,
  redact_error, redact_tool, redact_server, redact_mcp, redact_cap, redact_signals, redact_with,
  redact_result,
}

abbrev gather : {A : Type 0} → (A → List Text) → List A → List Text
gather f [] = []
gather f (a ∷ rest) = f a ++ gather f rest

abbrev gather_option : {A : Type 0} → (A → List Text) → Option A → List Text
gather_option f none = []
gather_option f (some a) = f a

abbrev value_text : {K : Type 0} → K × Text → List Text
value_text (k, v) = v ∷ []

abbrev tool_text : McpToolFact → List Text
tool_text t = t.name ∷ []

abbrev error_text : CollectError → List Text
error_text e = e.err ∷ []

abbrev reason_text : CapDriver → List Text
reason_text c = c.reason ∷ []

abbrev banner_text : ℕ × PortProbe → List Text
banner_text (n, pp) = pp.banner ∷ []

abbrev values_of : {K : Type 0} → List (K × Text) → List Text
values_of m = gather value_text m

abbrev finding_texts : Finding → List Text
finding_texts f =
    f.title
    ∷ f.detail
    ∷ f.evidence
    ∷ f.resource
    ∷ f.fix.summary
    ∷ f.fix.diff
    ∷ (f.fix.commands ++ (f.mitigations ++ values_of f.metadata))

abbrev config_texts : ConfigFact → List Text
config_texts c = values_of c.values

abbrev process_texts : ProcessFact → List Text
process_texts p = p.args

abbrev probe_texts : ProbeResult → List Text
probe_texts p = gather banner_text p.reachable

abbrev server_texts : McpServerProbe → List Text
server_texts s = s.name ∷ (s.errors ++ gather tool_text s.tools)

abbrev mcp_texts : McpProbe → List Text
mcp_texts p = gather server_texts p.servers

abbrev signals_texts : Signals → List Text
signals_texts s =
    gather config_texts s.configs
    ++ (s.firewall.rules
        ++ (gather process_texts s.processes
            ++ (gather error_text s.errors ++ gather_option mcp_texts s.mcp_probe)))

-- The summary, the texts of the findings, the reason of the cap, the banners of the probe and the
-- texts of the collected facts. The title of the cap, the services of the findings, the methodology
-- and the parsed stack are not among them.
pub redacted_texts : Result → List Text
redacted_texts r =
    r.ai_summary
    ∷ (gather finding_texts r.findings
        ++ (gather finding_texts r.not_assessed
            ++ (gather_option reason_text r.cap_driver
                ++ (gather_option probe_texts r.probe ++ gather_option signals_texts r.collector))))

module _ (red : Text → Text) (k : Text) (free : (s : Text) → contains (red s) k ≡ false)
    (nothing : contains [] k ≡ false) where
  abbrev Free : List Text → Type 0
  Free ts = All (λ t. contains t k ≡ false) ts

  Free-append : (xs ys : List Text) → Free xs → Free ys → Free (xs ++ ys)
  Free-append [] ys h g = g
  Free-append (x ∷ xs) ys (h, hs) g = (h, Free-append xs ys hs g)

  Free-gather :
      {A : Type 0} (texts : A → List Text) (change : A → A) (xs : List A)
      → ((a : A) → Free (texts (change a)))
      → Free (gather texts (map change xs))
  Free-gather texts change [] h = tt
  Free-gather texts change (a ∷ rest) h =
      Free-append (texts (change a)) _ (h a) (Free-gather texts change rest h)

  Free-option :
      {A : Type 0} (texts : A → List Text) (change : A → A) (o : Option A)
      → ((a : A) → Free (texts (change a)))
      → Free (gather_option texts (map_option change o))
  Free-option texts change none h = tt
  Free-option texts change (some a) h = h a

  Free-map : (ts : List Text) → Free (map red ts)
  Free-map [] = tt
  Free-map (t ∷ ts) = (free t, Free-map ts)

  Free-values : {K : Type 0} (m : List (K × Text)) → Free (values_of (map_values red m))
  Free-values [] = tt
  Free-values ((j, v) ∷ m) = (free v, Free-values m)

  redact_finding-Free : (f : Finding) → Free (finding_texts (redact_finding red f))
  unfolding redact_finding
  redact_finding-Free f = (
    free f.title,
    (
      free f.detail,
      (
        free f.evidence,
        (
          free f.resource,
          (
            free f.fix.summary,
            (
              free f.fix.diff,
              Free-append (map red f.fix.commands) _ (Free-map f.fix.commands) (
                  Free-append (map red f.mitigations) _ (Free-map f.mitigations)
                    (Free-values f.metadata)),
            ),
          ),
        ),
      ),
    ),
  )

  redact_port-Free : (pp : PortProbe) → contains (redact_port red pp).banner k ≡ false
  unfolding redact_port
  redact_port-Free pp = elim (Bool-cases (text_eq pp.banner [])) [
    | inl blank ↦
        let is_blank = (text_eq_iff pp.banner []).0 blank in
        rw blank (ap (λ t. contains t k) is_blank ∙ nothing)
    | inr full ↦ rw full (free pp.banner)
  ]

  Free-banners :
      (m : List (ℕ × PortProbe)) → Free (gather banner_text (map_values (redact_port red) m))
  Free-banners [] = tt
  Free-banners ((n, pp) ∷ m) = (redact_port-Free pp, Free-banners m)

  redact_server-Free : (s : McpServerProbe) → Free (server_texts (redact_server red s))
  redact_server-Free s = (
    free s.name,
    Free-append (map red s.errors) _ (Free-map s.errors)
        (Free-gather tool_text (redact_tool red) s.tools λ t. (free t.name, tt)),
  )

  redact_signals-Free : (s : Signals) → Free (signals_texts (redact_signals red s))
  unfolding redact_signals
  redact_signals-Free s =
      Free-append _ _
        (Free-gather config_texts (redact_config red) s.configs λ c. Free-values c.values)
        (Free-append (map red s.firewall.rules) _ (Free-map s.firewall.rules) (
          Free-append _ _
            (Free-gather process_texts (redact_process red) s.processes λ p. Free-map p.args)
            (Free-append _ _
              (Free-gather error_text (redact_error red) s.errors λ e. (free e.err, tt))
              (Free-option mcp_texts (redact_mcp red) s.mcp_probe
                λ p. Free-gather server_texts (redact_server red) p.servers redact_server-Free))))

  redact_with-Free : (r : Result) → Free (redacted_texts (redact_with red r))
  unfolding redact_with redacted_texts redact_probe
  redact_with-Free r = (
    free r.ai_summary,
    Free-append _ _ (Free-gather finding_texts (redact_finding red) r.findings redact_finding-Free)
        (Free-append _ _
          (Free-gather finding_texts (redact_finding red) r.not_assessed redact_finding-Free)
          (Free-append _ _
            (Free-option reason_text (redact_cap red) r.cap_driver λ c. (free c.reason, tt))
            (Free-append _ _
              (Free-option probe_texts (redact_probe red) r.probe λ p. Free-banners p.reachable)
              (Free-option signals_texts (redact_signals red) r.collector redact_signals-Free)))),
  )

-- The value of a variable with a secret name in the scanned stack, if it has at least six bytes
-- without its outer spaces, no bracket, and is no part of the marker's word, occurs in none of these
-- texts of the redacted result.
pub redact_result-absent :
    (r : Result) (v : Text)
    → Mem v (known_secret_values r.stack)
    → min_known_value_len ≤ length (trim_space v)
    → IsClean (trim_space v)
    → All (λ t. contains t (trim_space v) ≡ false) (redacted_texts (redact_result r))
unfolding redact_result
redact_result-absent r v m le clean =
    redact_with-Free _ (trim_space v)
      (λ s. redact_string-absent (known_secret_values r.stack) v s m le clean)
      (nowhere_in_empty (trim_space v) clean) r
