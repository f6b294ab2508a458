-- ===== src/Mcp/Probe.antt =====
-- internal/mcpprobe/probe.go and hash.go: the probe of the servers, over a world whose sandbox,
-- network, environment and files are arguments. The context's timeout is left out.
pub mod Facts
pub mod Drift
use keelix.Prelude.{
  ℕ, zero, suc, Bool, true, false, ◌||◌, List, [], ◌∷◌, ◌++◌, Option, none, some, if◌then◌else◌,
  take, drop,
}
use keelix.Text.{Text, codes, text_eq, index_byte}
use keelix.Outcome.{Outcome, done, fail, Call}
use keelix.Model.Signals.{McpProbe, McpServerProbe, McpToolFact}
use keelix.Baseline.{Baseline, Observation, ServerIdentity, DiffResult, diff}
use keelix.Mcp.Client.{Tool, Transport, Codec, discover}
use keelix.Mcp.Specs.{ServerSpec}

-- The variable env: a later value of a name replaces an earlier one.
abbrev Env : Type 0
Env = List (Text × Text)

-- env[k] = v
set_env : Text → Text → Env → Env
set_env k v [] = (k, v) ∷ []
set_env k v ((j, u) ∷ env) =
    let rest = set_env k v env in if text_eq j k then (k, v) ∷ env else (j, u) ∷ rest

-- What the sandbox is asked to run; the limits are constants.
pub record SandboxSpec : Type 0 where
  pub command : Text
  pub args : List Text
  pub env : Env

pub record Session (W : Type 0) : Type 0 where
  pub tier : Text
  pub applied : Bool
  pub transport : Transport W
  pub close : W → W

-- What the probe uses of the system.
pub record System (W : Type 0) : Type 0 where
  pub get_env : W → Text → Text
  pub start : SandboxSpec → Call W (Session W)
  pub http : Text → Transport W
  pub codec : Codec
  pub sha256_hex : Text → Text
  pub load_baseline : W → Outcome Baseline
  pub save_baseline : Baseline → W → W

-- An MCPClient with what belongs to its server.
pub record Connection (W : Type 0) : Type 0 where
  pub transport : Transport W
  pub tier : Text
  pub applied : Bool
  pub close : W → W

-- The body of the loop over EnvKeys.
unfoldable pub add_env : (Text → Text) → Text → Env → Env
unfolding set_env
add_env get entry env =
    let named = if text_eq (get entry) [] then env else set_env entry (get entry) env in
    elim (index_byte entry b'=') [
      | none ↦ named
      | some zero ↦ named
      | some (suc d) ↦ set_env (take (suc d) entry) (drop (suc (suc d)) entry) env
    ]

unfoldable pub child_env : (Text → Text) → List Text → Env → Env
child_env get [] env = env
child_env get (e ∷ es) env = child_env get es (add_env get e env)

-- canonicalHash
unfoldable pub canonical_hash : (Text → Text) → Text → Text → Text
canonical_hash sha256_hex name description = sha256_hex (name ++ 10 ∷ description)

-- The rest of newStdioClient, after Start.
unfoldable pub connect : {W : Type 0} → Session W → Connection W
connect session =
    let tier = if text_eq session.tier [] then codes "tier0" else session.tier in
    record {
      transport = session.transport;
      tier = if session.applied then tier else codes "tier0";
      applied = session.applied;
      close = session.close;
    }

-- The returns of probeOne: before a connection, without a list of tools, and with one.
abbrev pub error_probe : ServerSpec → Text → McpServerProbe
error_probe s e = record {
  client = s.client;
  name = s.name;
  transport = s.transport;
  reached = false;
  sandbox_tier = [];
  sandbox_applied = false;
  tools = [];
  errors = e ∷ [];
}

abbrev pub silent_probe : ServerSpec → Text → Bool → Text → McpServerProbe
silent_probe s tier applied e = record (error_probe s e) {
  sandbox_tier = tier;
  sandbox_applied = applied;
}

abbrev pub listed_probe : ServerSpec → Text → Bool → List McpToolFact → McpServerProbe
listed_probe s tier applied facts = record {
  client = s.client;
  name = s.name;
  transport = s.transport;
  reached = true;
  sandbox_tier = tier;
  sandbox_applied = applied;
  tools = facts;
  errors = [];
}

-- The first case of the switch of probeOne.
abbrev pub is_remote : Text → Bool
is_remote transport = text_eq transport (codes "http") || text_eq transport (codes "sse")

module _ {W : Type 0} (sys : System W) (now : ℕ) where
  -- newStdioClient
  unfoldable pub new_stdio_client : ServerSpec → Call W (Connection W)
  new_stdio_client s w =
      let (o, w') =
        sys.start
          (record {
            command = s.command;
            args = s.args;
            env = child_env (sys.get_env w) s.env_keys [];
          })
          w in
      elim o [ fail e ↦ (fail e, w') | done session ↦ (done (connect session), w') ]

  -- The call of Diff for a tool of a server.
  abbrev pub observation : ServerSpec → Tool → Observation
  observation s t = record {
    client = s.client;
    server = s.name;
    tool = t.name;
    hash = canonical_hash sys.sha256_hex t.name t.description;
    now = now;
    id = record { command = s.command; url = s.url };
  }

  abbrev pub tool_fact : Observation → DiffResult → McpToolFact
  tool_fact o d = record {
    name = o.tool;
    desc_hash = o.hash;
    drifted = d.drifted;
    first_seen = d.first_seen;
  }

  -- The loop over the tools.
  unfoldable pub diff_tools : ServerSpec → List Tool → Baseline → List McpToolFact × Baseline
  diff_tools s [] b = ([], b)
  diff_tools s (t ∷ ts) b =
      let o = observation s t in
      let (b', d) = diff b o in
      let (facts, b'') = diff_tools s ts b' in (tool_fact o d ∷ facts, b'')

  -- probeOne from the connection on.
  unfoldable pub probe_connected :
      ServerSpec → Connection W → Baseline → W → McpServerProbe × Baseline × W
  probe_connected s c b w =
      let (o, w') = discover c.transport sys.codec w in
      elim o [
        | fail e ↦ (silent_probe s c.tier c.applied e, b, c.close w')
        | done tools ↦
            let (facts, b') = diff_tools s tools b in
            (listed_probe s c.tier c.applied facts, b', c.close w')
      ]

  -- probeOne
  unfoldable pub probe_one : ServerSpec → Baseline → W → McpServerProbe × Baseline × W
  probe_one s b w =
      if is_remote s.transport
      then (if text_eq s.url []
          then (error_probe s (s.transport ++ codes " transport with empty url"), b, w)
          else probe_connected s
              (record {
                transport = sys.http s.url;
                tier = s.transport;
                applied = false;
                close = λ v. v;
              })
              b w)
      else let (o, w') = new_stdio_client s w in
        elim o [
          | fail e ↦ (error_probe s (codes "spawn: " ++ e), b, w')
          | done c ↦ probe_connected s c b w'
        ]

  -- The loop over the specs.
  unfoldable pub probe_all : List ServerSpec → Baseline → W → List McpServerProbe × Baseline × W
  probe_all [] b w = ([], b, w)
  probe_all (s ∷ ss) b w =
      let (p, b', w') = probe_one s b w in
      let (ps, b'', w'') = probe_all ss b' w' in (p ∷ ps, b'', w'')

  -- The baseline of Probe and the field CorruptBaseline.
  abbrev pub loaded : Outcome Baseline → Baseline × Bool
  loaded (done b) = (b, false)
  loaded (fail e) = ([], true)

  -- Probe
  unfoldable pub probe : List ServerSpec → W → McpProbe × W
  probe specs w =
      let (b, corrupt) = loaded (sys.load_baseline w) in
      let (servers, b', w') = probe_all specs b w in
      (record { servers = servers; corrupt_baseline = corrupt }, sys.save_baseline b' w')
