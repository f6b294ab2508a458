-- ===== src/Mcp/Specs.antt =====
-- internal/engine/mcpspecs.go: the servers to probe, from the collected config facts. A map is an
-- association list; where the source sorts its keys, so does the model. sort.Slice, which may put
-- equal keys in any order, is taken to be stable.
pub mod Shape
use keelix.Prelude.{
  ℕ, zero, suc, max, Bool, true, false, not, ◌&&◌, ◌||◌, List, [], ◌∷◌, ◌++◌, map, Option, none,
  some, ◌==◌, if◌then◌else◌, any, take, drop, is_some, get_or_else,
}
use keelix.Prelude.Sort.{sort}
use keelix.Text.{
  Text, codes, text_eq, text_lt, has_prefix, trim_prefix, index_byte, lookup_text, atoi, is_int,
  join,
}
use keelix.Model.Finding.{TextMap}
use keelix.Model.Signals.{Signals, ConfigFact}
use keelix.Model.Scan.{lookup_port}

pub record ServerSpec : Type 0 where
  pub client : Text
  pub name : Text
  pub transport : Text
  pub command : Text
  pub args : List Text
  pub env_keys : List Text
  pub url : Text

-- "mcpServers.<name>.<field>"
abbrev server_key : Text → Text → Text
server_key name field = codes "mcpServers." ++ name ++ codes "." ++ field

abbrev names_server : Text → Bool
names_server suffix =
    text_eq suffix (codes "command")
    || text_eq suffix (codes "url")
    || text_eq suffix (codes "type")

-- The body of the loop of serverNamesFromValues: the name that a key adds.
unfoldable pub server_name : Text → Option Text
server_name k =
    let rest = trim_prefix k (codes "mcpServers.") in
    if not (has_prefix k (codes "mcpServers.")) then none else elim (index_byte rest b'.') [
      | none ↦ none
      | some zero ↦ none
      | some (suc d) ↦
          if names_server (drop (suc (suc d)) rest) then some (take (suc d) rest) else none
    ]

-- seen[name] = struct{}{}
abbrev add_name : Option Text → List Text → List Text
add_name none seen = seen
add_name (some n) seen = if any (text_eq n) seen then seen else n ∷ seen

seen_names : TextMap → List Text
seen_names [] = []
seen_names ((k, v) ∷ m) = add_name (server_name k) (seen_names m)

-- serverNamesFromValues
unfoldable pub server_names_from_values : TextMap → List Text
unfolding seen_names
server_names_from_values values = sort text_lt (seen_names values)

-- The map idx of orderedArgs.
indexed : Text → TextMap → List (ℕ × Text)
indexed prefix [] = []
indexed prefix ((k, v) ∷ m) =
    let rest = indexed prefix m in
    if has_prefix k prefix
    then elim (atoi (trim_prefix k prefix)) [ none ↦ rest | some n ↦ (n, v) ∷ rest ]
    else rest

-- One more than the variable max of orderedArgs.
bound : List (ℕ × Text) → ℕ
bound [] = 0
bound ((n, v) ∷ idx) = max (suc n) (bound idx)

-- The last loop of orderedArgs, with the indices left.
collect : List (ℕ × Text) → ℕ → ℕ → List Text
collect idx zero i = []
collect idx (suc left) i = elim (lookup_port i idx) [
  | none ↦ collect idx left (suc i)
  | some v ↦ v ∷ collect idx left (suc i)
]

-- orderedArgs
unfoldable pub ordered_args : TextMap → Text → List Text
unfolding indexed bound collect
ordered_args values name =
    let idx = indexed (server_key name (codes "args.")) values in collect idx (bound idx) 0

env_entries : Text → TextMap → List Text
env_entries prefix [] = []
env_entries prefix ((k, v) ∷ m) =
    let rest = env_entries prefix m in
    let suffix = trim_prefix k prefix in
    if not (has_prefix k prefix) then rest else if is_int suffix then v ∷ rest else suffix ∷ rest

-- envKeys
unfoldable pub env_keys : TextMap → Text → List Text
unfolding env_entries
env_keys values name = sort text_lt (env_entries (server_key name (codes "env.")) values)

-- The switch of deriveServerSpecs: none for a definition that cannot be probed.
unfoldable pub choose_spec :
    Text → Text → Text → Text → Text → List Text → List Text → Option ServerSpec
choose_spec source name cmd url typ args env =
    if not (text_eq cmd [])
    then some (record {
      client = source;
      name = name;
      transport = codes "stdio";
      command = cmd;
      args = args;
      env_keys = env;
      url = [];
    })
    else if not (text_eq url []) || text_eq typ (codes "http") || text_eq typ (codes "sse")
    then some (record {
      client = source;
      name = name;
      transport = if text_eq typ (codes "sse") then codes "sse" else codes "http";
      command = [];
      args = [];
      env_keys = [];
      url = url;
    })
    else none

-- The body of the inner loop of deriveServerSpecs.
unfoldable pub server_spec : Text → TextMap → Text → Option ServerSpec
server_spec source values name =
    choose_spec source name (lookup_text (server_key name (codes "command")) values)
      (lookup_text (server_key name (codes "url")) values)
      (lookup_text (server_key name (codes "type")) values) (ordered_args values name)
      (env_keys values name)

-- continue, or the append to specs
abbrev add_spec : Option ServerSpec → List ServerSpec → List ServerSpec
add_spec none specs = specs
add_spec (some s) specs = s ∷ specs

-- The inner loop.
specs_of_names : Text → TextMap → List Text → List ServerSpec
specs_of_names source values [] = []
specs_of_names source values (n ∷ ns) =
    add_spec (server_spec source values n) (specs_of_names source values ns)

-- The outer loop.
specs_of_configs : List ConfigFact → List ServerSpec
unfolding specs_of_names
specs_of_configs [] = []
specs_of_configs (cf ∷ cfs) =
    let rest = specs_of_configs cfs in
    if cf.schema_known
    then specs_of_names cf.source cf.values (server_names_from_values cf.values) ++ rest
    else rest

abbrev pub name_lt : ServerSpec → ServerSpec → Bool
name_lt a b = text_lt a.name b.name

-- deriveServerSpecs
unfoldable pub derive_server_specs : Option Signals → List ServerSpec
unfolding specs_of_configs
derive_server_specs none = []
derive_server_specs (some sig) = sort name_lt (specs_of_configs sig.configs)

-- The line of formatPlannedCommands for one server.
planned_command : ServerSpec → Text
planned_command s =
    if text_eq s.transport (codes "stdio")
    then s.name ++ codes " (stdio): " ++ join (codes " ") (s.command ∷ s.args)
    else s.name ++ codes " (" ++ s.transport ++ codes "): " ++ s.url

-- formatPlannedCommands
unfoldable pub format_planned_commands : List ServerSpec → List Text
unfolding planned_command
format_planned_commands specs = map planned_command specs
