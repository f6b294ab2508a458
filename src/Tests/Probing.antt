-- ===== src/Tests/Probing.antt =====
-- The MCP probe against servers that answer from a queue.
use keelix.Prelude.{
  ◌+◌, ◌≡◌, ◌≤◌, refl, ◌⊎◌, true, false, List, [], ◌∷◌, map, Option, none, some, All, if◌then◌else◌,
  arith,
}
use keelix.Prelude.Sort.{IsSorted}
use keelix.Text.{Text, codes, text_eq, trim_space}
use keelix.Outcome.{Outcome, done, fail}
use keelix.Model.Signals.{Signals, ConfigFact}
use keelix.Model.Scan.{ScanOptions}
use keelix.Baseline.{Baseline, BaselineEntry, find_entry, key_of}
use keelix.Baseline.Drift.{Approval, approved}
use keelix.Mcp.Client.{
  Tool, Page, Transport, Codec, discover, handshake, fetch_page, check_version, protocol_supported,
}
use keelix.Mcp.Client.Pages.{last, more, later, now, discover-Serves, discover-Breaks}
use keelix.Mcp.Client.Sends.{counted, discover-counted}
use keelix.Mcp.Stdio.{
  RpcResponse, ScanResult, line, StdioTransport, ReadResponse, response_outcome, send, await,
  accept_line,
}
use keelix.Mcp.Stdio.Answers.{
  Skipped, Replies, Split, none-Skipped, Replies-iff, send-reply, send_late, send-Split,
}
use keelix.Mcp.Specs.{ServerSpec, derive_server_specs, name_lt}
use keelix.Mcp.Specs.Shape.{IsProbeable, derive_server_specs-IsSorted}
use keelix.Mcp.Probe.{System, Session, probe, probe_one}
use keelix.Mcp.Probe.Facts.{IsHonest, server_of, server_of_spec, probe-IsHonest}
use keelix.Mcp.Probe.Drift.{IsJudged, probe_one-IsJudged}
use keelix.Mcp.Gate.{consent_and_probe}
use keelix.Mcp.Gate.Permits.{IsPermitted, consent_and_probe-IsPermitted}
use keelix.Tests.Samples.{signals, options}

abbrev Queue : Type 0
Queue = List (Outcome Text)

next : Queue → Outcome Text × Queue
next [] = (fail (codes "eof"), [])
next (x ∷ q) = (x, q)

abbrev queued : Transport Queue
unfolding next
queued = record { send = λ r q. next q; notify = λ q. (done tt, q) }

abbrev echo : Tool
echo = record { name = codes "echo"; description = codes "says it" }

abbrev add : Tool
add = record { name = codes "add"; description = codes "adds up" }

abbrev page_one : Page
page_one = record { tools = echo ∷ []; next_cursor = codes "more" }

abbrev page_two : Page
page_two = record { tools = add ∷ []; next_cursor = [] }

read_page : Text → Outcome Page
unfolding text_eq
read_page t =
    if text_eq t (codes "1")
    then done page_one
    else if text_eq t (codes "2")
    then done page_two
    else fail (codes "bad json")

abbrev codec : Codec
codec = record { read_version = done; read_page = read_page; quoted = λ t. t }

abbrev version : Outcome Text
version = done (codes "2025-06-18")

abbrev two_pages : Queue
two_pages = done (codes "1") ∷ done (codes "2") ∷ []

discover-Serves_example : (discover queued codec (version ∷ two_pages)).0 ≡ done (echo ∷ add ∷ [])
unfolding handshake fetch_page next read_page check_version protocol_supported
discover-Serves_example =
    discover-Serves queued codec (version ∷ two_pages) two_pages (page_one ∷ page_two ∷ []) refl
      (more refl refl (last refl refl))

abbrev cut_short : Queue
cut_short = done (codes "1") ∷ fail (codes "closed") ∷ []

discover-Breaks_example :
    (discover queued codec (version ∷ cut_short)).0 ≡ fail (codes "tools/list: closed")
unfolding handshake fetch_page next read_page check_version protocol_supported
discover-Breaks_example =
    discover-Breaks queued codec (version ∷ cut_short) cut_short (page_one ∷ [])
      (codes "tools/list: closed") refl (later refl refl (now refl)) (omega arith)

discover-counted_example :
    ((discover (counted queued) codec (version ∷ two_pages, 7)).0
      ≡ (discover queued codec (version ∷ two_pages)).0)
    × ((discover (counted queued) codec (version ∷ two_pages, 7)).1.1 ≤ 65 + 7)
discover-counted_example = discover-counted queued codec (version ∷ two_pages) 7

-- A reader of lines: a response to request 1, one to request 7, and nothing else.
read : ReadResponse
unfolding text_eq
read l =
    if text_eq l (codes "one")
    then some (record { id = 1; result = codes "ok"; error = none })
    else if text_eq l (codes "seven")
    then some (record { id = 7; result = codes "old"; error = none })
    else none

abbrev fresh : StdioTransport
fresh = record { id = 0; closed = false }

abbrev response : RpcResponse
response = record { id = 1; result = codes "ok"; error = none }

abbrev noise : List ScanResult
noise = line (codes "starting") ∷ line (codes "seven") ∷ []

noise-Skipped : All (Skipped read 1) noise
unfolding accept_line read trim_space
noise-Skipped =
    (none-Skipped read 1 (codes "starting") refl, (none-Skipped read 1 (codes "seven") refl, tt))

one-Replies : Replies read 1 response (line (codes "one"))
unfolding accept_line read trim_space
one-Replies = (Replies-iff read 1 (codes "one") response).1 refl

send-reply_example :
    send read
      (codes "late")
      none
      (line (codes "starting") ∷ line (codes "seven") ∷ line (codes "one") ∷ [])
      fresh
    ≡ (response_outcome response, record fresh { id = 1 })
send-reply_example =
    send-reply read (codes "late") fresh noise [] (line (codes "one")) response noise-Skipped
      one-Replies

send_late_example :
    send read (codes "late") none noise fresh
    ≡ (fail (codes "late"), record { id = 1; closed = true })
send_late_example = send_late read (codes "late") fresh noise noise-Skipped

abbrev no_failure : Option Text
no_failure = none

send-Split_example :
    (no_failure ≡ none) × Split read 1 (codes "ok") (line (codes "seven") ∷ line (codes "one") ∷ [])
unfolding send await accept_line read response_outcome trim_space
send-Split_example =
    send-Split read (codes "late") none fresh (line (codes "seven") ∷ line (codes "one") ∷ [])
      (codes "ok") refl

abbrev config : ConfigFact
config = record {
  source = codes "claude";
  mode = codes "0600";
  schema_id = codes "mcp";
  schema_known = true;
  values =
      (codes "mcpServers.files.command", codes "npx")
      ∷ (codes "mcpServers.files.args.0", codes "files")
      ∷ (codes "mcpServers.api.url", codes "http://api/mcp")
      ∷ [];
}

abbrev with_servers : Option Signals
with_servers = some (record signals { configs = config ∷ [] })

derive_server_specs-IsSorted_example :
    All IsProbeable (derive_server_specs with_servers)
    × IsSorted name_lt (derive_server_specs with_servers)
derive_server_specs-IsSorted_example = derive_server_specs-IsSorted with_servers

abbrev session : Session Queue
session = record { tier = codes "landlock"; applied = false; transport = queued; close = λ q. q }

abbrev approved_entry : BaselineEntry
approved_entry = record {
  hash = codes "aa";
  first_seen = 1;
  last_seen = 1;
  pending_hash = [];
  server_command = codes "npx";
  server_url = [];
}

abbrev baseline : Baseline
baseline = (codes "claude|files|echo", approved_entry) ∷ []

abbrev system : System Queue
system = record {
  get_env = λ q name. [];
  start = λ s q. (done session, q);
  http = λ url. queued;
  codec = codec;
  sha256_hex = λ t. t;
  load_baseline = λ q. done baseline;
  save_baseline = λ b q. q;
}

abbrev local_spec : ServerSpec
local_spec = record {
  client = codes "claude";
  name = codes "files";
  transport = codes "stdio";
  command = codes "npx";
  args = codes "files" ∷ [];
  env_keys = [];
  url = [];
}

abbrev remote_spec : ServerSpec
remote_spec = record {
  client = codes "claude";
  name = codes "api";
  transport = codes "http";
  command = [];
  args = [];
  env_keys = [];
  url = codes "http://api/mcp";
}

abbrev broken_spec : ServerSpec
broken_spec = record local_spec { name = codes "gone"; transport = codes "http"; command = [] }

probe-IsHonest_example :
    (map server_of (probe system 5 (local_spec ∷ broken_spec ∷ []) (version ∷ two_pages)).0.servers
      ≡ map server_of_spec (local_spec ∷ broken_spec ∷ []))
    × All IsHonest (probe system 5 (local_spec ∷ broken_spec ∷ []) (version ∷ two_pages)).0.servers
probe-IsHonest_example =
    probe-IsHonest system 5 (local_spec ∷ broken_spec ∷ []) (version ∷ two_pages)

abbrev approval : Approval
approval = record {
  hash = codes "aa";
  first_seen = 1;
  server_command = codes "npx";
  server_url = [];
}

probe_one-IsJudged_example :
    All
      (IsJudged approval (codes "echo"))
      (probe_one system 5 local_spec baseline (version ∷ two_pages)).0.tools
unfolding text_eq approved find_entry key_of
probe_one-IsJudged_example =
    probe_one-IsJudged system 5 local_spec baseline (version ∷ two_pages) approval (codes "echo")
      refl refl

abbrev asked : ScanOptions
asked = record options { mcp_probe_enabled = true }

consent_and_probe-IsPermitted_example :
    (((consent_and_probe system 5 asked true (codes "no") with_servers true two_pages).0.0 ≡ none)
      × ((consent_and_probe system 5 asked true (codes "no") with_servers true two_pages).1
          ≡ two_pages))
    ⊎ IsPermitted asked true (codes "no") true
consent_and_probe-IsPermitted_example =
    consent_and_probe-IsPermitted system 5 asked true (codes "no") with_servers true two_pages
