-- ===== src/Mcp/Client.antt =====
-- internal/mcpprobe/client.go: the handshake with a server and the listing of its tools. The
-- transport and the JSON decoder are arguments; a request is its method with the parameter that
-- varies.
pub mod Pages
pub mod Sends
use keelix.Prelude.{ℕ, zero, suc, Bool, List, [], ◌∷◌, ◌++◌, Option, any, if◌then◌else◌}
use keelix.Text.{Text, codes, text_eq}
use keelix.Outcome.{Outcome, done, fail, Call, pure, lift, ◌>>=◌, ◌>>◌, named, labelled}

-- The type discoveredTool.
pub record Tool : Type 0 where
  pub name : Text
  pub description : Text

-- The result of tools/list.
pub record Page : Type 0 where
  pub tools : List Tool
  pub next_cursor : Text

-- The requests of the handshake and of the listing, with the parameter that varies.
pub data Request : Type 0 where
  initialize : Text → Request
  list_tools : Text → Request

-- The interface Transport, over the state S of the world it talks to.
pub record Transport (S : Type 0) : Type 0 where
  pub send : Request → Call S Text
  pub notify : Call S (Unit {0})

-- What json.Unmarshal reads from a result, and the verb %q.
pub record Codec : Type 0 where
  pub read_version : Text → Outcome Text
  pub read_page : Text → Outcome Page
  pub quoted : Text → Text

-- supportedProtocol
abbrev pub supported_protocol : Text
supported_protocol = codes "2025-11-25"

-- protocols
abbrev pub protocols : List Text
protocols = codes "2025-11-25" ∷ codes "2025-06-18" ∷ codes "2025-03-26" ∷ codes "2024-11-05" ∷ []

-- protocolSupported
unfoldable pub protocol_supported : Text → Bool
unfolding any
protocol_supported v = any (text_eq v) protocols

abbrev pub max_tool_pages : ℕ
max_tool_pages = 64

-- The check of the version that the server answers.
unfoldable pub check_version : Codec → Text → Outcome (Unit {0})
check_version d v =
    if protocol_supported v
    then done tt
    else fail (codes "unsupported protocolVersion " ++ d.quoted v)

-- The break of the loop at an empty cursor; otherwise it goes on with the cursor.
unfoldable pub go_on :
    {S : Type 0} → Text → List Tool → (Text → Call S (List Tool)) → Call S (List Tool)
go_on [] tools loop = pure tools
go_on (c ∷ cs) tools loop = loop (c ∷ cs)

module _ {S : Type 0} (t : Transport S) (d : Codec) where
  -- One round of the loop: the request and its decoded page.
  unfoldable pub fetch_page : Text → Call S Page
  fetch_page cursor = do
    raw ← named (codes "tools/list: ") (t.send (list_tools cursor))
    lift (labelled (codes "tools/list result: ") (d.read_page raw))

  -- The pagination loop, with the pages left.
  unfoldable pub list_pages : ℕ → Text → List Tool → Call S (List Tool)
  list_pages zero cursor tools = pure tools
  list_pages (suc left) cursor tools = do
    page ← fetch_page cursor
    go_on page.next_cursor (tools ++ page.tools) λ c. list_pages left c (tools ++ page.tools)

  -- The steps of discover before the listing.
  unfoldable pub handshake : Call S (Unit {0})
  handshake = do
    raw ← named (codes "initialize: ") (t.send (initialize supported_protocol))
    v ← lift (labelled (codes "initialize result: ") (d.read_version raw))
    lift (check_version d v)
    named (codes "initialized notify: ") t.notify

  -- MCPClient.discover
  unfoldable pub discover : Call S (List Tool)
  discover = do handshake; list_pages max_tool_pages [] []
