-- ===== src/Mcp/Stdio.antt =====
-- internal/mcpprobe/transport.go: the stdio transport. What the select statement of one call of
-- Send receives before its timer fires is a list of reads; where the list ends, the timer fires.
pub mod Answers
use keelix.Prelude.{
  ℕ, suc, Bool, true, false, List, [], ◌∷◌, ◌++◌, Option, none, some, ◌==◌, if◌then◌else◌,
}
use keelix.Text.{Text, codes, trim_space}
use keelix.Outcome.{Outcome, done, fail}

pub record RpcError : Type 0 where
  pub code : Text
  pub message : Text

-- RpcError.Error, with the code as a decimal
unfoldable pub error_text : RpcError → Text
error_text e = codes "rpc error " ++ e.code ++ codes ": " ++ e.message

-- The type rpcResponse; a missing error is none.
pub record RpcResponse : Type 0 where
  pub id : ℕ
  pub result : Text
  pub error : Option RpcError

-- The type scanResult.
pub data ScanResult : Type 0 where
  line : Text → ScanResult
  broken : Text → ScanResult

-- The state that Send changes: the last request id, and that the session is closed.
pub record StdioTransport : Type 0 where
  pub id : ℕ
  pub closed : Bool

-- What json.Unmarshal reads from a line, none for an error.
abbrev pub ReadResponse : Type 0
ReadResponse = Text → Option RpcResponse

-- The outcome of a response to the request.
unfoldable pub response_outcome : RpcResponse → Outcome Text
response_outcome r = elim r.error [ none ↦ done r.result | some e ↦ fail (error_text e) ]

-- A line of the loop: none where it is skipped.
unfoldable pub accept_line : ReadResponse → ℕ → Text → Option RpcResponse
accept_line read id [] = none
accept_line read id (c ∷ l) = elim (read (c ∷ l)) [
  | none ↦ none
  | some r ↦ if r.id == id then some r else none
]

-- The loop of Send, with whether it closes the session; `late` is the text of the deadline error.
unfoldable pub await : ReadResponse → Text → ℕ → List ScanResult → Outcome Text × Bool
await read late id [] = (fail late, true)
await read late id (broken e ∷ rs) = (fail (codes "stdio read: " ++ e), false)
await read late id (line l ∷ rs) =
    let rest = await read late id rs in
    elim (accept_line read id (trim_space l)) [ none ↦ rest | some r ↦ (response_outcome r, false) ]

-- StdioTransport.Send, given the error of writing the frame and the reads
unfoldable pub send :
    ReadResponse
    → Text
    → Option Text
    → List ScanResult
    → StdioTransport
    → Outcome Text × StdioTransport
send read late (some e) reads t = (fail (codes "stdio write: " ++ e), record t { id = suc t.id })
send read late none reads t =
    let (o, closes) = await read late (suc t.id) reads in
    (o, record { id = suc t.id; closed = if closes then true else t.closed })
