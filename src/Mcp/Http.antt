-- ===== src/Mcp/Http.antt =====
-- internal/mcpprobe/transport.go: the HTTP transport, given the reply of the server.
use keelix.Prelude.{
  ℕ, ◌/◌, not, List, [], ◌∷◌, ◌++◌, Option, none, some, ◌==◌, drop, get_or_else, if◌then◌else◌,
}
use keelix.Text.{Text, codes, text_eq, has_prefix, trim_space, itoa}
use keelix.Outcome.{Outcome, done, fail}
use keelix.Mcp.Stdio.{RpcResponse, response_outcome}

-- What the client's Do and the read of the body give.
pub record HttpReply : Type 0 where
  pub status : ℕ
  pub content_type : Text
  pub body : Text

-- The first part of bytes.Split at the newline, and the other parts.
split_lines : Text → Text × List Text
split_lines [] = ([], [])
split_lines (c ∷ s) =
    let (line, lines) = split_lines s in if c == 10 then ([], line ∷ lines) else (c ∷ line, lines)

-- The loop of firstSSEData; TrimSpace answers nil for a payload of blanks.
first_data : List Text → Option Text
first_data [] = none
first_data (line ∷ lines) =
    let ln = trim_space line in
    let payload = trim_space (drop 5 ln) in
    let rest = first_data lines in
    if has_prefix ln (codes "data:")
    then (if text_eq payload [] then none else some payload)
    else rest

-- firstSSEData
unfoldable pub first_sse_data : Text → Option Text
unfolding split_lines first_data
first_sse_data b = let (line, lines) = split_lines b in first_data (line ∷ lines)

-- HTTPTransport.post, given what json.Unmarshal reads
unfoldable pub post : (Text → Outcome RpcResponse) → Text → Outcome HttpReply → Outcome RpcResponse
post decode url (fail e) = fail e
post decode url (done r) =
    if not (r.status / 100 == 2)
    then fail (codes "http " ++ itoa r.status ++ codes " from " ++ url)
    else let sse = get_or_else (first_sse_data r.body) r.body in
      let raw = if has_prefix r.content_type (codes "text/event-stream") then sse else r.body in
      elim (decode raw) [ done x ↦ done x | fail e ↦ fail (codes "http decode: " ++ e) ]

-- HTTPTransport.Send
unfoldable pub http_send : (Text → Outcome RpcResponse) → Text → Outcome HttpReply → Outcome Text
http_send decode url reply = elim (post decode url reply) [
  | fail e ↦ fail e
  | done r ↦ response_outcome r
]
