-- ===== src/Parse/Ufw.antt =====
-- internal/parse/parse.go: the dumps of `ufw status`, and LoadFirewall, given the text of the file. A
-- line whose port is a negative number, which ufw does not print, gives no rule.
pub mod Denied
use keelix.Prelude.{
  ℕ, suc, Bool, false, ◌||◌, List, [], ◌∷◌, Option, none, some, if◌then◌else◌, take, drop,
}
use keelix.Text.{
  Text, codes, text_eq, has_prefix, trim_space, to_lower, contains, split_byte, fields, index,
  index_byte, atoi,
}
use keelix.Model.Stack.{FirewallRule, FirewallConfig}
use keelix.Parse.Iptables.{parse_iptables, add_rule}

-- isUFW
unfoldable pub is_ufw : Text → Bool
unfolding contains
is_ufw text =
    contains text (codes "Status:")
    || contains text (codes "Default:")
    || contains text (codes "ALLOW")
    || contains text (codes "DENY")
    || contains text (codes "ufw")

-- The loop that looks for the action: none for an empty action. No field has a blank in it, so that
-- two of the words of the code never occur.
unfoldable pub find_action : List Text → Option Text
unfolding to_lower text_eq
find_action [] = none
find_action (f ∷ fs) =
    let rest = find_action fs in
    let lower = to_lower f in
    if text_eq lower (codes "allow")
      || text_eq lower (codes "allow in")
      || text_eq lower (codes "allow out")
    then some (codes "allow")
    else if text_eq lower (codes "deny")
        || text_eq lower (codes "reject")
        || text_eq lower (codes "limit")
    then some (codes "deny")
    else rest

-- The port and the protocol of the first field.
unfoldable pub port_proto : Text → Text × Text
unfolding to_lower index
port_proto s = elim (index_byte s b'/') [
  | none ↦ (s, (codes "tcp"))
  | some i ↦ (take i s, to_lower (drop (suc i) s))
]

unfoldable pub ufw_rule : Option ℕ → Text → Text → Text → Option FirewallRule
ufw_rule none action proto line = none
ufw_rule (some port) action proto line =
    some (record { action = action; port = port; protocol = proto; from = []; raw = line })

unfoldable pub ufw_fields : List Text → Option Text → Text → Option FirewallRule
unfolding ufw_rule port_proto
ufw_fields [] action line = none
ufw_fields (f ∷ fs) none line = none
ufw_fields (f ∷ fs) (some action) line =
    let (port, proto) = port_proto f in ufw_rule (atoi port) action proto line

abbrev pub rest_of : List Text → List Text
rest_of [] = []
rest_of (f ∷ fs) = fs

-- parseUFWLine; a single field has no action behind it
unfoldable pub parse_ufw_line : Text → Option FirewallRule
unfolding ufw_fields find_action fields
parse_ufw_line line = ufw_fields (fields line) (find_action (rest_of (fields line))) line

-- Whether the loop skips a line as a header.
unfoldable pub is_header : Text → Bool
unfolding text_eq has_prefix
is_header line =
    text_eq line []
    || has_prefix line (codes "Status:")
    || has_prefix line (codes "To ")
    || has_prefix line (codes "--")
    || has_prefix line (codes "Logging:")
    || has_prefix line (codes "Profiles:")

-- The optional number in brackets is dropped.
unfoldable pub strip_number : Text → Text
unfolding has_prefix index trim_space
strip_number line =
    if has_prefix line (codes "[")
    then elim (index line (codes "]")) [ none ↦ line | some end ↦ trim_space (drop (suc end) line) ]
    else line

unfoldable pub default_policy : Text → Text → Text
unfolding contains
default_policy lower before =
    if contains lower (codes "deny")
    then (codes "deny")
    else if contains lower (codes "allow")
    then (codes "allow")
    else before

-- The body of the loop of parseUFW, for the trimmed line.
unfoldable pub ufw_line : Text → FirewallConfig → FirewallConfig
unfolding is_header strip_number default_policy parse_ufw_line add_rule has_prefix to_lower
ufw_line line fw =
    if has_prefix (to_lower line) (codes "default:")
    then record fw { default_incoming = default_policy (to_lower line) fw.default_incoming }
    else if is_header line
    then fw
    else record fw { rules = add_rule fw.rules (parse_ufw_line (strip_number line)) }

unfoldable pub ufw_lines : List Text → FirewallConfig → FirewallConfig
unfolding ufw_line trim_space
ufw_lines [] fw = fw
ufw_lines (l ∷ ls) fw = ufw_lines ls (ufw_line (trim_space l) fw)

-- parseUFW
unfoldable pub parse_ufw : FirewallConfig → Text → FirewallConfig
unfolding ufw_lines split_byte
parse_ufw fw text = ufw_lines (split_byte 10 text) (record fw { engine = (codes "ufw") })

-- LoadFirewall, after the file is read
unfoldable pub load_firewall : Text → Text → FirewallConfig
unfolding is_ufw parse_ufw
load_firewall path text =
    let fw : FirewallConfig = record {
      engine = [];
      path = path;
      default_incoming = [];
      rules = [];
      has_docker_user_chain = false;
      raw = text;
    } in
    if is_ufw text then parse_ufw fw text else parse_iptables fw text
