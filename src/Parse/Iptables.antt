-- ===== src/Parse/Iptables.antt =====
-- internal/parse/parse.go: the dumps of `iptables -S` and `iptables -L`.
use keelix.Prelude.{
  ℕ, Bool, true, ◌&&◌, ◌||◌, List, [], ◌∷◌, ◌++◌, Option, none, some, if◌then◌else◌, ◌+◌, ◌-◌, ◌*◌,
  ◌==◌, leb, min,
}
use keelix.Text.{
  Text, codes, text_eq, has_prefix, trim_prefix, trim_space, to_lower, contains, split_byte, fields,
  max_int,
}
use keelix.Model.Stack.{FirewallRule, FirewallConfig}

is_digit : ℕ → Bool
is_digit c = leb 48 c && leb c 57

-- \s of a regular expression
is_blank : ℕ → Bool
is_blank c = c == 9 || c == 10 || c == 12 || c == 13 || c == 32

skip_blanks : Text → Text
skip_blanks [] = []
skip_blanks (c ∷ s) = if is_blank c then skip_blanks s else c ∷ s

read_digits : ℕ → Text → ℕ
read_digits n [] = n
read_digits n (c ∷ s) =
    let rest = read_digits (n * 10 + (c - 48)) s in if is_digit c then rest else n

-- (\d+), through Atoi, which gives the largest int for a number out of range
dport_value : Text → Option ℕ
unfolding is_digit read_digits
dport_value [] = none
dport_value (c ∷ s) = if is_digit c then some (min (read_digits 0 (c ∷ s)) max_int) else none

-- reDport at one position
dport_at : Text → Option ℕ
unfolding dport_value skip_blanks is_blank has_prefix trim_prefix
dport_at s =
    if has_prefix s (codes "--dport")
    then dport_value (skip_blanks (trim_prefix s (codes "--dport")))
    else if has_prefix s (codes "dpt:")
    then dport_value (skip_blanks (trim_prefix s (codes "dpt:")))
    else none

-- extractDport
unfoldable pub extract_dport : Text → ℕ
unfolding dport_at
extract_dport [] = 0
extract_dport (c ∷ s) = elim (dport_at (c ∷ s)) [ none ↦ extract_dport s | some n ↦ n ]

-- The end of parseIptablesSLine and parseIptablesLLine; an empty action is none.
unfoldable pub rule_of : Option Text → Text → Text → Option FirewallRule
unfolding extract_dport
rule_of none proto line = none
rule_of (some action) proto line =
    if extract_dport line == 0
    then none
    else some (record {
      action = action;
      port = extract_dport line;
      protocol = proto;
      from = [];
      raw = line;
    })

unfoldable pub s_action : Text → Option Text
unfolding contains
s_action lower =
    if contains lower (codes "-j accept")
    then some (codes "allow")
    else if contains lower (codes "-j drop") || contains lower (codes "-j reject")
    then some (codes "deny")
    else none

unfoldable pub s_proto : Text → Text
unfolding contains
s_proto lower = if contains lower (codes "-p udp") then (codes "udp") else (codes "tcp")

-- parseIptablesSLine
unfoldable pub parse_iptables_s_line : Text → Option FirewallRule
unfolding rule_of s_action s_proto to_lower
parse_iptables_s_line line = rule_of (s_action (to_lower line)) (s_proto (to_lower line)) line

unfoldable pub l_action : List Text → Option Text
unfolding text_eq to_lower
l_action [] = none
l_action (f ∷ fs) =
    if text_eq (to_lower f) (codes "accept")
    then some (codes "allow")
    else if text_eq (to_lower f) (codes "drop") || text_eq (to_lower f) (codes "reject")
    then some (codes "deny")
    else none

unfoldable pub l_proto : List Text → Text
unfolding text_eq to_lower
l_proto [] = (codes "tcp")
l_proto (f ∷ []) = (codes "tcp")
l_proto (f ∷ g ∷ fs) = if text_eq (to_lower g) (codes "udp") then (codes "udp") else (codes "tcp")

-- parseIptablesLLine
unfoldable pub parse_iptables_l_line : Text → Option FirewallRule
unfolding rule_of l_action l_proto fields
parse_iptables_l_line line = rule_of (l_action (fields line)) (l_proto (fields line)) line

-- parseIptablesLine
unfoldable pub parse_iptables_line : Text → Option FirewallRule
unfolding parse_iptables_s_line parse_iptables_l_line has_prefix contains trim_space
parse_iptables_line line =
    let l = trim_space line in
    if has_prefix l (codes "-A INPUT")
    then parse_iptables_s_line l
    else if contains l (codes "dpt:")
    then parse_iptables_l_line l
    else none

-- What a line says about the default policy.
unfoldable pub policy_of : Text → Text → Text
unfolding has_prefix contains to_lower
policy_of l before =
    let lower = to_lower l in
    if has_prefix l (codes "-P INPUT") || has_prefix l (codes "Chain INPUT")
    then if contains lower (codes "drop") || contains lower (codes "reject")
      then (codes "deny")
      else if contains lower (codes "accept")
      then (codes "allow")
      else before
    else before

unfoldable pub add_rule : List FirewallRule → Option FirewallRule → List FirewallRule
add_rule rules none = rules
add_rule rules (some r) = rules ++ r ∷ []

-- The body of the loop of parseIptables.
unfoldable pub iptables_line : Text → FirewallConfig → FirewallConfig
unfolding policy_of add_rule parse_iptables_line contains trim_space
iptables_line line fw =
    let l = trim_space line in
    record fw {
      default_incoming = policy_of l fw.default_incoming;
      has_docker_user_chain =
          if contains l (codes "DOCKER-USER") then true else fw.has_docker_user_chain;
      rules = add_rule fw.rules (parse_iptables_line l);
    }

unfoldable pub iptables_lines : List Text → FirewallConfig → FirewallConfig
unfolding iptables_line
iptables_lines [] fw = fw
iptables_lines (l ∷ ls) fw = iptables_lines ls (iptables_line l fw)

-- parseIptables
unfoldable pub parse_iptables : FirewallConfig → Text → FirewallConfig
unfolding iptables_lines split_byte
parse_iptables fw text =
    iptables_lines (split_byte 10 text) (record fw { engine = (codes "iptables") })
