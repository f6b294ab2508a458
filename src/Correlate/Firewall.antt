-- ===== src/Correlate/Firewall.antt =====
-- ruleAllowsPort and firewallDrops of classify.go.
pub mod Anchors
use keelix.Prelude.{
  ℕ, suc, ◌+◌, Bool, true, false, not, ◌&&◌, ◌||◌, List, [], ◌∷◌, ◌++◌, Option, none, some, ◌==◌,
  if◌then◌else◌, any, drop, length,
}
use keelix.Text.{
  Text, codes, text_eq, has_prefix, index, contains, to_lower, to_upper, trim_space, equal_fold,
  itoa,
}
use keelix.Model.Signals.{FirewallState}

-- The byte after a match, if there is one, is a blank.
unfoldable pub ends_token : Text → Bool
ends_token [] = true
ends_token (ch ∷ rest) = ch == b' ' || ch == b'\t' || ch == b'\n' || ch == b'\r'

-- The body that nftPortMatch and pfPortMatch share: the first occurrence of the needle is followed
-- by a blank or by the end.
unfoldable pub anchored_match : Text → Text → Bool
anchored_match rule needle = elim (index rule needle) [
  | none ↦ false
  | some idx ↦ ends_token (drop (idx + length needle) rule)
]

-- nftPortMatch
unfoldable pub nft_port_match : ℕ → Text → Bool
nft_port_match port rule = anchored_match rule (codes "dport " ++ itoa port)

-- pfPortMatch
unfoldable pub pf_port_match : ℕ → Text → Bool
pf_port_match port rule = anchored_match rule (codes "port " ++ itoa port)

ufw_token : Text → Text → Bool
ufw_token rule needle = has_prefix (trim_space rule) needle || contains rule (b' ' ∷ needle)

-- ufwPortMatch
unfoldable pub ufw_port_match : ℕ → Text → Bool
unfolding ufw_token
ufw_port_match port rule =
    ufw_token rule (itoa port ++ codes "/tcp") || ufw_token rule (itoa port ++ codes "/udp")

ufw_allows : ℕ → Text → Bool
ufw_allows port rule = ufw_port_match port rule && contains (to_upper rule) (codes "ALLOW")

unfoldable pub nft_allows : ℕ → Text → Bool
nft_allows port rule = nft_port_match port rule && contains (to_lower rule) (codes "accept")

pf_allows : ℕ → Text → Bool
pf_allows port rule =
    has_prefix (to_lower (trim_space rule)) (codes "pass") && pf_port_match port rule

-- The default case trims after it lowers.
pf_allows_any : ℕ → Text → Bool
pf_allows_any port rule =
    has_prefix (trim_space (to_lower rule)) (codes "pass") && pf_port_match port rule

-- The switch on the backend.
unfoldable pub rule_allows : Text → ℕ → Text → Bool
unfolding ufw_allows pf_allows pf_allows_any
rule_allows backend port rule =
    if text_eq backend (codes "ufw")
    then ufw_allows port rule
    else if text_eq backend (codes "nftables")
    then nft_allows port rule
    else if text_eq backend (codes "pf")
    then pf_allows port rule
    else ufw_allows port rule || nft_allows port rule || pf_allows_any port rule

-- ruleAllowsPort
unfoldable pub rule_allows_port : FirewallState → ℕ → Bool
rule_allows_port fw port = any (rule_allows (to_lower fw.backend) port) fw.rules

-- The condition of the last loop of firewallDrops.
unfoldable pub rule_drops : ℕ → Text → Bool
rule_drops port rule =
    contains rule (codes "dport " ++ itoa port)
    && (contains rule (codes "DROP") || contains rule (codes "drop") || contains rule (codes "wg"))

-- firewallDrops
unfoldable pub firewall_drops : FirewallState → ℕ → Bool
firewall_drops fw port =
    if rule_allows_port fw port
    then false
    else if equal_fold fw.default_inbound (codes "drop")
        || equal_fold fw.default_inbound (codes "deny")
    then true
    else any (rule_drops port) fw.rules
