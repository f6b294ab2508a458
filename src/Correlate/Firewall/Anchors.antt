-- ===== src/Correlate/Firewall/Anchors.antt =====
-- How ruleAllowsPort and firewallDrops match the port of an nftables rule.
use keelix.Prelude.{
  subst, ℕ, suc, ◌+◌, ◌≡◌, ◌≢◌, ◌↔◌, refl, sym, ap, ◌∙◌, Bool, true, false, ◌&&◌, List, [], ◌∷◌,
  ◌++◌, map, none, some, arith, All, Mem, here, there, length, drop, any, Bool-cases, inl, inr,
}
use mathlib.Core.List.{append_assoc}
use keelix.Text.{Text, codes, has_prefix, index, contains, to_lower, itoa, text_eq, equal_fold}
use keelix.Text.Decimal.{IsDigit, itoa-IsDigit, itoa-injective}
use keelix.Text.Laws.{has_prefix-append, contains-append, contains-append-cons, index_absent}
use keelix.Model.Signals.{FirewallState}
use keelix.Correlate.Firewall.{
  ends_token, anchored_match, nft_port_match, nft_allows, rule_allows, rule_allows_port, rule_drops,
  firewall_drops,
}

-- The needle stands at the start of digits that a blank ends, and a blank follows it: then it is
-- all of the digits.
token_match : Text → Text → Bool
token_match s es = has_prefix s es && ends_token (drop (length es) s)

token_match_iff :
    (ds es r : Text)
    → All IsDigit ds
    → All IsDigit es
    → (token_match (ds ++ b' ' ∷ r) es ≡ true) ↔ (ds ≡ es)
unfolding token_match has_prefix ends_token
token_match_iff [] [] r hd he = ground arith
token_match_iff [] (e ∷ es) r hd he = ground arith
token_match_iff (d ∷ ds) [] r hd he = ground arith
token_match_iff (d ∷ ds) (e ∷ es) r hd he = ground (arith, token_match_iff ds es r hd.1 he.1)

-- An nftables rule for one port, with what follows the number.
abbrev pub nft_rule : ℕ → Text → Text
nft_rule n verdict = codes "tcp dport " ++ (itoa n ++ b' ' ∷ verdict)

abbrev needle : ℕ → Text
needle p = codes "dport " ++ itoa p

abbrev NoD : ℕ → Type 0
NoD c = c ≢ b'd'

digits-NoD : (ds : Text) → All IsDigit ds → All NoD ds
digits-NoD [] h = tt
digits-NoD (d ∷ ds) (h, hs) = (ground arith, digits-NoD ds hs)

All-append : (xs ys : Text) → All NoD xs → All NoD ys → All NoD (xs ++ ys)
All-append [] ys h k = k
All-append (x ∷ xs) ys (h, hs) k = (h, All-append xs ys hs k)

index_found :
    (p n : ℕ) (v : Text)
    → has_prefix (itoa n ++ b' ' ∷ v) (itoa p) ≡ true
    → index (nft_rule n v) (needle p) ≡ some 4
unfolding index has_prefix
index_found p n v h = rw h

index_missed :
    (p n : ℕ) (v : Text)
    → has_prefix (itoa n ++ b' ' ∷ v) (itoa p) ≡ false
    → All NoD v
    → index (nft_rule n v) (needle p) ≡ none
unfolding index has_prefix
index_missed p n v h clean =
    let rest : All NoD (itoa n ++ b' ' ∷ v) =
      All-append (itoa n) (b' ' ∷ v) (digits-NoD (itoa n) (itoa-IsDigit n)) (ground arith, clean) in
    let gone = index_absent (itoa n ++ b' ' ∷ v) (codes "port " ++ itoa p) b'd' rest in rw (h, gone)

after_needle :
    (p n : ℕ) (v : Text)
    → drop (4 + length (needle p)) (nft_rule n v) ≡ drop (length (itoa p)) (itoa n ++ b' ' ∷ v)
after_needle p n v =
    let e : 4 + length (needle p) ≡ suc (suc (suc (suc (length (needle p))))) = omega arith in rw e

anchored_hit :
    (rule key : Text) (i : ℕ)
    → index rule key ≡ some i
    → anchored_match rule key ≡ ends_token (drop (i + length key) rule)
unfolding anchored_match
anchored_hit rule key i h = rw (anchored_match, h)

anchored_miss : (rule key : Text) → index rule key ≡ none → anchored_match rule key ≡ false
unfolding anchored_match
anchored_miss rule key h = rw (anchored_match, h)

nft_found :
    (p n : ℕ) (v : Text)
    → has_prefix (itoa n ++ b' ' ∷ v) (itoa p) ≡ true
    → nft_port_match p (nft_rule n v) ≡ ends_token (drop (length (itoa p)) (itoa n ++ b' ' ∷ v))
unfolding nft_port_match
nft_found p n v h =
    anchored_hit (nft_rule n v) (needle p) 4 (index_found p n v h)
    ∙ ap ends_token (after_needle p n v)

nft_missed :
    (p n : ℕ) (v : Text)
    → has_prefix (itoa n ++ b' ' ∷ v) (itoa p) ≡ false
    → All NoD v
    → nft_port_match p (nft_rule n v) ≡ false
unfolding nft_port_match
nft_missed p n v h clean = anchored_miss (nft_rule n v) (needle p) (index_missed p n v h clean)

token_of : (p n : ℕ) (v : Text) → (token_match (itoa n ++ b' ' ∷ v) (itoa p) ≡ true) ↔ (n ≡ p)
token_of p n v =
    let t = token_match_iff (itoa n) (itoa p) v (itoa-IsDigit n) (itoa-IsDigit p) in
    (λ h. itoa-injective n p (t.0 h), λ e. t.1 (ap itoa e))

nft_port_match_token :
    (p n : ℕ) (v : Text)
    → All NoD v
    → nft_port_match p (nft_rule n v) ≡ token_match (itoa n ++ b' ' ∷ v) (itoa p)
unfolding token_match
nft_port_match_token p n v clean = elim (Bool-cases (has_prefix (itoa n ++ b' ' ∷ v) (itoa p))) [
  | inl h ↦ rw (nft_found p n v h, h)
  | inr h ↦ rw (nft_missed p n v h clean, h)
]

-- For a verdict that has no "d", nftPortMatch finds the port exactly when it is the whole number.
nft_port_match_iff :
    (p n : ℕ) (v : Text) → All NoD v → (nft_port_match p (nft_rule n v) ≡ true) ↔ (n ≡ p)
nft_port_match_iff p n v clean = rw (nft_port_match_token p n v clean) (token_of p n v)

contains-prefix_digits :
    (p n : ℕ) (v : Text)
    → has_prefix (itoa n ++ b' ' ∷ v) (itoa p) ≡ true
    → contains (nft_rule n v) (needle p) ≡ true
unfolding contains
contains-prefix_digits p n v h = rw (index_found p n v h)

-- A ruleset that accepts the listed ports, one rule each.
abbrev pub accepting : List ℕ → FirewallState
accepting ns = record {
  backend = codes "nftables";
  default_inbound = codes "drop";
  rules = map (λ n. nft_rule n (codes "accept")) ns;
}

contains-after : (s : Text) (c : ℕ) (p : Text) → contains (s ++ c ∷ p) p ≡ true
contains-after [] c p = contains-append (c ∷ []) p
contains-after (d ∷ s) c p = contains-append-cons d (s ++ c ∷ p) p (contains-after s c p)

to_lower-append : (s t : Text) → to_lower (s ++ t) ≡ to_lower s ++ to_lower t
unfolding to_lower
to_lower-append [] t = refl
to_lower-append (c ∷ s) t = rw (to_lower-append s t) refl

nft_rule_accepts :
    (n : ℕ) → contains (to_lower (nft_rule n (codes "accept"))) (codes "accept") ≡ true
unfolding to_lower
nft_rule_accepts n =
    rw (to_lower-append (codes "tcp dport " ++ itoa n) (codes " accept"))
      (contains-after (to_lower (codes "tcp dport " ++ itoa n)) b' ' (codes "accept"))

and_true : (b : Bool) → (b && true) ≡ b
and_true true = refl
and_true false = refl

nft_allows_iff : (p n : ℕ) → (nft_allows p (nft_rule n (codes "accept")) ≡ true) ↔ (n ≡ p)
unfolding nft_allows
nft_allows_iff p n =
    rw (nft_rule_accepts n, and_true (nft_port_match p (nft_rule n (codes "accept"))))
      (nft_port_match_iff p n (codes "accept") (ground arith))

abbrev rules_of : List ℕ → List Text
rules_of ns = map (λ n. nft_rule n (codes "accept")) ns

any_forth : (p : ℕ) (ns : List ℕ) → any (nft_allows p) (rules_of ns) ≡ true → Mem p ns
unfolding any
any_forth p [] h = absurd (ground arith)
any_forth p (n ∷ ns) h = elim (Bool-cases (nft_allows p (nft_rule n (codes "accept")))) [
  | inl e ↦ subst (λ x. Mem p (x ∷ ns)) (sym ((nft_allows_iff p n).0 e)) here
  | inr e ↦ there (any_forth p ns (ground (arith, e)))
]

any_back : (p : ℕ) (ns : List ℕ) → Mem p ns → any (nft_allows p) (rules_of ns) ≡ true
unfolding any
any_back p [] m = elim m [ ]
any_back p (n ∷ ns) here = ground (arith, (nft_allows_iff p p).1 refl)
any_back p (n ∷ ns) (there m) = ground (arith, any_back p ns m)

-- For nftables rules that accept the ports of a list, ruleAllowsPort answers yes on the ports of
-- the list and on no other.
pub rule_allows_port_iff :
    (p : ℕ) (ns : List ℕ) → (rule_allows_port (accepting ns) p ≡ true) ↔ Mem p ns
unfolding rule_allows_port rule_allows text_eq to_lower
rule_allows_port_iff p ns = (any_forth p ns, any_back p ns)

-- One rule that drops port n, under a policy that accepts.
abbrev pub dropping : ℕ → FirewallState
dropping n = record {
  backend = codes "nftables";
  default_inbound = codes "accept";
  rules = nft_rule n (codes "drop") ∷ [];
}

nft_rule_drops : (n : ℕ) → contains (nft_rule n (codes "drop")) (codes "drop") ≡ true
nft_rule_drops n = contains-after (codes "tcp dport " ++ itoa n) b' ' (codes "drop")

rule_drops_prefix :
    (p n : ℕ)
    → has_prefix (itoa n ++ b' ' ∷ codes "drop") (itoa p) ≡ true
    → rule_drops p (nft_rule n (codes "drop")) ≡ true
unfolding rule_drops
rule_drops_prefix p n h =
    rw (contains-prefix_digits p n (codes "drop") h, nft_rule_drops n) (ground arith)

abbrev NoA : ℕ → Type 0
NoA c = c ≢ b'a'

lower-NoA : (ds r : Text) → All IsDigit ds → All NoA (to_lower r) → All NoA (to_lower (ds ++ r))
unfolding to_lower
lower-NoA [] r h k = k
lower-NoA (d ∷ ds) r (h, hs) k = (ground arith, lower-NoA ds r hs k)

drop_rule-NoA : (n : ℕ) → All NoA (to_lower (nft_rule n (codes "drop")))
unfolding to_lower
drop_rule-NoA n =
    let tail = lower-NoA (itoa n) (codes " drop") (itoa-IsDigit n) (ground arith) in
    ground (arith, tail)

drop_has_no_accept :
    (n : ℕ) → contains (to_lower (nft_rule n (codes "drop"))) (codes "accept") ≡ false
unfolding contains
drop_has_no_accept n =
    rw (index_absent (to_lower (nft_rule n (codes "drop"))) (codes "ccept") b'a' (drop_rule-NoA n))
      refl

and_false : (b : Bool) → (b && false) ≡ false
and_false true = refl
and_false false = refl

drop_allows_nothing : (p n : ℕ) → nft_allows p (nft_rule n (codes "drop")) ≡ false
unfolding nft_allows
drop_allows_nothing p n =
    rw (drop_has_no_accept n) (and_false (nft_port_match p (nft_rule n (codes "drop"))))

prefix_of :
    (p n : ℕ) (rest : Text)
    → itoa n ≡ itoa p ++ rest
    → has_prefix (itoa n ++ b' ' ∷ codes "drop") (itoa p) ≡ true
prefix_of p n rest e =
    rw (e, append_assoc (itoa p) rest (b' ' ∷ codes "drop"))
      (has_prefix-append (itoa p) (rest ++ b' ' ∷ codes "drop"))

-- With one nftables rule that drops a port, under a policy that accepts, firewallDrops answers yes
-- for every port whose digits begin the number of the rule.
firewall_drops_prefix :
    (p n : ℕ) (rest : Text) → itoa n ≡ itoa p ++ rest → firewall_drops (dropping n) p ≡ true
unfolding firewall_drops rule_allows_port rule_allows any text_eq to_lower equal_fold
firewall_drops_prefix p n rest e =
    rw (drop_allows_nothing p n, rule_drops_prefix p n (prefix_of p n rest e)) refl
