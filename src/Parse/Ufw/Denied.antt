-- ===== src/Parse/Ufw/Denied.antt =====
-- internal/parse/parse.go, with the first firewall check: a port that ufw denies.
use mathlib.Core.List.{append-nil}
use mathlib.Core.Option.{none-ne-some}
use keelix.Prelude.{
  ℕ, ◌≤◌, Bool, true, false, ◌&&◌, List, [], ◌∷◌, ◌++◌, Option, none, some, ◌≡◌, ◌≢◌, refl, sym, ap,
  subst, ◌∙◌, All, Mem, here, there, any-Mem, Mem-append_left, Mem-append_right, if◌then◌else◌,
  arith, ◌==◌, ==_refl,
}
use keelix.Text.{
  Text, codes, text_eq, has_prefix, trim_space, trim_left, trim_right, is_space, to_lower,
  lower_byte, split_byte, fields, push_field, fields_from, atoi, itoa, max_int,
}
use keelix.Text.Laws.{index_absent}
use keelix.Text.Decimal.{IsDigit, itoa-IsDigit, atoi-itoa}
use keelix.Model.Stack.{FirewallRule, FirewallConfig, denies}
use keelix.Parse.Iptables.{add_rule}
use keelix.Parse.Ufw.{
  is_ufw, find_action, rest_of, port_proto, ufw_rule, ufw_fields, parse_ufw_line, is_header,
  strip_number, ufw_line, ufw_lines, parse_ufw, load_firewall,
}

-- The line that ufw prints for a port that it denies.
abbrev pub deny_line : ℕ → Text
deny_line n = itoa n ++ codes " DENY Anywhere"

abbrev pub deny_rule : ℕ → FirewallRule
deny_rule n = record {
  action = codes "deny";
  port = n;
  protocol = codes "tcp";
  from = [];
  raw = deny_line n;
}

no_blank : (c : ℕ) → IsDigit c → is_space c ≡ false
unfolding is_space
no_blank c h = ground arith

fields_from-IsDigit :
    (s t f : Text) (fs : List Text)
    → All IsDigit s
    → fields_from t ≡ (f, fs)
    → fields_from (s ++ t) ≡ (s ++ f, fs)
unfolding fields_from
fields_from-IsDigit [] t f fs h e = e
fields_from-IsDigit (c ∷ s) t f fs (d, h) e =
    rw (fields_from-IsDigit s t f fs h e, no_blank c d) refl

trim_right_cons :
    (d c : ℕ) (t : Text) → trim_right (c ∷ t) ≡ c ∷ t → trim_right (d ∷ c ∷ t) ≡ d ∷ c ∷ t
unfolding trim_right
trim_right_cons d c t e = rw (e, trim_right) refl

trim_right-append :
    (s t : Text) (c : ℕ) → trim_right (c ∷ t) ≡ c ∷ t → trim_right (s ++ c ∷ t) ≡ s ++ c ∷ t
trim_right-append [] t c e = e
trim_right-append (d ∷ []) t c e = trim_right_cons d c t e
trim_right-append (d ∷ x ∷ s) t c e =
    trim_right_cons d x (s ++ c ∷ t) (trim_right-append (x ∷ s) t c e)

-- What the steps make of a line that begins with a digit.
module _ (c : ℕ) (s : Text) (d : IsDigit c) where
  trim_left_digit : trim_left (c ∷ s) ≡ c ∷ s
  unfolding trim_left
  trim_left_digit = rw (no_blank c d) refl

  is_header_digit : is_header (c ∷ s) ≡ false
  unfolding is_header has_prefix text_eq
  is_header_digit = ground arith

  default_digit : has_prefix (to_lower (c ∷ s)) (codes "default:") ≡ false
  unfolding to_lower lower_byte has_prefix
  default_digit = ground arith

  strip_number_digit : strip_number (c ∷ s) ≡ c ∷ s
  unfolding strip_number has_prefix
  strip_number_digit = ground arith

ufw_line_digit :
    (c : ℕ) (s : Text) (fw : FirewallConfig)
    → IsDigit c
    → ufw_line (c ∷ s) fw ≡ record fw { rules = add_rule fw.rules (parse_ufw_line (c ∷ s)) }
unfolding ufw_line
ufw_line_digit c s fw d =
    rw (default_digit c s d, is_header_digit c s d, strip_number_digit c s d) refl

no_slash : (s : Text) → All IsDigit s → All (λ c. c ≢ b'/') s
no_slash [] h = tt
no_slash (c ∷ s) (d, h) = (omega arith, no_slash s h)

port_proto-itoa : (n : ℕ) → port_proto (itoa n) ≡ (itoa n, codes "tcp")
unfolding port_proto
port_proto-itoa n =
    rw (index_absent (itoa n) [] b'/' (no_slash (itoa n) (itoa-IsDigit n)), port_proto) refl

push_field_cons :
    (f : Text) (fs : List Text) (c : ℕ) (s : Text) → f ≡ c ∷ s → push_field f fs ≡ f ∷ fs
unfolding push_field
push_field_cons f fs c s e = rw e refl

abbrev words : List Text
words = codes "DENY" ∷ codes "Anywhere" ∷ []

blank_words : fields_from (codes " DENY Anywhere") ≡ ([], words)
unfolding fields_from push_field is_space
blank_words = refl

module _ (n c : ℕ) (s : Text) (le : n ≤ max_int) (e : itoa n ≡ c ∷ s) where
  fields-deny_line : fields (deny_line n) ≡ itoa n ∷ words
  unfolding fields
  fields-deny_line =
      ap (λ (p : Text × List Text). push_field p.0 p.1)
        (fields_from-IsDigit (itoa n) (codes " DENY Anywhere") [] words (itoa-IsDigit n)
          blank_words)
      ∙ (ap (λ z. push_field z words) (append-nil (itoa n)) ∙ push_field_cons (itoa n) words c s e)

  deny_fields : ufw_fields (itoa n ∷ words) (find_action words) (deny_line n) ≡ some (deny_rule n)
  unfolding ufw_fields find_action to_lower text_eq ufw_rule
  deny_fields =
      ap (λ (p : Text × Text). ufw_rule (atoi p.0) (codes "deny") p.1 (deny_line n))
        (port_proto-itoa n)
      ∙ ap (λ z. ufw_rule z (codes "deny") (codes "tcp") (deny_line n)) (atoi-itoa n le)

  parse_ufw_line-deny_line : parse_ufw_line (deny_line n) ≡ some (deny_rule n)
  unfolding parse_ufw_line
  parse_ufw_line-deny_line =
      ap (λ fs. ufw_fields fs (find_action (rest_of fs)) (deny_line n)) fields-deny_line
      ∙ deny_fields

  -- Its first byte is a digit.
  first-IsDigit : IsDigit c
  first-IsDigit = (subst (All IsDigit) e (itoa-IsDigit n)).0

  trim_space-deny_line : trim_space (deny_line n) ≡ deny_line n
  unfolding trim_space
  trim_space-deny_line =
      ap trim_right (
        ap (λ z. trim_left (z ++ codes " DENY Anywhere")) e
        ∙ trim_left_digit c (s ++ codes " DENY Anywhere") first-IsDigit
        ∙ ap (λ z. z ++ codes " DENY Anywhere") (sym e))
      ∙ trim_right-append (itoa n) (codes "DENY Anywhere") 32 (unfold trim_right is_space in refl)

  ufw_line-deny_line :
      (fw : FirewallConfig)
      → ufw_line (trim_space (deny_line n)) fw ≡ record fw { rules = fw.rules ++ deny_rule n ∷ [] }
  ufw_line-deny_line fw =
      ap (λ z. ufw_line z fw) (trim_space-deny_line ∙ ap (λ z. z ++ codes " DENY Anywhere") e)
      ∙ ufw_line_digit c (s ++ codes " DENY Anywhere") fw first-IsDigit
      ∙ ap
          (λ z. record fw {
            rules = add_rule fw.rules (parse_ufw_line (z ++ codes " DENY Anywhere"));
          })
          (sym e)
      ∙ ap (λ z. record fw { rules = add_rule fw.rules z }) parse_ufw_line-deny_line
      ∙ (unfold add_rule in refl)

no_number : atoi [] ≡ none
unfolding atoi
no_number = refl

itoa_cons : (n : ℕ) → n ≤ max_int → (c : ℕ) × (s : Text) × (itoa n ≡ c ∷ s)
itoa_cons n le = cons_of (itoa n) (atoi-itoa n le)
  where
    cons_of : (t : Text) → atoi t ≡ some n → (c : ℕ) × (s : Text) × (t ≡ c ∷ s)
    cons_of [] e = absurd (none-ne-some _ (sym no_number ∙ e))
    cons_of (c ∷ s) e = (c, s, refl)

if_keeps :
    (b : Bool) (x y : FirewallConfig) {r : FirewallRule}
    → Mem r x.rules
    → Mem r y.rules
    → Mem r (if b then x else y).rules
if_keeps true x y h k = h
if_keeps false x y h k = k

if_chosen :
    (b : Bool) (x y : FirewallConfig) {r : FirewallRule}
    → b ≡ true
    → Mem r x.rules
    → Mem r (if b then x else y).rules
if_chosen true x y e h = h
if_chosen false x y e h = absurd (cc)

add_rule_keeps :
    (rules : List FirewallRule) (o : Option FirewallRule) {r : FirewallRule}
    → Mem r rules
    → Mem r (add_rule rules o)
unfolding add_rule
add_rule_keeps rules none m = m
add_rule_keeps rules (some q) m = Mem-append_left rules (q ∷ []) m

-- The loop only adds rules.
ufw_line_keeps :
    (l : Text) (fw : FirewallConfig) {r : FirewallRule}
    → Mem r fw.rules
    → Mem r (ufw_line l fw).rules
unfolding ufw_line
ufw_line_keeps l fw m =
    if_keeps (has_prefix (to_lower l) (codes "default:")) _ _ m
      (if_keeps (is_header l) fw _ m (add_rule_keeps fw.rules (parse_ufw_line (strip_number l)) m))

ufw_lines_keeps :
    (ls : List Text) (fw : FirewallConfig) {r : FirewallRule}
    → Mem r fw.rules
    → Mem r (ufw_lines ls fw).rules
unfolding ufw_lines
ufw_lines_keeps [] fw m = m
ufw_lines_keeps (l ∷ ls) fw m =
    ufw_lines_keeps ls (ufw_line (trim_space l) fw) (ufw_line_keeps (trim_space l) fw m)

ufw_lines-deny :
    (n : ℕ) (ls : List Text) (fw : FirewallConfig)
    → n ≤ max_int
    → Mem (deny_line n) ls
    → Mem (deny_rule n) (ufw_lines ls fw).rules
unfolding ufw_lines
ufw_lines-deny n [] fw le m = elim m [ ]
ufw_lines-deny n (l ∷ ls) fw le here =
    let (c, s, e) = itoa_cons n le in
    ufw_lines_keeps ls (ufw_line (trim_space l) fw) (
      subst (λ z. Mem (deny_rule n) (z.rules)) (sym (ufw_line-deny_line n c s le e fw))
        (Mem-append_right fw.rules (deny_rule n ∷ []) here))
ufw_lines-deny n (l ∷ ls) fw le (there m) = ufw_lines-deny n ls (ufw_line (trim_space l) fw) le m

-- A line of ufw's dump that denies a port makes the configuration deny it.
pub load_firewall-denies :
    (path text : Text) (n : ℕ)
    → n ≤ max_int
    → is_ufw text ≡ true
    → Mem (deny_line n) (split_byte 10 text)
    → denies (some (load_firewall path text)) n ≡ true
unfolding load_firewall parse_ufw denies text_eq
load_firewall-denies path text n le ufw m =
    let found : Mem (deny_rule n) (load_firewall path text).rules =
      if_chosen (is_ufw text) _ _ ufw (ufw_lines-deny n (split_byte 10 text) _ le m) in
    any-Mem (λ (r : FirewallRule). r.port == n && text_eq r.action (codes "deny")) found
      (rw (==_refl n) refl)
