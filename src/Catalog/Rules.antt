-- ===== src/Catalog/Rules.antt =====
-- internal/catalog/catalog.go: what holds of every entry of the catalog.
use keelix.Prelude.{
  Bool, true, false, not, ◌&&◌, ◌||◌, List, [], ◌∷◌, Option, none, some, ◌≡◌, refl, ◌⊎◌, arith,
  &&_iff, ||_iff, ap, Bool-cases, inl, inr,
}
use keelix.Text.{Text, text_eq, lookup}
use keelix.Text.Laws.{text_eq_iff}
use keelix.Model.Finding.{Severity, critical, is_critical}
use keelix.Model.Check.{CheckGroup, group_service, group_firewall}
use keelix.Catalog.Types.{Entry}
use keelix.Catalog.{entries, find, get}

is_config : CheckGroup → Bool
is_config g = text_eq g group_service || text_eq g group_firewall

keeps_rule : Text → Entry → Bool
keeps_rule id e =
    text_eq e.id id
    && ((not (is_critical e.severity) || (not (is_config e.group) || e.fatal))
        && (not e.fatal || is_critical e.severity))

all_keep : List (Text × Entry) → Bool
all_keep [] = true
all_keep ((id, e) ∷ m) = keeps_rule id e && all_keep m

option_keeps : Option (List (Text × Entry)) → Bool
option_keeps none = false
option_keeps (some m) = all_keep m

entries_keep : option_keeps entries ≡ true
unfolding option_keeps all_keep keeps_rule is_config entries text_eq
entries_keep = refl

lookup_keeps :
    (id : Text) (m : List (Text × Entry)) (e : Entry)
    → all_keep m ≡ true
    → lookup id m ≡ some e
    → keeps_rule id e ≡ true
unfolding lookup all_keep
lookup_keeps id [] e all h = cc
lookup_keeps id ((j, d) ∷ m) e all h = elim (Bool-cases (text_eq j id)) [
  | inl same ↦ ground (arith, (text_eq_iff j id).0 same, &&_iff (keeps_rule j d) (all_keep m))
  | inr other ↦ lookup_keeps id m e ((&&_iff (keeps_rule j d) (all_keep m)).0 all).1 (ground arith)
]

find_keeps :
    (o : Option (List (Text × Entry))) (id : Text) (e : Entry)
    → option_keeps o ≡ true
    → find o id ≡ some e
    → keeps_rule id e ≡ true
unfolding option_keeps find
find_keeps none id e all h = cc
find_keeps (some m) id e all h = lookup_keeps id m e all h

is_critical→eq : (s : Severity) → is_critical s ≡ true → s ≡ critical
is_critical→eq critical h = refl
is_critical→eq _ h = cc

abbrev pub IsConfig : CheckGroup → Type 0
IsConfig g = (g ≡ group_service) ⊎ (g ≡ group_firewall)

IsConfig-is_config : (g : CheckGroup) → IsConfig g → is_config g ≡ true
unfolding is_config
IsConfig-is_config g (inl e) =
    (||_iff (text_eq g group_service) (text_eq g group_firewall)).1 (inl ((text_eq_iff g _).1 e))
IsConfig-is_config g (inr e) =
    (||_iff (text_eq g group_service) (text_eq g group_firewall)).1 (inr ((text_eq_iff g _).1 e))

-- An entry has the id that it is looked up by; a critical check of a service configuration or of
-- the firewall is fatal, as the comment at fatalImpact asks; and every fatal check is critical.
pub get_rule :
    (id : Text) (e : Entry)
    → get id ≡ some e
    → (e.id ≡ id)
      × (e.severity ≡ critical → IsConfig e.group → e.fatal ≡ true)
      × (e.fatal ≡ true → e.severity ≡ critical)
unfolding get keeps_rule
get_rule id e h =
    let rule = find_keeps entries id e entries_keep h in
    let (same, rest) = (&&_iff (text_eq e.id id) _).0 rule in
    (
      (text_eq_iff e.id id).0 same,
      λ crit config.
          let c : is_critical e.severity ≡ true = ap is_critical crit in
          ground (arith, rest, c, IsConfig-is_config e.group config),
      λ fatal. is_critical→eq e.severity (ground (arith, rest, fatal)),
    )
