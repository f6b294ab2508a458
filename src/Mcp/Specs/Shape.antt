-- ===== src/Mcp/Specs/Shape.antt =====
-- The shape of the derived specs and their order.
use keelix.Prelude.{
  ◌≡◌, ◌≢◌, refl, ◌⊎◌, inl, inr, Bool, true, false, not, ◌||◌, List, [], ◌∷◌, ◌++◌, Option, none,
  some, All, if◌then◌else◌, Bool-cases, arith,
}
use keelix.Prelude.Sort.{IsSorted, sort-All, sort-IsSorted}
use keelix.Text.{Text, codes, text_eq}
use keelix.Text.Laws.{text_lt_asym, text_lt_trans}
use keelix.Model.Finding.{TextMap}
use keelix.Model.Signals.{Signals, ConfigFact}
use keelix.Mcp.Specs.{
  ServerSpec, choose_spec, server_spec, add_spec, specs_of_names, specs_of_configs,
  derive_server_specs, name_lt,
}

-- A local server has a command to run; a remote one has nothing to run.
pub data IsProbeable (s : ServerSpec) : Type 0 where
  local : s.transport ≡ codes "stdio" → s.command ≢ [] → s.url ≡ [] → IsProbeable s
  remote :
      (s.transport ≡ codes "http") ⊎ (s.transport ≡ codes "sse")
      → s.command ≡ []
      → s.args ≡ []
      → s.env_keys ≡ []
      → IsProbeable s

HoldsOf : Option ServerSpec → Type 0
HoldsOf none = Unit
HoldsOf (some s) = IsProbeable s

remote_type :
    (b : Bool)
    → ((if b then codes "sse" else codes "http") ≡ codes "http")
      ⊎ ((if b then codes "sse" else codes "http") ≡ codes "sse")
remote_type true = inr refl
remote_type false = inl refl

choose_spec-IsProbeable :
    (source name cmd url typ : Text) (args env : List Text)
    → HoldsOf (choose_spec source name cmd url typ args env)
unfolding choose_spec HoldsOf text_eq
choose_spec-IsProbeable source name (c ∷ cmd) url typ args env =
    local refl (λ e. absurd (ground (arith, e))) refl
choose_spec-IsProbeable source name [] url typ args env =
    elim (Bool-cases
      (not (text_eq url []) || text_eq typ (codes "http") || text_eq typ (codes "sse"))) [
        | inl probe ↦ rw probe (remote (remote_type _) refl refl refl)
        | inr skip ↦ rw skip tt
      ]

add_spec-IsProbeable :
    (o : Option ServerSpec) (specs : List ServerSpec)
    → HoldsOf o
    → All IsProbeable specs
    → All IsProbeable (add_spec o specs)
unfolding HoldsOf
add_spec-IsProbeable none specs h hs = hs
add_spec-IsProbeable (some s) specs h hs = (h, hs)

specs_of_names-IsProbeable :
    (source : Text) (values : TextMap) (names : List Text)
    → All IsProbeable (specs_of_names source values names)
unfolding specs_of_names server_spec
specs_of_names-IsProbeable source values [] = tt
specs_of_names-IsProbeable source values (n ∷ ns) =
    add_spec-IsProbeable _ _ (choose_spec-IsProbeable source n _ _ _ _ _)
      (specs_of_names-IsProbeable source values ns)

All-append :
    (P : ServerSpec → Type 0) (xs ys : List ServerSpec) → All P xs → All P ys → All P (xs ++ ys)
All-append P [] ys h k = k
All-append P (x ∷ xs) ys (h, hs) k = (h, All-append P xs ys hs k)

specs_of_configs-IsProbeable : (cfs : List ConfigFact) → All IsProbeable (specs_of_configs cfs)
unfolding specs_of_configs
specs_of_configs-IsProbeable [] = tt
specs_of_configs-IsProbeable (cf ∷ cfs) = elim (Bool-cases cf.schema_known) [
  | inl known ↦ rw known (
      All-append IsProbeable _ _ (specs_of_names-IsProbeable cf.source cf.values _)
        (specs_of_configs-IsProbeable cfs))
  | inr unknown ↦ rw unknown (specs_of_configs-IsProbeable cfs)
]

-- Every derived spec is a local server with a command or a remote one without, and the specs are
-- sorted by their names.
pub derive_server_specs-IsSorted :
    (sig : Option Signals)
    → All IsProbeable (derive_server_specs sig) × IsSorted name_lt (derive_server_specs sig)
unfolding derive_server_specs IsSorted
derive_server_specs-IsSorted none = (tt, tt)
derive_server_specs-IsSorted (some sig) = (
  sort-All name_lt IsProbeable (specs_of_configs sig.configs)
      (specs_of_configs-IsProbeable sig.configs),
  sort-IsSorted name_lt (λ a b. text_lt_asym a.name b.name)
      (λ a b c. text_lt_trans a.name b.name c.name) (specs_of_configs sig.configs),
)
