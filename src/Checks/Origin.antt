-- ===== src/Checks/Origin.antt =====
-- internal/checks: what a finding of a check keeps of the check's entry in the catalog.
pub mod Containers
pub mod Settings
pub mod Network
pub mod Host
pub mod Registered
use keelix.Prelude.{
  Bool, true, false, List, [], ◌∷◌, ◌++◌, Option, none, some, ◌≡◌, refl, All, if◌then◌else◌,
}
use keelix.Text.{Text}
use keelix.Model.Check.{CheckGroup}
use keelix.Model.Finding.{Finding, ControlRef, TextMap}
use keelix.Model.Signals.{ConfigFact}
use keelix.Model.Stack.{Stack, Service}
use keelix.Model.Scan.{ScanContext}
use keelix.Catalog.{finding, pass}
use keelix.Checks.{
  failing, passing, no_collector, for_each, or_pass, with_list, with_services, over_services,
  report_if, services_of, config_by_schema,
}
use keelix.Checks.Services.{with_config, over_config, undiscovered}

-- What Entry.Finding and Entry.Pass copy and a check leaves as it is.
abbrev pub origin : Finding → Text × CheckGroup × Text × List ControlRef
origin f = (f.check_id, f.group, f.title, f.controls)

abbrev pub IsFrom : Text → Finding → Type 0
IsFrom id f = origin f ≡ origin (failing id)

abbrev pub AreFrom : Text → List Finding → Type 0
AreFrom id fs = All (IsFrom id) fs

All-append {ℓ κ} :
    {A : Type ℓ} (P : A → Type κ) (xs ys : List A) → All P xs → All P ys → All P (xs ++ ys)
All-append P [] ys h k = k
All-append P (x ∷ xs) ys (p, h) k = (p, All-append P xs ys h k)

module _ (id : Text) where
  pub if-AreFrom :
      (b : Bool) (fs gs : List Finding)
      → AreFrom id fs
      → AreFrom id gs
      → AreFrom id (if b then fs else gs)
  if-AreFrom true fs gs h k = h
  if-AreFrom false fs gs h k = k

  pub report_if-AreFrom : (b : Bool) (f : Finding) → IsFrom id f → AreFrom id (report_if b f)
  report_if-AreFrom b f h = if-AreFrom b (f ∷ []) [] (h, tt) tt

  -- One finding or another.
  pub either-AreFrom :
      (b : Bool) (f g : Finding)
      → IsFrom id f
      → IsFrom id g
      → AreFrom id (if b then f ∷ [] else g ∷ [])
  either-AreFrom b f g h k = if-AreFrom b (f ∷ []) (g ∷ []) (h, tt) (k, tt)

  pub third-AreFrom :
      (b c : Bool) (f g h : Finding)
      → IsFrom id f
      → IsFrom id g
      → IsFrom id h
      → AreFrom id (if b then f ∷ [] else if c then g ∷ [] else h ∷ [])
  third-AreFrom true c f g h k l m = (k, tt)
  third-AreFrom false c f g h k l m = either-AreFrom c g h l m

  -- What depends on a part of the context that may be missing.
  pub option-AreFrom :
      {A : Type 0} (o : Option A) (fs : List Finding) (body : A → List Finding)
      → AreFrom id fs
      → ((x : A) → AreFrom id (body x))
      → AreFrom id (elim o [ none ↦ fs | some x ↦ body x ])
  option-AreFrom none fs body h k = h
  option-AreFrom (some x) fs body h k = k x

  pub passing-AreFrom : (detail : Text) → AreFrom id (passing id detail)
  unfolding pass finding
  passing-AreFrom detail = (refl, tt)

  pub no_collector-AreFrom : AreFrom id (no_collector id)
  unfolding finding
  no_collector-AreFrom = (refl, tt)

  pub for_each-AreFrom :
      {A : Type 0} (body : A → List Finding)
      → ((x : A) → AreFrom id (body x))
      → (xs : List A) → AreFrom id (for_each body xs)
  unfolding for_each
  for_each-AreFrom body h [] = tt
  for_each-AreFrom body h (x ∷ xs) =
      All-append (IsFrom id) (body x) (for_each body xs) (h x) (for_each-AreFrom body h xs)

  pub or_pass-AreFrom :
      (detail : Text) (fs : List Finding) → AreFrom id fs → AreFrom id (or_pass id detail fs)
  unfolding or_pass
  or_pass-AreFrom detail [] h = passing-AreFrom detail
  or_pass-AreFrom detail (f ∷ fs) h = h

  -- A loop whose end passes where nothing was found.
  pub loop-AreFrom :
      {A : Type 0} (detail : Text) (body : A → List Finding) (xs : List A)
      → ((x : A) → AreFrom id (body x))
      → AreFrom id (or_pass id detail (for_each body xs))
  loop-AreFrom detail body xs h =
      or_pass-AreFrom detail (for_each body xs) (for_each-AreFrom body h xs)

  with_list-AreFrom :
      (body : List Service → List Finding) (svcs : List Service)
      → AreFrom id (body svcs)
      → AreFrom id (with_list id body svcs)
  unfolding with_list finding
  with_list-AreFrom body [] h = (refl, tt)
  with_list-AreFrom body (svc ∷ svcs) h = h

  pub with_services-AreFrom :
      (body : List Service → List Finding) (stack : Option Stack)
      → AreFrom id (body (services_of stack))
      → AreFrom id (with_services id body stack)
  unfolding with_services
  with_services-AreFrom body stack h = with_list-AreFrom body (services_of stack) h

  pub over_services-AreFrom :
      (detail : Text) (body : Service → List Finding) (ctx : ScanContext)
      → ((svc : Service) → AreFrom id (body svc))
      → AreFrom id (over_services id detail body ctx)
  unfolding over_services
  over_services-AreFrom detail body ctx h =
      with_services-AreFrom (λ svcs. or_pass id detail (for_each body svcs)) ctx.stack
        (loop-AreFrom detail body (services_of ctx.stack) h)

  pub with_config-AreFrom :
      (body : TextMap → List Finding) (c : Option ConfigFact)
      → ((v : TextMap) → AreFrom id (body v))
      → AreFrom id (with_config (undiscovered id) body c)
  unfolding with_config finding
  with_config-AreFrom body none h = (refl, tt)
  with_config-AreFrom body (some c) h = h c.values

  pub over_config-AreFrom :
      (schema : Text) (body : TextMap → List Finding) (ctx : ScanContext)
      → ((v : TextMap) → AreFrom id (body v))
      → AreFrom id (over_config id schema body ctx)
  unfolding over_config
  over_config-AreFrom schema body ctx h =
      with_config-AreFrom body (config_by_schema ctx.collector schema) h
