-- ===== src/Checks/Secrets/Hidden.antt =====
-- internal/checks/secrets: what the findings tell of the values.
use keelix.Prelude.{List, [], ◌∷◌, Option, some, ◌≡◌, refl, sym, ap, ◌∙◌, any}
use keelix.Text.{Text, codes}
use keelix.Model.Finding.{Finding, TextMap}
use keelix.Model.Stack.{Stack, Service}
use keelix.Model.Scan.{ScanContext}
use keelix.Checks.{Formats, for_each, or_pass, with_list, over_services, services_of}
use keelix.Checks.Secrets.{
  is_literal, sec001, sec001_service, sec001_entry, sec001_finding, sec004, sec004_service,
  sec004_finding, is_secret_literal,
}

-- The same names in the same order, each with a literal in both or in neither.
abbrev pub AreAlike : TextMap → TextMap → Type 0
AreAlike [] [] = Unit {0}
AreAlike ((k, v) ∷ m) ((j, w) ∷ n) = (k ≡ j) × (is_literal v ≡ is_literal w) × AreAlike m n
AreAlike _ _ = ⊥

-- The same services, but for the values in their environments.
abbrev pub AreAlikeServices : List Service → List Service → Type 0
AreAlikeServices [] [] = Unit {0}
AreAlikeServices (s ∷ ss) (r ∷ rs) =
    (r ≡ record s { environment = r.environment })
    × AreAlike s.environment r.environment
    × AreAlikeServices ss rs
AreAlikeServices _ _ = ⊥

sec001_entries-alike :
    (svc : Service) (m n : TextMap)
    → AreAlike m n
    → for_each (sec001_entry svc) m ≡ for_each (sec001_entry svc) n
unfolding for_each sec001_entry
sec001_entries-alike svc [] [] h = refl
sec001_entries-alike svc [] (q ∷ n) h = elim h [ ]
sec001_entries-alike svc (q ∷ m) [] h = elim h [ ]
sec001_entries-alike svc ((k, v) ∷ m) ((j, w) ∷ n) (e, same, h) =
    rw (e, same, sec001_entries-alike svc m n h) refl

is_secret_literal-alike :
    (m n : TextMap) → AreAlike m n → any is_secret_literal m ≡ any is_secret_literal n
unfolding any is_secret_literal
is_secret_literal-alike [] [] h = refl
is_secret_literal-alike [] (q ∷ n) h = elim h [ ]
is_secret_literal-alike (q ∷ m) [] h = elim h [ ]
is_secret_literal-alike ((k, v) ∷ m) ((j, w) ∷ n) (e, same, h) =
    rw (e, same, is_secret_literal-alike m n h) refl

-- A check whose body gives alike services the same findings.
module _ (id detail : Text) (body : Service → List Finding)
    (keeps : (s : Service) (env : TextMap)
      → AreAlike s.environment env
      → body s ≡ body (record s { environment = env })) where
  for_each-alike :
      (ss rs : List Service) → AreAlikeServices ss rs → for_each body ss ≡ for_each body rs
  unfolding for_each
  for_each-alike [] [] h = refl
  for_each-alike [] (r ∷ rs) h = elim h [ ]
  for_each-alike (s ∷ ss) [] h = elim h [ ]
  for_each-alike (s ∷ ss) (r ∷ rs) (e, same, h) =
      let first : body s ≡ body r = keeps s r.environment same ∙ ap body (sym e) in
      rw (first, for_each-alike ss rs h) refl

  with_list-alike :
      (ss rs : List Service)
      → AreAlikeServices ss rs
      → with_list id (λ svcs. or_pass id detail (for_each body svcs)) ss
        ≡ with_list id (λ svcs. or_pass id detail (for_each body svcs)) rs
  unfolding with_list
  with_list-alike [] [] h = refl
  with_list-alike [] (r ∷ rs) h = elim h [ ]
  with_list-alike (s ∷ ss) [] h = elim h [ ]
  with_list-alike (s ∷ ss) (r ∷ rs) h = ap (or_pass id detail) (for_each-alike (s ∷ ss) (r ∷ rs) h)

sec001_service-alike :
    (s : Service) (env : TextMap)
    → AreAlike s.environment env
    → sec001_service s ≡ sec001_service (record s { environment = env })
unfolding sec001_service sec001_entry sec001_finding
sec001_service-alike s env h = sec001_entries-alike s s.environment env h

sec004_service-alike :
    (fmt : Formats) (stack : Option Stack) (s : Service) (env : TextMap)
    → AreAlike s.environment env
    → sec004_service fmt stack s ≡ sec004_service fmt stack (record s { environment = env })
unfolding sec004_service sec004_finding
sec004_service-alike fmt stack s env h = rw (is_secret_literal-alike s.environment env h) refl

abbrev pub with_services_of : ScanContext → Stack → List Service → ScanContext
with_services_of ctx s svcs = record ctx { stack = some (record s { services = svcs }) }

-- The findings of the checks for secrets in plain text and in the environment do not depend on the
-- values of the variables, but on which of them are literals: other values give the same findings.
pub secrets_hidden :
    (fmt : Formats) (ctx : ScanContext) (s : Stack) (svcs : List Service)
    → ctx.stack ≡ some s
    → AreAlikeServices s.services svcs
    → (sec001 ctx ≡ sec001 (with_services_of ctx s svcs))
      × (sec004 fmt ctx ≡ sec004 fmt (with_services_of ctx s svcs))
unfolding sec001 sec004 over_services sec004_service
secrets_hidden fmt ctx s svcs e h = (
  ap (λ z. sec001_of (services_of z)) e
      ∙ with_list-alike _ _ sec001_service sec001_service-alike s.services svcs h,
  ap (λ z. sec004_of z (services_of z)) e
      ∙ with_list-alike _ _ (sec004_service fmt (some s)) (sec004_service-alike fmt (some s))
          s.services svcs h,
)
  where
    sec001_of : List Service → List Finding
    sec001_of svcs' =
        with_list (codes "SEC001")
          (λ ss.
            or_pass (codes "SEC001")
              (codes "No secrets found in plaintext in Compose configuration.")
              (for_each sec001_service ss))
          svcs'

    sec004_of : Option Stack → List Service → List Finding
    sec004_of stack svcs' =
        with_list (codes "SEC004")
          (λ ss.
            or_pass (codes "SEC004")
              (codes "No secret environment variables without Docker secrets found.")
              (for_each (sec004_service fmt stack) ss))
          svcs'
