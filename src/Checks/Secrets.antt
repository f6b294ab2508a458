-- ===== src/Checks/Secrets.antt =====
-- internal/checks/secrets: secrets in the environment of services. A Go map is visited in the order of
-- its list.
pub mod Hidden
use keelix.Prelude.{
  Bool, false, not, ◌&&◌, ◌||◌, List, [], ◌∷◌, ◌++◌, Option, none, some, ltb, any, if◌then◌else◌,
  length,
}
use keelix.Text.{Text, codes, text_eq, has_prefix, contains, to_upper, itoa}
use keelix.Model.Finding.{Finding}
use keelix.Model.Stack.{Stack, Service}
use keelix.Checks.{
  Check, Formats, failing, passing, for_each, over_services, report_if, concat, summary_fix,
}
use keelix.Intel.Images.{is_secret_env_name, is_weak_password}

-- isLiteral
unfoldable pub is_literal : Text → Bool
unfolding text_eq has_prefix
is_literal v =
    if text_eq v []
    then false
    else not (has_prefix v (codes "${")) && not (has_prefix v (codes "$"))

unfoldable pub sec001_finding : Service → Text → Finding
sec001_finding svc name = record (failing (codes "SEC001")) {
  service = svc.name;
  resource = name;
  evidence = name ++ (codes " is set to a literal value in Compose");
  fix =
      record (summary_fix
        (codes "Move to Docker secrets or a mounted secret file, or use a ${ENV_VAR} reference.")) {
          diff = concat (
              (codes "environment:\n  ")
              ∷ name
              ∷ (codes ": ${")
              ∷ name
              ∷ (codes "}  # reference from .env or Docker secret")
              ∷ []);
        };
}

unfoldable pub sec001_entry : Service → Text × Text → List Finding
sec001_entry svc (name, val) =
    report_if (is_secret_env_name name && is_literal val) (sec001_finding svc name)

unfoldable pub sec001_service : Service → List Finding
unfolding sec001_entry
sec001_service svc = for_each (sec001_entry svc) svc.environment

-- sec001.Run
unfoldable pub sec001 : Check
unfolding sec001_service
sec001 =
    over_services (codes "SEC001") (codes "No secrets found in plaintext in Compose configuration.")
      sec001_service

unfoldable pub sec002_finding : Stack → Finding
sec002_finding s = record (failing (codes "SEC002")) {
  evidence = s.env_path ++ (codes " is tracked in git");
  fix = record {
    summary =
        (codes
          "Remove the .env file from version control, rotate any leaked secrets, and add it to .gitignore.");
    diff = [];
    commands =
        ((codes "git rm --cached ") ++ s.env_path) ∷ (codes "echo \".env\" >> .gitignore") ∷ [];
    doc_url = (codes "https://docs.docker.com/compose/environment-variables/");
  };
}

-- sec002.Run
unfoldable pub sec002 : Check
sec002 ctx = elim ctx.stack [
  | none ↦ []
  | some s ↦
      if text_eq s.env_path []
      then []
      else if s.env_committed
      then sec002_finding s ∷ []
      else passing (codes "SEC002") (s.env_path ++ (codes " exists but is not tracked in git."))
]

-- isPasswordName
unfoldable pub is_password_name : Text → Bool
unfolding to_upper contains
is_password_name name =
    let upper = to_upper name in
    contains upper (codes "PASSWORD")
    || contains upper (codes "PASS")
    || contains upper (codes "PWD")

-- redactedDescription
unfoldable pub redacted_description : Text → Text
unfolding text_eq
redacted_description val =
    if text_eq val []
    then (codes "empty")
    else if ltb (length val) 8
    then concat ((codes "too short (") ∷ itoa (length val) ∷ (codes " chars)") ∷ [])
    else (codes "common default password")

unfoldable pub sec003_finding : Service → Text → Text → Finding
sec003_finding svc name val = record (failing (codes "SEC003")) {
  service = svc.name;
  resource = name;
  evidence =
      concat
        (name ∷ (codes " has a weak password (") ∷ redacted_description val ∷ (codes ")") ∷ []);
  fix = summary_fix (
      codes
        "Set a strong, unique password of at least 16 characters and store it in a Docker secret or external secrets manager.");
}

unfoldable pub sec003_entry : Service → Text × Text → List Finding
sec003_entry svc (name, val) =
    report_if (is_password_name name && is_literal val && is_weak_password val)
      (sec003_finding svc name val)

unfoldable pub sec003_service : Service → List Finding
unfolding sec003_entry
sec003_service svc = for_each (sec003_entry svc) svc.environment

-- sec003.Run
unfoldable pub sec003 : Check
unfolding sec003_service
sec003 =
    over_services (codes "SEC003") (codes "No weak or default passwords detected.") sec003_service

unfoldable pub is_secret_literal : Text × Text → Bool
is_secret_literal (name, val) = is_secret_env_name name && is_literal val

abbrev uses_secrets : Option Stack → Bool
uses_secrets none = false
uses_secrets (some s) = ltb 0 (length s.secrets)

module _ (fmt : Formats) where
  unfoldable pub sec004_finding : Service → Finding
  sec004_finding svc = record (failing (codes "SEC004")) {
    service = svc.name;
    evidence = concat (
        (codes "service ")
        ∷ fmt.quoted svc.name
        ∷ (codes
            " passes secrets via environment variables and the stack does not use compose secrets:")
        ∷ []);
    fix = record {
      summary =
          (codes
            "Migrate secrets to Docker secrets (secrets: top-level key) or mounted secret files.");
      diff = [];
      commands = [];
      doc_url = (codes "https://docs.docker.com/compose/use-secrets/");
    };
  }

  unfoldable pub sec004_service : Option Stack → Service → List Finding
  unfolding is_secret_literal
  sec004_service stack svc =
      report_if (any is_secret_literal svc.environment && not (uses_secrets stack))
        (sec004_finding svc)

  -- sec004.Run
  unfoldable pub sec004 : Check
  unfolding sec004_service
  sec004 ctx =
      over_services (codes "SEC004")
        (codes "No secret environment variables without Docker secrets found.")
        (sec004_service ctx.stack) ctx
