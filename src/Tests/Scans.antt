-- ===== src/Tests/Scans.antt =====
-- A scan with two checks, its redaction, a policy and the exit code.
use keelix.Prelude.{
  ℕ, ◌≡◌, ◌≢◌, ◌↔◌, refl, true, false, List, [], ◌∷◌, none, some, All, Mem, here, select, arith,
  ◌+◌, any, ◌==◌, ◌||◌,
}
use mathlib.Core.List.{Perm}
use keelix.Text.{Text, codes, text_eq, contains, trim_space, index, has_prefix, to_lower}
use keelix.Outcome.{done, fail}
use keelix.Model.Finding.{Finding, Severity, critical}
use keelix.Model.Stack.{Stack}
use keelix.Model.Result.{Result}
use keelix.Intel.Images.{is_secret_env_name}
use keelix.Redact.Masks.{IsClean}
use keelix.Redact.{replace_all, replace, match_text}
use keelix.Redact.Patterns.{
  match_pattern, match_pieces, match_piece, conn_string, bearer, jwt, match_token, run_length,
  is_high_entropy,
}
use keelix.Redact.Known.{
  secret_values, redact_string, new_redactor, keep_known, longest_first, exchange, redact_values,
  redact_value, redact_patterns,
}
use keelix.Redact.Report.Texts.{redacted_texts}
use keelix.Policy.{Policy, Library, evaluate}
use keelix.Policy.Complies.{Complies, evaluate_iff}
use keelix.Cli.{ci_exit}
use keelix.Cli.Fresh.{IsOld, HasPlainKey, ci_exit_iff}
use keelix.Engine.{Parts, sort_findings, assemble}
use keelix.Engine.Order.{
  AreInOrder, is_level, sort_findings_lem, assemble-AreInOrder, assemble-absent,
}
use keelix.Tests.Samples.{open_database, hint, exploited, table, stack, probe, context}

abbrev found : List Finding
found = hint ∷ open_database ∷ exploited ∷ []

sort_findings_lem_example :
    AreInOrder (sort_findings found)
    × Perm (sort_findings found) found
    × ((s : Severity) (id : Text)
        → select (is_level s id) (sort_findings found) ≡ select (is_level s id) found)
sort_findings_lem_example = sort_findings_lem found

abbrev lib : Library
lib = record { match = text_eq; quoted = λ t. t }

abbrev policy : Policy
policy = record {
  deny_images = codes "nginx" ∷ [];
  deny_host_ports = 15432 ∷ [];
  deny_privileged = true;
  require_label = [];
}

evaluate_iff_example : (evaluate lib policy stack ≡ []) ↔ All (Complies lib policy) stack.services
evaluate_iff_example = evaluate_iff lib policy stack

-- A stack with a password, and a finding that shows it.
abbrev password : Text
password = codes "hunter2hunter2"

abbrev secret_stack : Stack
secret_stack = record stack { env = (codes "DB_PASSWORD", password) ∷ [] }

abbrev leak : Finding
leak = record hint { detail = codes "set to hunter2hunter2 in .env" }

abbrev parts : Parts ℕ
parts = record {
  load_stack = λ input n. (done secret_stack, n);
  probe_ports = λ opts ports n. (probe, n + 1);
  load_signals = λ path n. (fail (codes "no file"), n);
  collect_signals = λ privileged s n. (fail (codes "no collector"), n);
  system = record {
    get_env = λ n name. [];
    start = λ s n. (fail (codes "no sandbox"), n);
    http = λ url. record { send = λ r n. (fail (codes "eof"), n); notify = λ n. (done tt, n) };
    codec = record {
      read_version = done;
      read_page = λ t. fail (codes "bad json");
      quoted = λ t. t;
    };
    sha256_hex = λ t. t;
    load_baseline = λ n. done [];
    save_baseline = λ b n. n;
  };
  sandbox_available = false;
  checks = (λ ctx. leak ∷ []) ∷ (λ ctx. exploited ∷ []) ∷ [];
  load_policy = λ path n. (fail (codes "no policy"), n);
  library = lib;
  table = table;
  hostname = done (codes "box");
  now = 0;
  version = codes "dev";
  ai_enabled = false;
  enrich = λ r n. (r, n);
}

assemble-AreInOrder_example :
    AreInOrder (assemble parts context secret_stack (leak ∷ exploited ∷ [])).findings
assemble-AreInOrder_example = assemble-AreInOrder parts context secret_stack (leak ∷ exploited ∷ [])

password-secret : Mem password (secret_values secret_stack.env)
unfolding secret_values is_secret_env_name contains index has_prefix to_lower any
password-secret = here

-- A text without the two brackets, by a test.
no_brackets :
    (k : Text) → any (λ c. c == b'[' || c == b']') k ≡ false → All (λ c. (c ≢ b'[') × (c ≢ b']')) k
unfolding any
no_brackets [] h = tt
no_brackets (c ∷ k) h = (ground (arith, h), no_brackets k (ground (arith, h)))

password-IsClean : IsClean (trim_space password)
unfolding IsClean contains index has_prefix trim_space any
password-IsClean = (no_brackets (trim_space password) refl, refl)

assemble-absent_example :
    All
      (λ t. contains t (trim_space password) ≡ false)
      (redacted_texts (assemble parts context secret_stack (leak ∷ exploited ∷ [])))
unfolding trim_space
assemble-absent_example =
    assemble-absent parts context secret_stack (leak ∷ exploited ∷ []) password password-secret
      (omega arith) password-IsClean

-- The known value is replaced before any other rule.
redact_known :
    redact_string (new_redactor (password ∷ [])) (codes "set to hunter2hunter2 in .env")
    ≡ codes "set to [REDACTED] in .env"
unfolding redact_string new_redactor keep_known longest_first exchange redact_values redact_value
    redact_patterns replace_all replace match_text match_pattern match_pieces match_piece
    conn_string bearer jwt match_token run_length contains index has_prefix trim_space to_lower any
    text_eq
redact_known = refl

-- A text without a bar, by a test.
no_bar : (k : Text) → any (λ c. c == b'|') k ≡ false → All (λ c. c ≢ b'|') k
unfolding any
no_bar [] h = tt
no_bar (c ∷ k) h = (ground (arith, h), no_bar k (ground (arith, h)))

abbrev result_with : List Finding → Result
result_with fs = record (assemble parts context secret_stack []) { findings = fs }

exploited-HasPlainKey : HasPlainKey exploited
unfolding any
exploited-HasPlainKey = (no_bar (codes "SVC001") refl, tt)

open_database-HasPlainKey : HasPlainKey open_database
unfolding any
open_database-HasPlainKey = (no_bar (codes "EXP001") refl, tt)

ci_exit_iff_example :
    (ci_exit
        (result_with (exploited ∷ open_database ∷ []))
        (some (done (result_with (exploited ∷ []))))
      ≡ none)
    ↔ ((f : Finding)
        → Mem f (exploited ∷ open_database ∷ [])
        → f.severity ≡ critical
        → IsOld (exploited ∷ []) f)
ci_exit_iff_example =
    ci_exit_iff (result_with (exploited ∷ open_database ∷ [])) (result_with (exploited ∷ []))
      (exploited-HasPlainKey, (open_database-HasPlainKey, tt)) (exploited-HasPlainKey, tt)

-- A password in an address, a bearer token, a signed token, and a long random one beside a long
-- plain one.
redact_rules :
    (redact_patterns (codes "postgres://u:p:w@db/x") ≡ codes "postgres://u:[REDACTED]@db/x")
    × (redact_patterns (codes "BEARER  a.b-c ok") ≡ codes "BEARER  [REDACTED] ok")
    × (redact_patterns (codes "t=eyJh.eyJz.sig.more") ≡ codes "t=[REDACTED].more")
    × (redact_patterns (codes "k AKIA1234567890abcdefghij k") ≡ codes "k [REDACTED] k")
    × (redact_patterns (codes "k aaaaaaaaaaaaaaaaaaaaaaaaab k")
        ≡ codes "k aaaaaaaaaaaaaaaaaaaaaaaaab k")
unfolding redact_patterns replace_all replace match_pattern match_pieces match_piece conn_string
    bearer jwt match_token run_length has_prefix to_lower text_eq is_high_entropy
redact_rules = (refl, refl, refl, refl, refl)
