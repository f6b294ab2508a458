-- ===== src/Model/Result.antt =====
-- internal/model/scan.go: the result of a scan.
use keelix.Prelude.{ℕ, List, Option, select}
use keelix.Text.{Text}
use keelix.Model.Finding.{Finding, GroupScore, CapDriver, is_fail}
use keelix.Model.Signals.{Signals}
use keelix.Model.Stack.{Stack}
use keelix.Model.Scan.{Counts, ProbeResult}

pub record Result : Type 0 where
  pub target : Text
  pub scanned_at : ℕ
  pub version : Text
  pub score : ℕ
  pub rating : Text
  pub counts : Counts
  pub findings : List Finding
  pub stack : Option Stack
  pub probe : Option ProbeResult
  pub methodology : Text
  pub ai_summary : Text
  pub brand_name : Text
  pub collector : Option Signals
  pub scoring_model : Text
  pub sub_scores : List GroupScore
  pub cap_driver : Option CapDriver
  pub not_assessed : List Finding

-- Result.Fails
unfoldable pub fails : Result → List Finding
unfolding select
fails r = select is_fail r.findings
