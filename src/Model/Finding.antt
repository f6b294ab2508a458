-- ===== src/Model/Finding.antt =====
-- internal/model/finding.go and scoring.go. The enumerations of Go are data types with their
-- constants as constructors. The float weights are exact integers in a stated unit.
use keelix.Prelude.{ℕ, Bool, true, false, List, ltb}
use keelix.Text.{Text, codes}

pub data Severity : Type 0 where
  ok info warning critical : Severity

-- Severity.String
pub severity_string : Severity → Text
severity_string critical = codes "critical"
severity_string warning = codes "warning"
severity_string info = codes "info"
severity_string ok = codes "ok"

-- Severity.Rating
unfoldable pub severity_rating : Severity → Text
severity_rating critical = codes "RED"
severity_rating warning = codes "YELLOW"
severity_rating info = codes "GREEN"
severity_rating ok = codes "GREEN"

-- Severity.Label
pub severity_label : Severity → Text
severity_label critical = codes "CRITICAL"
severity_label warning = codes "WARNING"
severity_label info = codes "INFO"
severity_label ok = codes "OK"

-- f.Severity == SeverityOK and the other comparisons with a constant
abbrev pub is_ok : Severity → Bool
is_ok ok = true
is_ok _ = false

abbrev pub is_info : Severity → Bool
is_info info = true
is_info _ = false

abbrev pub is_critical : Severity → Bool
is_critical critical = true
is_critical _ = false

pub data Confidence : Type 0 where
  high medium low : Confidence

-- Confidence.Multiplier, in tenths
unfoldable pub confidence_multiplier : Confidence → ℕ
confidence_multiplier medium = 6
confidence_multiplier low = 3
confidence_multiplier high = 10

abbrev pub is_high : Confidence → Bool
is_high high = true
is_high _ = false

abbrev pub is_low : Confidence → Bool
is_low low = true
is_low _ = false

pub data FindingStatus : Type 0 where
  assessed not_assessed : FindingStatus

abbrev pub is_assessed : FindingStatus → Bool
is_assessed assessed = true
is_assessed not_assessed = false

pub data ExposureClass : Type 0 where
  unknown localhost overlay lan filtered internet : ExposureClass

-- The value of the constant, by which Go compares two classes.
abbrev pub exposure_rank : ExposureClass → ℕ
exposure_rank unknown = 0
exposure_rank localhost = 1
exposure_rank overlay = 2
exposure_rank lan = 3
exposure_rank filtered = 4
exposure_rank internet = 5

-- c > d on two classes
abbrev pub more_exposed : ExposureClass → ExposureClass → Bool
more_exposed c d = ltb (exposure_rank d) (exposure_rank c)

-- ExposureClass.Multiplier, in hundredths
unfoldable pub exposure_multiplier : ExposureClass → ℕ
exposure_multiplier localhost = 10
exposure_multiplier overlay = 15
exposure_multiplier lan = 35
exposure_multiplier filtered = 50
exposure_multiplier internet = 100
exposure_multiplier unknown = 50

-- ExposureClass.CanCapRed
unfoldable pub can_cap_red : ExposureClass → Bool
can_cap_red lan = true
can_cap_red filtered = true
can_cap_red internet = true
can_cap_red unknown = false
can_cap_red localhost = false
can_cap_red overlay = false

abbrev pub is_internet : ExposureClass → Bool
is_internet internet = true
is_internet _ = false

abbrev pub is_unknown : ExposureClass → Bool
is_unknown unknown = true
is_unknown _ = false

pub record Fix : Type 0 where
  pub summary : Text
  pub diff : Text
  pub commands : List Text
  pub doc_url : Text

pub record ControlRef : Type 0 where
  pub framework : Text
  pub id : Text
  pub title : Text

-- A Go map with text keys and values. A nil map and an empty one read alike.
abbrev pub TextMap : Type 0
TextMap = List (Text × Text)

-- `base_impact` is in tenths: the catalog's values are multiples of a tenth.
pub record Finding : Type 0 where
  pub check_id : Text
  pub group : Text
  pub title : Text
  pub severity : Severity
  pub passed : Bool
  pub service : Text
  pub resource : Text
  pub detail : Text
  pub evidence : Text
  pub fix : Fix
  pub controls : List ControlRef
  pub ai_explanation : Text
  pub ai_diff : Text
  pub metadata : TextMap
  pub base_impact : ℕ
  pub confidence : Confidence
  pub exposure_class : ExposureClass
  pub mitigations : List Text
  pub fatal : Bool
  pub status : FindingStatus

abbrev pub fails : Severity → Bool
fails warning = true
fails critical = true
fails info = false
fails ok = false

-- Finding.IsFail
unfoldable pub is_fail : Finding → Bool
is_fail f = fails f.severity

pub record GroupScore : Type 0 where
  pub group : Text
  pub score : ℕ
  pub not_assessed : ℕ

pub record CapDriver : Type 0 where
  pub check_id : Text
  pub title : Text
  pub reason : Text
  pub grade : Text
