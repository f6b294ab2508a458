-- ===== src/Score/Cap.antt =====
-- computeCap of v2.go.
pub mod Best
pub mod Rules
use keelix.Prelude.{
  ℕ, Bool, true, false, not, ◌&&◌, ◌||◌, List, [], ◌∷◌, Option, none, some, ltb, leb, ◌==◌,
  if◌then◌else◌, length,
}
use keelix.Text.{Text, codes}
use keelix.Model.Finding.{
  Finding, CapDriver, is_assessed, is_fail, is_high, is_low, is_critical, is_internet, can_cap_red,
}
use keelix.Model.Check.{domain_of, is_ai_mcp}
use keelix.Threatfeed.Record.{Table}
use keelix.Score.Grade.{red, yellow, green}
use keelix.Score.Risk.{risk}

-- The three conditions of the loop, each behind the test of the status.
unfoldable pub caps_network : Finding → Bool
caps_network f =
    is_assessed f.status
    && f.fatal
    && is_fail f
    && is_high f.confidence
    && can_cap_red f.exposure_class

unfoldable pub caps_autonomy : Finding → Bool
caps_autonomy f =
    is_assessed f.status
    && f.fatal
    && is_fail f
    && not (is_low f.confidence)
    && is_ai_mcp (domain_of f.group)

unfoldable pub caps_yellow : Finding → Bool
caps_yellow f =
    is_assessed f.status
    && is_high f.confidence
    && is_critical f.severity
    && is_internet f.exposure_class
    && length f.mitigations == 0

-- A driver and its risk: networkDriver and networkRisk, and the two other pairs.
pub record Driver : Type 0 where
  pub finding : Option Finding
  pub risk : ℕ

abbrev pub no_driver : Driver
no_driver = record { finding = none; risk = 0 }

-- driver == nil || risk(f) > driverRisk
replaces : Table → Driver → Finding → Bool
replaces t d f = elim d.finding [ none ↦ true | some g ↦ ltb d.risk (risk t f) ]

-- One of the three blocks of the loop.
unfoldable pub consider : (Finding → Bool) → Table → Driver → Finding → Driver
unfolding replaces
consider caps t d f =
    if caps f then if replaces t d f then record { finding = some f; risk = risk t f } else d else d

pub record Drivers : Type 0 where
  pub network : Driver
  pub autonomy : Driver
  pub yellow : Driver

unfoldable pub find_drivers : Table → Drivers → List Finding → Drivers
find_drivers t ds [] = ds
find_drivers t ds (f ∷ fs) =
    find_drivers t
      (record {
        network = consider caps_network t ds.network f;
        autonomy = consider caps_autonomy t ds.autonomy f;
        yellow = consider caps_yellow t ds.yellow f;
      })
      fs

abbrev pub no_drivers : Drivers
no_drivers = record { network = no_driver; autonomy = no_driver; yellow = no_driver }

abbrev pub cap_driver : Finding → Text → Text → CapDriver
cap_driver f reason grade = record {
  check_id = f.check_id;
  title = f.title;
  reason = reason;
  grade = grade;
}

abbrev pub network_cap : Finding → CapDriver
network_cap f = cap_driver f (codes "fatal exposure reachable from a routable network") red

abbrev pub autonomy_cap : Finding → CapDriver
autonomy_cap f = cap_driver f (codes "dangerous AI agent / MCP capability") red

abbrev pub yellow_cap : Finding → CapDriver
yellow_cap f =
    cap_driver f (codes "unmitigated critical service reachable from the internet") yellow

-- The choice after the loop.
unfoldable pub choose_cap :
    Option Finding → ℕ → Option Finding → ℕ → Option Finding → Text × Option CapDriver
choose_cap (some n) nr (some a) ar y =
    if leb ar nr then (red, some (network_cap n)) else (red, some (autonomy_cap a))
choose_cap (some n) nr none ar y = (red, some (network_cap n))
choose_cap none nr (some a) ar y = (red, some (autonomy_cap a))
choose_cap none nr none ar (some y) = (yellow, some (yellow_cap y))
choose_cap none nr none ar none = (green, none)

-- computeCap
unfoldable pub compute_cap : Table → List Finding → Text × Option CapDriver
compute_cap t fs =
    let ds = find_drivers t no_drivers fs in
    choose_cap ds.network.finding ds.network.risk ds.autonomy.finding ds.autonomy.risk
      ds.yellow.finding
