-- ===== src/Checks/Origin/Host.antt =====
-- internal/checks/hardening/hrd009.go, hrd010.go: the origin of the findings.
use keelix.Prelude.{ℕ, ◌%◌, List, [], ◌∷◌, Option, none, some, refl, not, ◌==◌, map}
use keelix.Text.{Text, codes, text_eq}
use keelix.Model.Signals.{ProcessFact, FileFact}
use keelix.Model.Scan.{ScanContext}
use keelix.Catalog.{finding, pass}
use keelix.Checks.{Formats, no_collector}
use keelix.Checks.Daemons.{is_darwin}
use keelix.Checks.Hardening.Daemon.{
  parse_octal, hrd009, hrd009_file, hrd009_mode, hrd009_finding, hrd010, hrd010_processes,
  hrd010_finding, docker_users,
}
use keelix.Checks.Origin.{
  AreFrom, if-AreFrom, either-AreFrom, option-AreFrom, no_collector-AreFrom, or_pass-AreFrom,
}

hrd009_mode-AreFrom : (mode : Text) (o : Option ℕ) → AreFrom (codes "HRD009") (hrd009_mode mode o)
unfolding hrd009_mode hrd009_finding pass finding
hrd009_mode-AreFrom mode none = (refl, tt)
hrd009_mode-AreFrom mode (some n) = either-AreFrom (codes "HRD009") (not (n % 8 == 0)) _ _ refl refl

hrd009_file-AreFrom : (o : Option FileFact) → AreFrom (codes "HRD009") (hrd009_file o)
unfolding hrd009_file
hrd009_file-AreFrom none = no_collector-AreFrom (codes "HRD009")
hrd009_file-AreFrom (some ff) =
    if-AreFrom (codes "HRD009") (not ff.exists) (no_collector (codes "HRD009")) _
      (no_collector-AreFrom (codes "HRD009"))
      (if-AreFrom (codes "HRD009") (text_eq ff.mode []) (no_collector (codes "HRD009")) _
        (no_collector-AreFrom (codes "HRD009")) (hrd009_mode-AreFrom ff.mode (parse_octal ff.mode)))

module _ (ctx : ScanContext) where
  pub hrd009-AreFrom : AreFrom (codes "HRD009") (hrd009 ctx)
  unfolding hrd009
  hrd009-AreFrom =
      option-AreFrom (codes "HRD009") ctx.collector _ _ (no_collector-AreFrom (codes "HRD009")) λ s.
        if-AreFrom (codes "HRD009") (is_darwin s) _ (hrd009_file _)
          (no_collector-AreFrom (codes "HRD009")) (hrd009_file-AreFrom _)

  users-AreFrom :
      (fmt : Formats) (ps : List ProcessFact)
      → AreFrom (codes "HRD010") (map (hrd010_finding fmt) ps)
  unfolding hrd010_finding finding
  users-AreFrom fmt [] = tt
  users-AreFrom fmt (p ∷ ps) = (refl, users-AreFrom fmt ps)

  pub hrd010-AreFrom : (fmt : Formats) → AreFrom (codes "HRD010") (hrd010 fmt ctx)
  unfolding hrd010 hrd010_processes
  hrd010-AreFrom fmt =
      option-AreFrom (codes "HRD010") ctx.collector _ _ (no_collector-AreFrom (codes "HRD010")) λ s.
        if-AreFrom (codes "HRD010") (is_darwin s) _ _ (no_collector-AreFrom (codes "HRD010"))
          (or_pass-AreFrom (codes "HRD010") _ _ (users-AreFrom fmt (docker_users s.processes [])))
