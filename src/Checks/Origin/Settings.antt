-- ===== src/Checks/Origin/Settings.antt =====
-- internal/checks/service: the origin of the findings.
use keelix.Prelude.{[], ◌∷◌, refl, not, ◌&&◌}
use keelix.Text.{codes, text_eq, lookup, lookup_text}
use keelix.Model.Scan.{ScanContext}
use keelix.Catalog.{finding, pass}
use keelix.Checks.Services.{svc001, svc001_values, svc002, svc003, svc004, svc050, svc051, svc060}
use keelix.Checks.Media.{
  svc010, svc010_values, svc011, svc020, svc021, svc030, svc030_values, svc031, svc031_values,
}
use keelix.Checks.Shares.{svc032, svc040, svc041, svc052}
use keelix.Checks.Origin.{
  AreFrom, option-AreFrom, either-AreFrom, third-AreFrom, with_config-AreFrom, over_config-AreFrom,
}

module _ (ctx : ScanContext) where
  pub svc001-AreFrom : AreFrom (codes "SVC001") (svc001 ctx)
  unfolding svc001 svc001_values pass finding
  svc001-AreFrom =
      over_config-AreFrom (codes "SVC001") _ _ ctx
        λ v. either-AreFrom (codes "SVC001") _ _ _ refl refl

  pub svc002-AreFrom : AreFrom (codes "SVC002") (svc002 ctx)
  unfolding svc002 pass finding
  svc002-AreFrom =
      over_config-AreFrom (codes "SVC002") _ _ ctx
        λ v. either-AreFrom (codes "SVC002") _ _ _ refl refl

  pub svc003-AreFrom : AreFrom (codes "SVC003") (svc003 ctx)
  unfolding svc003 pass finding
  svc003-AreFrom =
      over_config-AreFrom (codes "SVC003") _ _ ctx
        λ v. either-AreFrom (codes "SVC003") _ _ _ refl refl

  pub svc004-AreFrom : AreFrom (codes "SVC004") (svc004 ctx)
  unfolding svc004 pass finding
  svc004-AreFrom =
      over_config-AreFrom (codes "SVC004") _ _ ctx
        λ v. either-AreFrom (codes "SVC004") _ _ _ refl refl

  pub svc010-AreFrom : AreFrom (codes "SVC010") (svc010 ctx)
  unfolding svc010 svc010_values pass finding
  svc010-AreFrom =
      over_config-AreFrom (codes "SVC010") _ _ ctx
        λ v. either-AreFrom (codes "SVC010") _ _ _ refl refl

  pub svc011-AreFrom : AreFrom (codes "SVC011") (svc011 ctx)
  unfolding svc011 pass finding
  svc011-AreFrom =
      over_config-AreFrom (codes "SVC011") _ _ ctx
        λ v. either-AreFrom (codes "SVC011") _ _ _ refl refl

  pub svc020-AreFrom : AreFrom (codes "SVC020") (svc020 ctx)
  unfolding svc020 pass finding
  svc020-AreFrom =
      over_config-AreFrom (codes "SVC020") _ _ ctx
        λ v. either-AreFrom (codes "SVC020") _ _ _ refl refl

  pub svc021-AreFrom : AreFrom (codes "SVC021") (svc021 ctx)
  unfolding svc021 pass finding
  svc021-AreFrom =
      over_config-AreFrom (codes "SVC021") _ _ ctx
        λ v. either-AreFrom (codes "SVC021") _ _ _ refl refl

  pub svc032-AreFrom : AreFrom (codes "SVC032") (svc032 ctx)
  unfolding svc032 pass finding
  svc032-AreFrom =
      over_config-AreFrom (codes "SVC032") _ _ ctx
        λ v. either-AreFrom (codes "SVC032") _ _ _ refl refl

  pub svc040-AreFrom : AreFrom (codes "SVC040") (svc040 ctx)
  unfolding svc040 pass finding
  svc040-AreFrom =
      over_config-AreFrom (codes "SVC040") _ _ ctx
        λ v. either-AreFrom (codes "SVC040") _ _ _ refl refl

  pub svc041-AreFrom : AreFrom (codes "SVC041") (svc041 ctx)
  unfolding svc041 pass finding
  svc041-AreFrom =
      over_config-AreFrom (codes "SVC041") _ _ ctx
        λ v. either-AreFrom (codes "SVC041") _ _ _ refl refl

  pub svc050-AreFrom : AreFrom (codes "SVC050") (svc050 ctx)
  unfolding svc050 pass finding
  svc050-AreFrom =
      over_config-AreFrom (codes "SVC050") _ _ ctx
        λ v. either-AreFrom (codes "SVC050") _ _ _ refl refl

  pub svc051-AreFrom : AreFrom (codes "SVC051") (svc051 ctx)
  unfolding svc051 pass finding
  svc051-AreFrom =
      over_config-AreFrom (codes "SVC051") _ _ ctx
        λ v. either-AreFrom (codes "SVC051") _ _ _ refl refl

  pub svc052-AreFrom : AreFrom (codes "SVC052") (svc052 ctx)
  unfolding svc052 pass finding
  svc052-AreFrom =
      over_config-AreFrom (codes "SVC052") _ _ ctx
        λ v. either-AreFrom (codes "SVC052") _ _ _ refl refl

  pub svc060-AreFrom : AreFrom (codes "SVC060") (svc060 ctx)
  unfolding svc060 pass finding
  svc060-AreFrom =
      over_config-AreFrom (codes "SVC060") _ _ ctx
        λ v. either-AreFrom (codes "SVC060") _ _ _ refl refl

  pub svc030-AreFrom : AreFrom (codes "SVC030") (svc030 ctx)
  unfolding svc030 svc030_values pass finding
  svc030-AreFrom = with_config-AreFrom (codes "SVC030") svc030_values _ λ v.
      third-AreFrom (codes "SVC030")
        (text_eq (lookup_text (codes "admin_token.present") v) (codes "false"))
        (text_eq (lookup_text (codes "admin_token.present") v) (codes "true")
          && not (text_eq (lookup_text (codes "admin_token.is_argon2") v) (codes "true"))
          && text_eq (lookup_text (codes "admin_token.length_band") v) (codes "weak"))
        _ _ _ refl refl refl

  pub svc031-AreFrom : AreFrom (codes "SVC031") (svc031 ctx)
  unfolding svc031 svc031_values pass finding
  svc031-AreFrom = over_config-AreFrom (codes "SVC031") _ _ ctx λ v.
      option-AreFrom (codes "SVC031") (lookup (codes "INSTALL_LOCK") v) (_ ∷ []) _ (refl, tt)
        λ lock. either-AreFrom (codes "SVC031") _ _ _ refl refl
