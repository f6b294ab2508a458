-- ===== src/Checks/Origin/Registered.antt =====
-- internal/checks: every check asks the catalog for its own entry.
use keelix.Prelude.{
  Bool, true, List, [], ◌∷◌, Option, none, some, ◌≡◌, refl, ap, ◌∙◌, Mem, here, there, All, All-Mem,
  ◌&&◌, &&_iff, is_some, get_or_else,
}
use keelix.Text.{Text, codes, text_eq}
use keelix.Threatfeed.Record.{Table}
use keelix.Model.Finding.{Finding, ControlRef, info}
use keelix.Model.Check.{CheckGroup}
use keelix.Model.Stack.{Stack}
use keelix.Model.Scan.{ScanContext}
use keelix.Catalog.{get, has, finding}
use keelix.Catalog.Types.{entry}
use keelix.Catalog.Rules.{get_rule}
use keelix.Checks.{Check, Formats, failing, entry_of}
use keelix.Checks.Exposure.{exp001, exp002, exp003}
use keelix.Checks.Firewall.{fw001, fw002, fw003, fw004}
use keelix.Checks.Daemons.{fw005}
use keelix.Checks.Kubelet.{fw006}
use keelix.Checks.Proxy.{prx001, prx002, prx003, prx004, prx005, prx006}
use keelix.Checks.Hardening.{hrd001, hrd002, hrd003, hrd004, hrd005, hrd006, hrd007, hrd008}
use keelix.Checks.Hardening.Daemon.{hrd009, hrd010}
use keelix.Checks.Origin.Host.{hrd009-AreFrom, hrd010-AreFrom}
use keelix.Checks.Secrets.{sec001, sec002, sec003, sec004}
use keelix.Checks.Certificates.{tls001, tls003, tls004, dns001, dns002}
use keelix.Checks.Access.{auth001, auth002}
use keelix.Checks.SupplyChain.{sup001, sup002, sup003, sup004}
use keelix.Checks.Services.{svc001, svc002, svc003, svc004, svc050, svc051, svc060}
use keelix.Checks.Media.{svc010, svc011, svc020, svc021, svc030, svc031}
use keelix.Checks.Shares.{svc032, svc040, svc041, svc052}
use keelix.Checks.Origin.{origin, AreFrom}
use keelix.Checks.Origin.Network.{
  exp001-AreFrom, exp002-AreFrom, exp003-AreFrom, fw001-AreFrom, fw002-AreFrom, fw003-AreFrom,
  fw004-AreFrom, fw005-AreFrom, fw006-AreFrom, prx001-AreFrom, prx002-AreFrom, prx003-AreFrom,
  prx004-AreFrom, prx005-AreFrom, prx006-AreFrom, tls001-AreFrom, tls003-AreFrom, tls004-AreFrom,
  dns001-AreFrom, dns002-AreFrom,
}
use keelix.Checks.Origin.Containers.{
  hrd001-AreFrom, hrd002-AreFrom, hrd003-AreFrom, hrd004-AreFrom, hrd005-AreFrom, hrd006-AreFrom,
  hrd007-AreFrom, hrd008-AreFrom, sec001-AreFrom, sec002-AreFrom, sec003-AreFrom, sec004-AreFrom,
  auth001-AreFrom, auth002-AreFrom, sup001-AreFrom, sup002-AreFrom, sup003-AreFrom, sup004-AreFrom,
}
use keelix.Checks.Origin.Settings.{
  svc001-AreFrom, svc002-AreFrom, svc003-AreFrom, svc004-AreFrom, svc010-AreFrom, svc011-AreFrom,
  svc020-AreFrom, svc021-AreFrom, svc030-AreFrom, svc031-AreFrom, svc032-AreFrom, svc040-AreFrom,
  svc041-AreFrom, svc050-AreFrom, svc051-AreFrom, svc052-AreFrom, svc060-AreFrom,
}

-- The checks under their ids, with the stack for those that read it without a guard.
unfoldable pub registered : Formats → Table → List Text → Stack → List (Text × Check)
registered fmt t feed s =
    (codes "EXP001", exp001)
    ∷ (codes "EXP002", exp002)
    ∷ (codes "EXP003", exp003 s)
    ∷ (codes "FW001", fw001 s)
    ∷ (codes "FW002", fw002)
    ∷ (codes "FW003", fw003)
    ∷ (codes "FW004", fw004 s)
    ∷ (codes "FW005", fw005)
    ∷ (codes "FW006", fw006)
    ∷ (codes "PRX001", prx001 s)
    ∷ (codes "PRX002", prx002 s)
    ∷ (codes "PRX003", prx003 s)
    ∷ (codes "PRX004", prx004 s)
    ∷ (codes "PRX005", prx005 s)
    ∷ (codes "PRX006", prx006 s)
    ∷ (codes "HRD001", hrd001 fmt)
    ∷ (codes "HRD002", hrd002 fmt)
    ∷ (codes "HRD003", hrd003 fmt)
    ∷ (codes "HRD004", hrd004 fmt)
    ∷ (codes "HRD005", hrd005 fmt)
    ∷ (codes "HRD006", hrd006 fmt)
    ∷ (codes "HRD007", hrd007 fmt)
    ∷ (codes "HRD008", hrd008 fmt)
    ∷ (codes "HRD009", hrd009)
    ∷ (codes "HRD010", hrd010 fmt)
    ∷ (codes "SEC001", sec001)
    ∷ (codes "SEC002", sec002)
    ∷ (codes "SEC003", sec003)
    ∷ (codes "SEC004", sec004 fmt)
    ∷ (codes "TLS001", tls001)
    ∷ (codes "TLS003", tls003)
    ∷ (codes "TLS004", tls004)
    ∷ (codes "DNS001", dns001)
    ∷ (codes "DNS002", dns002 fmt)
    ∷ (codes "AUTH001", auth001 fmt)
    ∷ (codes "AUTH002", auth002 fmt)
    ∷ (codes "SUP001", sup001 fmt)
    ∷ (codes "SUP002", sup002 fmt feed)
    ∷ (codes "SUP003", sup003 fmt t)
    ∷ (codes "SUP004", sup004 fmt t)
    ∷ (codes "SVC001", svc001)
    ∷ (codes "SVC002", svc002)
    ∷ (codes "SVC003", svc003)
    ∷ (codes "SVC004", svc004)
    ∷ (codes "SVC010", svc010)
    ∷ (codes "SVC011", svc011)
    ∷ (codes "SVC020", svc020)
    ∷ (codes "SVC021", svc021)
    ∷ (codes "SVC030", svc030)
    ∷ (codes "SVC031", svc031)
    ∷ (codes "SVC032", svc032)
    ∷ (codes "SVC040", svc040)
    ∷ (codes "SVC041", svc041)
    ∷ (codes "SVC050", svc050)
    ∷ (codes "SVC051", svc051)
    ∷ (codes "SVC052", svc052)
    ∷ (codes "SVC060", svc060)
    ∷ []

-- Facts on the elements of a list, one after the other.
infixr 3 ◌◂◌
abbrev ◌◂◌ {ℓ κ} : {A : Type ℓ} {B : Type κ} → A → B → A × B
a ◂ b = (a, b)

-- All of their ids are in the catalog.
all_known : List (Text × Check) → Bool
all_known [] = true
all_known ((id, check) ∷ rest) = has id && all_known rest

known-has :
    (cs : List (Text × Check)) {id : Text} {check : Check}
    → all_known cs ≡ true
    → Mem (id, check) cs
    → has id ≡ true
unfolding all_known
known-has [] h m = elim m [ ]
known-has ((id, check) ∷ cs) h here = ((&&_iff (has id) (all_known cs)).0 h).0
known-has ((id, check) ∷ cs) h (there m) = known-has cs ((&&_iff (has id) (all_known cs)).0 h).1 m

get_or_else-some {ℓ} :
    {A : Type ℓ} (o : Option A) (a : A) → is_some o ≡ true → o ≡ some (get_or_else o a)
get_or_else-some none a h = cc
get_or_else-some (some b) a h = refl

has-entry_of : (id : Text) → has id ≡ true → get id ≡ some (entry_of id)
unfolding has entry_of
has-entry_of id h = get_or_else-some (get id) (entry [] [] [] info [] [] 0) h

module _ (fmt : Formats) (t : Table) (feed : List Text) (s : Stack) where
  ids_known : all_known (registered fmt t feed s) ≡ true
  unfolding all_known registered has get text_eq
  ids_known = refl

  registered-AreFrom :
      (ctx : ScanContext)
      → All (λ (p : Text × Check). AreFrom p.0 (p.1 ctx)) (registered fmt t feed s)
  unfolding registered
  registered-AreFrom ctx =
      exp001-AreFrom ctx
      ◂ exp002-AreFrom ctx
      ◂ exp003-AreFrom ctx s
      ◂ fw001-AreFrom ctx s
      ◂ fw002-AreFrom ctx
      ◂ fw003-AreFrom ctx
      ◂ fw004-AreFrom ctx s
      ◂ fw005-AreFrom ctx
      ◂ fw006-AreFrom ctx
      ◂ prx001-AreFrom ctx s
      ◂ prx002-AreFrom ctx s
      ◂ prx003-AreFrom ctx s
      ◂ prx004-AreFrom ctx s
      ◂ prx005-AreFrom ctx s
      ◂ prx006-AreFrom ctx s
      ◂ hrd001-AreFrom fmt ctx
      ◂ hrd002-AreFrom fmt ctx
      ◂ hrd003-AreFrom fmt ctx
      ◂ hrd004-AreFrom fmt ctx
      ◂ hrd005-AreFrom fmt ctx
      ◂ hrd006-AreFrom fmt ctx
      ◂ hrd007-AreFrom fmt ctx
      ◂ hrd008-AreFrom fmt ctx
      ◂ hrd009-AreFrom ctx
      ◂ hrd010-AreFrom ctx fmt
      ◂ sec001-AreFrom fmt ctx
      ◂ sec002-AreFrom fmt ctx
      ◂ sec003-AreFrom fmt ctx
      ◂ sec004-AreFrom fmt ctx
      ◂ tls001-AreFrom ctx
      ◂ tls003-AreFrom ctx
      ◂ tls004-AreFrom ctx
      ◂ dns001-AreFrom ctx
      ◂ dns002-AreFrom ctx fmt
      ◂ auth001-AreFrom fmt ctx
      ◂ auth002-AreFrom fmt ctx
      ◂ sup001-AreFrom fmt ctx
      ◂ sup002-AreFrom fmt ctx feed
      ◂ sup003-AreFrom fmt ctx t
      ◂ sup004-AreFrom fmt ctx t
      ◂ svc001-AreFrom ctx
      ◂ svc002-AreFrom ctx
      ◂ svc003-AreFrom ctx
      ◂ svc004-AreFrom ctx
      ◂ svc010-AreFrom ctx
      ◂ svc011-AreFrom ctx
      ◂ svc020-AreFrom ctx
      ◂ svc021-AreFrom ctx
      ◂ svc030-AreFrom ctx
      ◂ svc031-AreFrom ctx
      ◂ svc032-AreFrom ctx
      ◂ svc040-AreFrom ctx
      ◂ svc041-AreFrom ctx
      ◂ svc050-AreFrom ctx
      ◂ svc051-AreFrom ctx
      ◂ svc052-AreFrom ctx
      ◂ svc060-AreFrom ctx
      ◂ tt

  -- Each of the listed checks finds its id in the catalog, so that Get does not panic, and every
  -- finding that it returns, whatever the scan saw, has this id and the group, the title and the
  -- control references of the entry.
  pub registered-origin :
      (ctx : ScanContext) {id : Text} {check : Check}
      → Mem (id, check) (registered fmt t feed s)
      → (has id ≡ true)
        × ((f : Finding) → Mem f (check ctx) → (f.check_id ≡ id) × (origin f ≡ origin (failing id)))
  registered-origin ctx {id} {check} m =
      let known = known-has (registered fmt t feed s) ids_known m in
      (
        known,
        λ f at.
            let from =
              All-Mem (λ (g : Finding). origin g ≡ origin (failing id))
                (All-Mem (λ (p : Text × Check). AreFrom p.0 (p.1 ctx)) (registered-AreFrom ctx) m)
                at in
            (
              ap (λ (o : Text × CheckGroup × Text × List ControlRef). o.0) from
                  ∙ (unfold finding in (get_rule id (entry_of id) (has-entry_of id known)).0),
              from,
            ),
      )
