-- ===== src/Engine/Order.antt =====
-- The order of the findings in a scan's result, and what does not occur in it.
use keelix.Prelude.{
  ◌≡◌, refl, ◌∙◌, sym, ap, Bool, true, false, not, ◌&&◌, List, [], ◌∷◌, map, Option, some, ◌==◌,
  ltb, All, select, Mem, ◌≤◌, length, arith, ◌⊎◌, inl, inr, &&_iff, if◌then◌else◌,
}
use mathlib.Core.List.{Perm}
use keelix.Prelude.Sort.{IsSorted, sort, sort-Perm, sort-IsSorted, sort-select}
use keelix.Text.{Text, text_lt, text_eq, contains, trim_space}
use keelix.Text.Laws.{text_lt_asym, text_lt_trans, text_lt_irrefl, text_eq_iff}
use keelix.Model.Finding.{Finding, Severity, critical, warning, info, ok}
use keelix.Model.Stack.{Stack}
use keelix.Model.Scan.{ScanContext}
use keelix.Correlate.Classify.{classify, classify_step}
use keelix.Correlate.Classify.Frame.{classify_step_frame}
use keelix.Redact.Masks.{IsClean}
use keelix.Redact.Known.{secret_values, known_secret_values, min_known_value_len}
use keelix.Redact.Report.{redact_finding, redact_with, redact_result}
use keelix.Redact.Report.Texts.{redacted_texts, redact_result-absent}
use keelix.Engine.{sev_rank, comes_before, sort_findings, Parts, assemble}

comes_before_asym : (f g : Finding) → comes_before f g ≡ true → comes_before g f ≡ false
unfolding comes_before
comes_before_asym f g h = ground (arith, h, text_lt_asym f.check_id g.check_id)

comes_before_trans :
    (f g h : Finding)
    → comes_before g f ≡ false
    → comes_before h g ≡ false
    → comes_before h f ≡ false
unfolding comes_before
comes_before_trans f g h a b = ground (arith, a, b, text_lt_trans f.check_id g.check_id h.check_id)

-- The severities from the worst down, written out.
pub data IsWorse : Severity → Severity → Type 0 where
  critical-warning : IsWorse critical warning
  critical-info : IsWorse critical info
  critical-ok : IsWorse critical ok
  warning-info : IsWorse warning info
  warning-ok : IsWorse warning ok
  info-ok : IsWorse info ok

-- The first finding is worse, or as severe and of a check whose id is not greater.
abbrev pub InOrder : Finding → Finding → Type 0
InOrder f g =
    IsWorse f.severity g.severity
    ⊎ ((f.severity ≡ g.severity) × (text_lt g.check_id f.check_id ≡ false))

-- Every finding is in order with all that follow.
abbrev pub AreInOrder : List Finding → Type 0
AreInOrder [] = Unit
AreInOrder (f ∷ fs) = All (InOrder f) fs × AreInOrder fs

abbrev pub same_severity : Severity → Severity → Bool
same_severity critical critical = true
same_severity warning warning = true
same_severity info info = true
same_severity ok ok = true
same_severity _ _ = false

-- The findings of one severity and one check.
abbrev pub is_level : Severity → Text → Finding → Bool
is_level s id f = same_severity s f.severity && text_eq id f.check_id

same_severity-eq : (s r : Severity) → same_severity s r ≡ true → s ≡ r
same_severity-eq critical critical h = refl
same_severity-eq warning warning h = refl
same_severity-eq info info h = refl
same_severity-eq ok ok h = refl
same_severity-eq _ _ h = cc

same_level :
    (s : Severity) (id : Text) (a b : Finding)
    → is_level s id a ≡ true
    → is_level s id b ≡ true
    → comes_before a b ≡ false
unfolding comes_before
same_level s id a b ha hb =
    let (sa, ia) = (&&_iff (same_severity s a.severity) (text_eq id a.check_id)).0 ha in
    let (sb, ib) = (&&_iff (same_severity s b.severity) (text_eq id b.check_id)).0 hb in
    let ids = sym ((text_eq_iff id a.check_id).0 ia) ∙ (text_eq_iff id b.check_id).0 ib in
    let ranks =
      ap sev_rank (sym (same_severity-eq s a.severity sa) ∙ same_severity-eq s b.severity sb) in
    let same = ap (λ x. text_lt x b.check_id) ids ∙ text_lt_irrefl b.check_id in
    ground (arith, ranks, same)

ranked :
    (r s : Severity) (b : Bool)
    → (if not (sev_rank s == sev_rank r) then ltb (sev_rank s) (sev_rank r) else b) ≡ false
    → IsWorse r s ⊎ ((r ≡ s) × (b ≡ false))
unfolding sev_rank
ranked critical critical b h = inr (refl, h)
ranked critical warning b h = inl IsWorse.critical-warning
ranked critical info b h = inl IsWorse.critical-info
ranked critical ok b h = inl IsWorse.critical-ok
ranked warning warning b h = inr (refl, h)
ranked warning info b h = inl IsWorse.warning-info
ranked warning ok b h = inl IsWorse.warning-ok
ranked info info b h = inr (refl, h)
ranked info ok b h = inl IsWorse.info-ok
ranked ok ok b h = inr (refl, h)
ranked _ _ b h = cc

InOrder-comes_before : (f g : Finding) → comes_before g f ≡ false → InOrder f g
unfolding comes_before
InOrder-comes_before f g h = ranked f.severity g.severity (text_lt g.check_id f.check_id) h

AreInOrder-IsSorted : (fs : List Finding) → IsSorted comes_before fs → AreInOrder fs
unfolding IsSorted
AreInOrder-IsSorted [] h = tt
AreInOrder-IsSorted (f ∷ fs) (h, hs) = (above fs h, AreInOrder-IsSorted fs hs)
  where
    above : (gs : List Finding) → All (λ g. comes_before g f ≡ false) gs → All (InOrder f) gs
    above [] h = tt
    above (g ∷ gs) (h, hs) = (InOrder-comes_before f g h, above gs hs)

-- The findings are sorted by severity, critical, warning, info and ok, and then by check; none is
-- lost or added; and those of one severity and check stay in the order in which they were given.
pub sort_findings_lem :
    (fs : List Finding)
    → AreInOrder (sort_findings fs)
      × Perm (sort_findings fs) fs
      × ((s : Severity) (id : Text)
          → select (is_level s id) (sort_findings fs) ≡ select (is_level s id) fs)
unfolding sort_findings
sort_findings_lem fs = (
  AreInOrder-IsSorted (sort comes_before fs)
      (sort-IsSorted comes_before comes_before_asym comes_before_trans fs),
  sort-Perm comes_before fs,
  λ s id. sort-select comes_before (is_level s id) fs (same_level s id),
)

AreInOrder-map :
    (h : Finding → Finding) (fs : List Finding)
    → ((f : Finding) → ((h f).severity ≡ f.severity) × ((h f).check_id ≡ f.check_id))
    → AreInOrder fs
    → AreInOrder (map h fs)
AreInOrder-map h [] same s = tt
AreInOrder-map h (f ∷ fs) same (a, s) = (above fs a, AreInOrder-map h fs same s)
  where
    above : (gs : List Finding) → All (InOrder f) gs → All (InOrder (h f)) (map h gs)
    above [] a = tt
    above (g ∷ gs) (x, a) = (rw ((same f).0, (same g).0, (same f).1, (same g).1) x, above gs a)

step_key :
    (ctx : Option ScanContext) (f : Finding)
    → ((classify_step ctx f).severity ≡ f.severity) × ((classify_step ctx f).check_id ≡ f.check_id)
step_key ctx f =
    let framed = (classify_step_frame ctx f).0 in
    (ap (λ (z : Finding). z.severity) framed.same, ap (λ (z : Finding). z.check_id) framed.same)

module _ {W : Type 0} (p : Parts W) where
  -- The findings of a scan's result are in the order of their severities, critical, warning, info
  -- and ok, and then of their checks: the classification and the redaction keep the order.
  pub assemble-AreInOrder :
      (ctx : ScanContext) (stack : Stack) (raw : List Finding)
      → AreInOrder (assemble p ctx stack raw).findings
  unfolding assemble redact_result redact_with redact_finding classify
  assemble-AreInOrder ctx stack raw =
      AreInOrder-map _ _ (λ f. (refl, refl))
        (AreInOrder-map (classify_step (some ctx)) (sort_findings raw) (step_key (some ctx))
          (sort_findings_lem raw).0)

  -- The value of a variable with a secret name of the parsed stack, if it has at least six bytes
  -- without its outer spaces, no bracket, and is no part of the marker's word, occurs in none of
  -- these texts of the result that a scan returns and hands to the AI layer: the summary; the title,
  -- detail, evidence, resource, fix (summary, diff and commands), mitigations and metadata values of
  -- each finding, assessed or not; the reason of the cap; the banners of the probe; and of the
  -- collected facts the values of the configurations, the rules of the firewall, the arguments of
  -- the processes, the messages of the errors, and the names, errors and tools of the MCP servers.
  pub assemble-absent :
      (ctx : ScanContext) (stack : Stack) (raw : List Finding) (v : Text)
      → Mem v (secret_values stack.env)
      → min_known_value_len ≤ length (trim_space v)
      → IsClean (trim_space v)
      → All (λ t. contains t (trim_space v) ≡ false) (redacted_texts (assemble p ctx stack raw))
  unfolding assemble known_secret_values
  assemble-absent ctx stack raw v m le clean = redact_result-absent _ v m le clean
