-- ===== src/Correlate/Classify/Frame.antt =====
-- What Classify changes of a finding, and a second run of it.
use keelix.Prelude.{
  ℕ, ◌≡◌, ◌≢◌, refl, sym, ap, ◌∙◌, Bool, true, false, List, [], ◌∷◌, ◌++◌, Option, none, some,
  arith, Bool-cases, inl, inr, ◌⊎◌,
}
use mathlib.Core.List.{append-nil}
use mathlib.Core.Path.{ap₂}
use keelix.Text.{Text}
use keelix.Model.Finding.{Finding, ok, ExposureClass, unknown, is_unknown, exposure_rank}
use keelix.Model.Check.{domain_of, ai_mcp}
use keelix.Model.Signals.{Signals}
use keelix.Model.Scan.{ScanContext}
use keelix.Correlate.Ports.{finding_port}
use keelix.Correlate.Controls.{apply_controls, can_collapse}
use keelix.Correlate.Controls.Bands.{apply_controls-Collapsed, apply_controls_same}
use keelix.Correlate.Classify.{
  collector_of, best_of, classify_port, classify_one, is_skipped, classify_step, classify,
}

-- A finding is as before but for its class and for notes appended to its mitigations.
pub record IsFramed (f g : Finding) : Type 0 where
  pub notes : List Text
  pub class : ExposureClass
  pub same : g ≡ record f { mitigations = f.mitigations ++ notes; exposure_class = class }

IsFramed-class : (f : Finding) (c : ExposureClass) → IsFramed f (record f { exposure_class = c })
IsFramed-class f c = record {
  notes = [];
  class = c;
  same =
      ap (λ l. record f { mitigations = l; exposure_class = c }) (sym (append-nil f.mitigations));
}

apply_controls-IsFramed :
    (collector : Option Signals) (port : ℕ) (probe_open : Bool) (f : Finding) (c : ExposureClass)
    → IsFramed f (apply_controls collector port probe_open (record f { exposure_class = c }))
unfolding IsFramed-class
apply_controls-IsFramed collector port probe_open f c =
    let g : Finding = record f { exposure_class = c } in
    elim (Bool-cases (can_collapse c)) [
      | inl e ↦
          let r = apply_controls-Collapsed collector port probe_open g e in
          record { notes = _; class = r.class; same = r.same }
      | inr e ↦
          let w = IsFramed-class f c in
          record {
            notes = [];
            class = c;
            same = apply_controls_same collector port probe_open g e ∙ w.same;
          }
    ]

classify_port-IsFramed :
    (ctx : Option ScanContext) (f : Finding) (o : Option ℕ) → IsFramed f (classify_port ctx f o)
unfolding classify_port
classify_port-IsFramed ctx f none = IsFramed-class f unknown
classify_port-IsFramed ctx f (some port) = apply_controls-IsFramed _ _ _ f _

is_unknown→eq : (c : ExposureClass) → is_unknown c ≡ true → c ≡ unknown
is_unknown→eq c h = ground arith

skipped_of :
    (f : Finding)
    → ((f.severity ≡ ok) ⊎ (domain_of f.group ≡ ai_mcp)) ⊎ (f.exposure_class ≢ unknown)
    → is_skipped f ≡ true
unfolding is_skipped
skipped_of f h = ground arith

step-IsFramed : (ctx : Option ScanContext) (f : Finding) → IsFramed f (classify_step ctx f)
unfolding classify_step classify_one
step-IsFramed ctx f = elim (Bool-cases (is_skipped f)) [
  | inl on ↦ rw on (IsFramed-class f f.exposure_class)
  | inr off ↦ rw off (classify_port-IsFramed ctx f (finding_port f))
]

step_of_skipped :
    (ctx : Option ScanContext) (f : Finding) → is_skipped f ≡ true → classify_step ctx f ≡ f
unfolding classify_step
step_of_skipped ctx f on = rw on

step_of_unskipped :
    (ctx : Option ScanContext) (f : Finding)
    → is_skipped f ≡ false
    → classify_step ctx f ≡ classify_one ctx f
unfolding classify_step
step_of_unskipped ctx f off = rw off

-- The classification changes nothing of a finding but its class and its mitigations, to which it
-- only appends. It leaves a finding alone that passed, that is about AI or MCP, or that its check
-- has already classified.
pub classify_step_frame :
    (ctx : Option ScanContext) (f : Finding)
    → IsFramed f (classify_step ctx f)
      × (((f.severity ≡ ok) ⊎ (domain_of f.group ≡ ai_mcp)) ⊎ (f.exposure_class ≢ unknown)
          → classify_step ctx f ≡ f)
classify_step_frame ctx f = (step-IsFramed ctx f, λ h. step_of_skipped ctx f (skipped_of f h))

unskipped_unknown : (f : Finding) → is_skipped f ≡ false → f.exposure_class ≡ unknown
unfolding is_skipped
unskipped_unknown f off = ground arith

apply_controls_unknown :
    (collector : Option Signals) (port : ℕ) (probe_open : Bool) (g : Finding)
    → (apply_controls collector port probe_open g).exposure_class ≡ unknown
    → apply_controls collector port probe_open g ≡ g
apply_controls_unknown collector port probe_open g h =
    elim (Bool-cases (can_collapse g.exposure_class)) [
      | inr e ↦ apply_controls_same collector port probe_open g e
      | inl e ↦
          let r = apply_controls-Collapsed collector port probe_open g e in
          absurd (
            omega (
              arith,
              r.lowered,
              ap exposure_rank (sym (ap (λ (z : Finding). z.exposure_class) r.same) ∙ h),
            ))
    ]

-- Where the result is unknown, a finding of unknown class has not changed at all.
classify_port_unknown :
    (ctx : Option ScanContext) (f : Finding) (o : Option ℕ)
    → f.exposure_class ≡ unknown
    → (classify_port ctx f o).exposure_class ≡ unknown
    → classify_port ctx f o ≡ f
unfolding classify_port
classify_port_unknown ctx f none was h = ap (λ c. record f { exposure_class = c }) (sym was)
classify_port_unknown ctx f (some port) was h =
    let b = best_of ctx port in
    let g : Finding = record f { exposure_class = b.best } in
    let kept : classify_port ctx f (some port) ≡ g =
      apply_controls_unknown (collector_of ctx) b.effective b.probe_open g h in
    kept
    ∙ ap (λ c. record f { exposure_class = c })
        (sym (ap (λ (z : Finding). z.exposure_class) kept) ∙ h ∙ sym was)

step_twice :
    (ctx : Option ScanContext) (f : Finding)
    → classify_step ctx (classify_step ctx f) ≡ classify_step ctx f
unfolding classify_one
step_twice ctx f = elim (Bool-cases (is_skipped f)) [
  | inl on ↦ ap (classify_step ctx) (step_of_skipped ctx f on)
  | inr off ↦ elim (Bool-cases (is_unknown (classify_step ctx f).exposure_class)) [
    | inr known ↦ step_of_skipped ctx (classify_step ctx f) (skipped_of _ (inr (ground arith)))
    | inl unknown_still ↦ ap (classify_step ctx) (
        step_of_unskipped ctx f off
        ∙ classify_port_unknown ctx f (finding_port f) (unskipped_unknown f off) (
            sym (ap (λ (z : Finding). z.exposure_class) (step_of_unskipped ctx f off))
            ∙ is_unknown→eq _ unknown_still))
  ]
]

-- Classifying a second time changes nothing: no note is appended twice and no class goes down
-- further.
classify_idempotent :
    (ctx : Option ScanContext) (fs : List Finding)
    → classify ctx (classify ctx fs) ≡ classify ctx fs
unfolding classify
classify_idempotent ctx [] = refl
classify_idempotent ctx (f ∷ fs) = ap₂ ◌∷◌ (step_twice ctx f) (classify_idempotent ctx fs)
