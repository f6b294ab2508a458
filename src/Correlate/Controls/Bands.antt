-- ===== src/Correlate/Controls/Bands.antt =====
-- What the compensating controls do to the class and the mitigations of a finding.
use keelix.Prelude.{
  ℕ, ◌-◌, ◌≤◌, ◌≡◌, ◌≢◌, refl, sym, ap, ◌∙◌, Bool, true, false, List, [], ◌∷◌, ◌++◌, Option, arith,
  length, max, length-append,
}
use mathlib.Core.List.{append_assoc, append-nil}
use keelix.Text.{Text}
use keelix.Model.Finding.{
  Finding, ExposureClass, unknown, localhost, overlay, lan, filtered, internet, exposure_rank,
}
use keelix.Model.Signals.{Signals}
use keelix.Correlate.Controls.{
  prev_band, collapse, overlay_holds, proxy_holds, firewall_holds, can_collapse, apply_controls,
  overlay_note, proxy_note, firewall_note,
}

-- A class `n` bands below `c`, not below localhost.
abbrev pub Lowered : ExposureClass → ℕ → ExposureClass → Type 0
Lowered c n d = exposure_rank d ≡ max 1 (exposure_rank c - n)

pub prev_band_rank :
    (c : ExposureClass) → c ≢ unknown → exposure_rank (prev_band c) ≡ max 1 (exposure_rank c - 1)
unfolding prev_band
prev_band_rank unknown h = absurd (h refl)
prev_band_rank localhost h = refl
prev_band_rank overlay h = refl
prev_band_rank lan h = refl
prev_band_rank filtered h = refl
prev_band_rank internet h = refl

-- A finding is as before but for the notes that were appended and its class, which is one band
-- lower for each note.
pub record Collapsed (f : Finding) (notes : List Text) (g : Finding) : Type 0 where
  pub class : ExposureClass
  pub same : g ≡ record f { mitigations = f.mitigations ++ notes; exposure_class = class }
  pub lowered : Lowered f.exposure_class (length notes) class

abbrev pub note_if : Bool → Text → List Text
note_if true note = note ∷ []
note_if false note = []

collapse-Collapsed :
    (f g : Finding) (holds : Bool) (note : Text) {notes : List Text}
    → Collapsed f notes g
    → Collapsed f (notes ++ note_if holds note) (collapse holds note g)
unfolding collapse
collapse-Collapsed f g true note {notes} c = record {
  class = prev_band c.class;
  same =
      ap (collapse true note) c.same
      ∙ ap (λ l. record f { mitigations = l; exposure_class = prev_band c.class })
          (append_assoc f.mitigations notes (note ∷ []));
  lowered = omega (
    arith,
    c.lowered,
    prev_band_rank c.class (λ e. absurd (omega (arith, c.lowered, ap exposure_rank e))),
    length-append {0} notes (note ∷ []),
  );
}
collapse-Collapsed f g false note {notes} c = record {
  class = c.class;
  same =
      c.same
      ∙ ap (λ l. record f { mitigations = f.mitigations ++ l; exposure_class = c.class })
          (sym (append-nil notes));
  lowered = rw (append-nil notes) c.lowered;
}

can_collapse_rank : (c : ExposureClass) → can_collapse c ≡ true → 1 ≤ exposure_rank c
can_collapse_rank c e = ground arith

Collapsed-refl : (f : Finding) → can_collapse f.exposure_class ≡ true → Collapsed f [] f
Collapsed-refl f e = record {
  class = f.exposure_class;
  same = ap (λ l. record f { mitigations = l }) (sym (append-nil f.mitigations));
  lowered = omega (arith, can_collapse_rank f.exposure_class e);
}

-- The notes of the controls that hold, in the order in which the code tries them.
abbrev pub control_notes : Option Signals → ℕ → Bool → Finding → List Text
control_notes collector port probe_open f =
    (note_if (overlay_holds collector port probe_open) overlay_note
      ++ note_if (proxy_holds f) proxy_note)
    ++ note_if (firewall_holds collector port probe_open) firewall_note

proxy_holds-collapse :
    (holds : Bool) (note : Text) (f : Finding) → proxy_holds (collapse holds note f) ≡ proxy_holds f
unfolding proxy_holds collapse
proxy_holds-collapse true note f = refl
proxy_holds-collapse false note f = refl

-- Where the class can collapse, a note is appended for each control that holds and the class goes
-- down by as many bands, but not below localhost; nothing else of the finding changes.
pub apply_controls-Collapsed :
    (collector : Option Signals) (port : ℕ) (probe_open : Bool) (f : Finding)
    → can_collapse f.exposure_class ≡ true
    → Collapsed f
        (control_notes collector port probe_open f)
        (apply_controls collector port probe_open f)
unfolding apply_controls
apply_controls-Collapsed collector port probe_open f e =
    let o = overlay_holds collector port probe_open in
    let first = collapse o overlay_note f in
    let start = collapse-Collapsed f f o overlay_note (Collapsed-refl f e) in
    let second = collapse-Collapsed f first (proxy_holds f) proxy_note start in
    rw (e, proxy_holds-collapse o overlay_note f)
      (collapse-Collapsed f (collapse (proxy_holds f) proxy_note first)
        (firewall_holds collector port probe_open) firewall_note second)

-- A class that cannot collapse is kept, with all else of the finding.
pub apply_controls_same :
    (collector : Option Signals) (port : ℕ) (probe_open : Bool) (f : Finding)
    → can_collapse f.exposure_class ≡ false
    → apply_controls collector port probe_open f ≡ f
unfolding apply_controls
apply_controls_same collector port probe_open f e = rw e
