-- ===== src/Correlate/Controls.antt =====
-- prevBand and applyControls of classify.go.
pub mod Bands
use keelix.Prelude.{
  ℕ, Bool, true, false, not, ◌&&◌, [], ◌∷◌, ◌++◌, Option, none, some, if◌then◌else◌,
}
use keelix.Text.{Text, codes, text_eq, lookup_text}
use keelix.Model.Finding.{
  Finding, ExposureClass, unknown, localhost, overlay, lan, filtered, internet,
}
use keelix.Model.Signals.{Signals}
use keelix.Correlate.Binds.{overlay_only}
use keelix.Correlate.Firewall.{firewall_drops}

-- prevBand
unfoldable pub prev_band : ExposureClass → ExposureClass
prev_band internet = filtered
prev_band filtered = lan
prev_band lan = overlay
prev_band overlay = localhost
prev_band localhost = localhost
prev_band unknown = unknown

unfoldable pub overlay_note : Text
overlay_note =
    codes "Reachable only over an overlay/tailnet (WireGuard); not exposed to the public internet."

unfoldable pub proxy_note : Text
proxy_note = codes "Fronted by an authenticating reverse proxy; direct access requires credentials."

unfoldable pub firewall_note : Text
firewall_note =
    codes "Host firewall default-inbound DROP covers this port; unsolicited inbound is blocked."

-- One control: a note and a band lower.
unfoldable pub collapse : Bool → Text → Finding → Finding
collapse holds note f =
    if holds
    then record f {
      mitigations = f.mitigations ++ note ∷ [];
      exposure_class = prev_band f.exposure_class;
    }
    else f

unfoldable pub overlay_holds : Option Signals → ℕ → Bool → Bool
overlay_holds none port probe_open = false
overlay_holds (some s) port probe_open = not probe_open && overlay_only s.sockets port

unfoldable pub proxy_holds : Finding → Bool
proxy_holds f = text_eq (lookup_text (codes "auth_proxy") f.metadata) (codes "true")

unfoldable pub firewall_holds : Option Signals → ℕ → Bool → Bool
firewall_holds none port probe_open = false
firewall_holds (some s) port probe_open = not probe_open && firewall_drops s.firewall port

abbrev pub can_collapse : ExposureClass → Bool
can_collapse unknown = false
can_collapse localhost = false
can_collapse _ = true

-- applyControls
unfoldable pub apply_controls : Option Signals → ℕ → Bool → Finding → Finding
apply_controls collector port probe_open f =
    if can_collapse f.exposure_class
    then (let f1 = collapse (overlay_holds collector port probe_open) overlay_note f in
        let f2 = collapse (proxy_holds f1) proxy_note f1 in
        collapse (firewall_holds collector port probe_open) firewall_note f2)
    else f
