-- ===== src/Tests/Exposure.antt =====
-- The exposure of findings on one host.
use keelix.Prelude.{ℕ, ◌≡◌, ◌↔◌, refl, true, false, [], ◌∷◌, some, Mem, any}
use keelix.Text.{lookup, lookup_text, text_eq, trim_space, atoi, equal_fold, to_lower}
use keelix.Model.Scan.{is_reachable, lookup_port}
use keelix.Model.Signals.{socket_by_port}
use keelix.Correlate.Ports.{finding_port, stack_ports, host_ports_for, host_ports_loop, published}
use keelix.Correlate.Binds.{bind_class, max_class, max_step, max_bind_class, overlay_only}
use keelix.Correlate.Controls.{apply_controls, collapse, overlay_holds, proxy_holds, firewall_holds}
use keelix.Correlate.Controls.Bands.{Collapsed, control_notes, apply_controls-Collapsed}
use keelix.Correlate.Classify.{
  candidates, port_class, best_of, best_loop, best_step, socket_found, classify_one,
}
use keelix.Correlate.Classify.Internet.{IsConfirmed, classify_one-internet}
use keelix.Correlate.Firewall.{rule_allows_port, firewall_drops}
use keelix.Correlate.Firewall.Anchors.{accepting, rule_allows_port_iff}
use keelix.Correlate.Report.{correlate}
use keelix.Correlate.Report.Categories.{IsSorting, correlate_lists}
use keelix.Tests.Samples.{open_database, exploited, stack, probe, signals, context}

classify_one-internet_example :
    (port : ℕ) × (finding_port open_database ≡ some port)
    × ((p : ℕ) × Mem p (candidates (some context) port) × IsConfirmed (some context) p)
unfolding classify_one finding_port lookup text_eq trim_space atoi best_of candidates host_ports_for
    host_ports_loop stack_ports published any best_loop best_step port_class is_reachable
    lookup_port socket_found socket_by_port max_bind_class max_class max_step bind_class
    apply_controls collapse overlay_holds overlay_only proxy_holds firewall_holds firewall_drops
    equal_fold to_lower rule_allows_port lookup_text
classify_one-internet_example = classify_one-internet (some context) open_database refl

apply_controls-Collapsed_example :
    Collapsed exploited
      (control_notes (some signals) 9090 false exploited)
      (apply_controls (some signals) 9090 false exploited)
apply_controls-Collapsed_example = apply_controls-Collapsed (some signals) 9090 false exploited refl

correlate_lists_example :
    IsSorting (some stack) (some probe) (correlate (some stack) (some probe)) 8080
correlate_lists_example = correlate_lists (some stack) (some probe) 8080

rule_allows_port_iff_example :
    (rule_allows_port (accepting (8080 ∷ 443 ∷ [])) 80 ≡ true) ↔ Mem {A = ℕ} 80 (8080 ∷ 443 ∷ [])
rule_allows_port_iff_example = rule_allows_port_iff 80 (8080 ∷ 443 ∷ [])
