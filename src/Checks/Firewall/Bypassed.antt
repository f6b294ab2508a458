-- ===== src/Checks/Firewall/Bypassed.antt =====
-- internal/checks/firewall/fw001.go, with the parser: a port that ufw denies and Docker publishes.
use keelix.Prelude.{
  ℕ, ◌≤◌, true, false, not, List, [], ◌∷◌, some, ◌≡◌, ◌≢◌, refl, sym, ap, subst, ◌↔◌, Mem, here,
  there, Mem-append_left, Mem-append_right, map, map-Mem, arith, ◌==◌, &&_iff,
}
use keelix.Text.{Text, max_int, split_byte}
use keelix.Model.Finding.{Finding}
use keelix.Model.Stack.{Stack, Service, PortMapping, FirewallConfig, published_to_all_interfaces}
use keelix.Model.Scan.{ScanContext}
use keelix.Catalog.{finding}
use keelix.Correlate.Ports.{stack_ports, published}
use keelix.Parse.Ufw.{is_ufw, load_firewall}
use keelix.Parse.Ufw.Denied.{deny_line, load_firewall-denies}
use keelix.Checks.Laws.{report_iff}
use keelix.Checks.Firewall.{is_bypassed, fw001, fw001_with, fw001_port, fw001_finding}

published-Mem :
    (svcs : List Service) {svc : Service} {pm : PortMapping}
    → Mem svc svcs
    → Mem pm svc.ports
    → Mem (svc, pm) (published svcs)
unfolding published
published-Mem [] at m = elim at [ ]
published-Mem (svc ∷ svcs) here m =
    Mem-append_left _ (published svcs) (map-Mem (λ q. (svc, q)) svc.ports m)
published-Mem (s ∷ svcs) (there at) m =
    Mem-append_right (map (λ q. (s, q)) s.ports) (published svcs) (published-Mem svcs at m)

nonzero : (n : ℕ) → n ≢ 0 → not (n == 0) ≡ true
nonzero n h = ground arith

module _ (ctx : ScanContext) (s : Stack) (fw : FirewallConfig) (e : s.firewall ≡ some fw) where
  -- With a firewall, the check reports exactly the declared ports that the firewall denies.
  fw001_iff :
      (f : Finding)
      → (Mem f (fw001 s ctx) × (f.passed ≡ false)) ↔ (
          (q : Service × PortMapping) × Mem q (stack_ports (some s))
          × (is_bypassed fw q.1 ≡ true)
          × (f ≡ fw001_finding ctx fw q.0 q.1))
  unfolding fw001 fw001_port fw001_finding finding
  fw001_iff f =
      subst
        (λ fs. (Mem f fs × (f.passed ≡ false)) ↔ (
          (q : Service × PortMapping) × Mem q (stack_ports (some s))
          × (is_bypassed fw q.1 ≡ true)
          × (f ≡ fw001_finding ctx fw q.0 q.1)))
        (sym (ap (fw001_with s ctx) e))
        (report_iff _ _ (λ q. is_bypassed fw q.1) (λ q. fw001_finding ctx fw q.0 q.1) (λ q. refl)
          (stack_ports (some s)) f)

-- Where the stack publishes a port, other than 0 and in the range of an int, to all interfaces and
-- the dump of ufw that was loaded has the line that denies this port, the check for Docker's bypass
-- of the firewall reports the port.
pub fw001-reports :
    (ctx : ScanContext) (s : Stack) (path text : Text) {svc : Service} {pm : PortMapping}
    → s.firewall ≡ some (load_firewall path text)
    → is_ufw text ≡ true
    → Mem (deny_line pm.host_port) (split_byte 10 text)
    → pm.host_port ≤ max_int
    → Mem svc s.services
    → Mem pm svc.ports
    → published_to_all_interfaces pm ≡ true
    → pm.host_port ≢ 0
    → Mem (fw001_finding ctx (load_firewall path text) svc pm) (fw001 s ctx)
unfolding stack_ports
fw001-reports ctx s path text {svc} {pm} e ufw line le at listed public used =
    let denied = load_firewall-denies path text pm.host_port le ufw line in
    let test : is_bypassed (load_firewall path text) pm ≡ true =
      (&&_iff _ _).1 ((&&_iff _ _).1 (public, nonzero pm.host_port used), denied) in
    ((fw001_iff ctx s (load_firewall path text) e _).1
      ((svc, pm), published-Mem s.services at listed, test, refl)).0
