-- ===== src/Checks/Firewall.antt =====
-- internal/checks/firewall: what Docker publishes past the host firewall, and exposed daemons. The
-- first and the fourth check dereference ctx.Stack: the stack is their first argument.
pub mod Bypassed
use keelix.Prelude.{ℕ, Bool, not, ◌&&◌, List, [], ◌∷◌, Option, none, some, ◌==◌, any, if◌then◌else◌}
use keelix.Text.{Text, codes, utf8, text_eq, itoa}
use keelix.Model.Finding.{Finding}
use keelix.Model.Stack.{
  Stack, Service, PortMapping, FirewallConfig, published_to_all_interfaces, denies,
}
use keelix.Model.Scan.{ScanContext, is_reachable}
use keelix.Checks.{
  Check, failing, passing, for_each, or_pass, with_services, over_services, report_if, concat,
  summary_fix,
}
use keelix.Intel.Ports.{lookup_port_info, is_sensitive_port}
use keelix.Correlate.Ports.{stack_ports}
use keelix.Checks.Exposure.{port_resource, is_intended, bind_diff, is_declared_port, service_name}

abbrev engine_of : FirewallConfig → Text
engine_of fw = if text_eq fw.engine [] then (codes "the firewall") else fw.engine

unfoldable pub fw001_finding : ScanContext → FirewallConfig → Service → PortMapping → Finding
fw001_finding ctx fw svc pm =
    let port = itoa pm.host_port in
    record (failing (codes "FW001")) {
      service = svc.name;
      resource = port_resource pm.host_port;
      evidence = concat (
          (codes "Compose publishes ")
          ∷ port
          ∷ (codes " but ")
          ∷ engine_of fw
          ∷ (codes " has `deny ")
          ∷ port
          ∷ (utf8 "` — Docker writes its iptables rules before ")
          ∷ engine_of fw
          ∷ (codes ", so the port is reachable anyway")
          ∷ (if is_reachable ctx.probe pm.host_port
              then (codes " (confirmed reachable from outside)")
              else [])
          ∷ []);
      fix = record {
        summary = concat (
            (codes "Bind port ")
            ∷ port
            ∷ (codes " to 127.0.0.1 in Compose, or add a DOCKER-USER iptables rule to block it")
            ∷ []);
        diff = bind_diff pm.host_port pm.container_port;
        commands =
            concat
              ((codes "iptables -I DOCKER-USER -p tcp --dport ") ∷ port ∷ (codes " -j DROP") ∷ [])
            ∷ [];
        doc_url = [];
      };
    }

abbrev pub is_bypassed : FirewallConfig → PortMapping → Bool
is_bypassed fw pm = is_declared_port pm && denies (some fw) pm.host_port

unfoldable pub fw001_port : ScanContext → FirewallConfig → Service × PortMapping → List Finding
fw001_port ctx fw (svc, pm) = report_if (is_bypassed fw pm) (fw001_finding ctx fw svc pm)

unfoldable pub fw001_with : Stack → ScanContext → Option FirewallConfig → List Finding
fw001_with stack ctx none = []
fw001_with stack ctx (some fw) =
    or_pass (codes "FW001")
      (codes "No published ports are blocked by the host firewall in a way Docker would bypass.")
      (for_each (fw001_port ctx fw) (stack_ports (some stack)))

-- fw001.Run
unfoldable pub fw001 : Stack → Check
unfolding fw001_with
fw001 stack ctx = fw001_with stack ctx stack.firewall

abbrev check_port : PortMapping → ℕ
check_port pm = if pm.host_port == 0 then pm.container_port else pm.host_port

unfoldable pub fw002_finding : Service → PortMapping → Finding
unfolding service_name
fw002_finding svc pm =
    let port = check_port pm in
    record (failing (codes "FW002")) {
      service = svc.name;
      resource = port_resource port;
      evidence = concat (
          service_name (lookup_port_info port)
          ∷ (codes " (port ")
          ∷ itoa port
          ∷ (codes ") is bound to all interfaces (0.0.0.0)")
          ∷ []);
      fix =
          record (summary_fix (
            concat (
              (codes "Bind port ")
              ∷ itoa port
              ∷ (codes " to 127.0.0.1 so it is not reachable from external interfaces")
              ∷ []))) { diff = bind_diff port pm.container_port };
    }

unfoldable pub fw002_port : ScanContext → Service × PortMapping → List Finding
fw002_port ctx (svc, pm) =
    report_if
      (published_to_all_interfaces pm
        && is_sensitive_port (check_port pm)
        && not (is_intended ctx (check_port pm)))
      (fw002_finding svc pm)

-- fw002.Run
unfoldable pub fw002 : Check
fw002 ctx =
    with_services (codes "FW002")
      (λ svcs.
        or_pass (codes "FW002") (codes "No sensitive ports are bound to all interfaces.")
          (for_each (fw002_port ctx) (stack_ports ctx.stack)))
      ctx.stack

unfoldable pub fw003_service : Service → List Finding
fw003_service svc =
    report_if (text_eq svc.network_mode (codes "host")) (record (failing (codes "FW003")) {
      service = svc.name;
      resource = (codes "network_mode: host");
      evidence = concat (
          (codes "service \"")
          ∷ svc.name
          ∷ (codes "\" uses network_mode: host, removing Docker network isolation")
          ∷ []);
    })

-- fw003.Run
unfoldable pub fw003 : Check
fw003 = over_services (codes "FW003") (codes "No services use host network mode.") fw003_service

unfoldable pub fw004_finding : Finding
fw004_finding = record (failing (codes "FW004")) {
  evidence =
      (codes
        "No DOCKER-USER iptables chain rule was found; Docker-published ports bypass the host firewall");
  fix = record {
    summary =
        (codes
          "Add DOCKER-USER iptables rules to restrict which external addresses can reach published container ports");
    diff = [];
    commands =
        (codes "iptables -N DOCKER-USER 2>/dev/null || true")
        ∷ (codes "iptables -I DOCKER-USER -i eth0 -j DROP")
        ∷ [];
    doc_url = [];
  };
}

-- fw004.Run
unfoldable pub fw004 : Stack → Check
fw004 stack ctx = elim stack.firewall [
  | none ↦ []
  | some fw ↦
      if not (any (λ (svc, pm). is_declared_port pm) (stack_ports (some stack)))
      then []
      else if fw.has_docker_user_chain
      then passing (codes "FW004")
          (codes "A DOCKER-USER firewall chain is present to restrict published ports.")
      else fw004_finding ∷ []
]
