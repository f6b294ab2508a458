-- ===== src/Correlate/Ports.antt =====
-- findingPort, hostPortFor, hostPortsFor and declaredPublic of classify.go. The nested loops over
-- the services and their ports run over the pairs in this order.
pub mod Hosts
use keelix.Prelude.{
  ℕ, ◌+◌, Bool, not, ◌&&◌, List, [], ◌∷◌, ◌++◌, map, Option, none, some, ltb, ◌==◌, if◌then◌else◌,
  any,
}
use keelix.Text.{Text, codes, has_prefix, trim_prefix, trim_space, atoi, lookup}
use keelix.Model.Finding.{Finding}
use keelix.Model.Stack.{Stack, Service, PortMapping, published_to_all_interfaces}

unfoldable pub positive : Option ℕ → Option ℕ
positive none = none
positive (some n) = if ltb 0 n then some n else none

unfoldable pub resource_port : Text → Option ℕ
resource_port res =
    if has_prefix res (codes "port ")
    then positive (atoi (trim_space (trim_prefix res (codes "port "))))
    else none

unfoldable pub metadata_port : Option Text → Option ℕ
metadata_port none = none
metadata_port (some raw) = positive (atoi (trim_space raw))

-- findingPort; none for ok = false
unfoldable pub finding_port : Finding → Option ℕ
unfolding positive resource_port metadata_port
finding_port f = elim (metadata_port (lookup (codes "port") f.metadata)) [
  | some n ↦ some n
  | none ↦ resource_port (trim_space f.resource)
]

-- The pairs that `for svc … for pm` visits.
unfoldable pub published : List Service → List (Service × PortMapping)
published [] = []
published (svc ∷ svcs) = map (λ pm. (svc, pm)) svc.ports ++ published svcs

unfoldable pub stack_ports : Option Stack → List (Service × PortMapping)
unfolding published
stack_ports none = []
stack_ports (some s) = published s.services

host_port_loop : ℕ → ℕ → ℕ → List (Service × PortMapping) → ℕ
host_port_loop port found host_port [] = if found == 1 then host_port else 0
host_port_loop port found host_port ((svc, pm) ∷ ps) =
    if pm.container_port == port
    then host_port_loop port (found + 1) pm.host_port ps
    else host_port_loop port found host_port ps

-- hostPortFor
unfoldable pub host_port_for : Option Stack → ℕ → ℕ
unfolding host_port_loop
host_port_for stack port = host_port_loop port 0 0 (stack_ports stack)

-- The map `seen` holds the ports of the result.
unfoldable pub host_ports_loop : ℕ → List ℕ → List (Service × PortMapping) → List ℕ
host_ports_loop port result [] = result
host_ports_loop port result ((svc, pm) ∷ ps) =
    host_ports_loop port
      (if pm.container_port == port
          && ltb 0 pm.host_port
          && not (any (λ q. q == pm.host_port) result)
        then result ++ pm.host_port ∷ []
        else result)
      ps

-- hostPortsFor
unfoldable pub host_ports_for : Option Stack → ℕ → List ℕ
host_ports_for stack port = host_ports_loop port [] (stack_ports stack)

-- declaredPublic
unfoldable pub declared_public : Option Stack → ℕ → Bool
declared_public stack port =
    any (λ (svc, pm). pm.host_port == port && published_to_all_interfaces pm) (stack_ports stack)
