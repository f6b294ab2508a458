-- ===== src/Correlate/Report.antt =====
-- correlate.go: the report on the declared, the reachable and the intended ports. A map[int]bool
-- is the list of its keys; where the source ranges over one, the order is that of the sorted keys,
-- and each list that it builds is sorted in the end.
pub mod Keys
pub mod Categories
use keelix.Prelude.{
  ℕ, Bool, false, not, ◌&&◌, ◌||◌, List, [], ◌∷◌, ◌++◌, Option, none, some, ltb, leb, ◌==◌,
  if◌then◌else◌, any,
}
use keelix.Text.{Text}
use keelix.Intel.Ports.{PortInfo, lookup_port_info, is_sensitive_port, expected_public_port}
use keelix.Model.Stack.{Stack, Service, PortMapping, published_to_all_interfaces}
use keelix.Model.Scan.{ScanOptions, PortProbe, ProbeResult}
use keelix.Correlate.Ports.{stack_ports}

pub record PortFinding : Type 0 where
  pub port : ℕ
  pub service : Text
  pub detail : Text

-- The type Report.
pub record Report : Type 0 where
  pub declared : List ℕ
  pub reachable : List ℕ
  pub intended : List ℕ
  pub expected : List PortFinding
  pub surprises : List PortFinding
  pub sensitive_exposed : List PortFinding
  pub blocked : List PortFinding

-- m[k] of a map[int]bool
unfoldable pub has : ℕ → List ℕ → Bool
has k [] = false
has k (j ∷ js) = j == k || has k js

unfoldable pub insert_key : ℕ → List ℕ → List ℕ
insert_key k [] = k ∷ []
insert_key k (j ∷ js) =
    let rest = insert_key k js in
    if ltb k j then k ∷ j ∷ js else if k == j then j ∷ js else j ∷ rest

-- sortedKeys
unfoldable pub sorted_keys : List ℕ → List ℕ
sorted_keys [] = []
sorted_keys (k ∷ ks) = insert_key k (sorted_keys ks)

-- The loops that put the key of each accepted element into a map.
unfoldable pub keys_where : {A : Type 0} → (A → Bool) → (A → ℕ) → List A → List ℕ
keys_where accepts key [] = []
keys_where accepts key (x ∷ xs) =
    let rest = keys_where accepts key xs in if accepts x then key x ∷ rest else rest

unfoldable pub is_declared : Service × PortMapping → Bool
is_declared (svc, pm) = not (pm.host_port == 0) && published_to_all_interfaces pm

unfoldable pub is_expected : Service × PortMapping → Bool
unfolding is_declared
is_expected (svc, pm) = is_declared (svc, pm) && expected_public_port svc.image pm.host_port

abbrev pub host_port_of : Service × PortMapping → ℕ
host_port_of (svc, pm) = pm.host_port

-- declaredSet of Correlate
unfoldable pub declared_set : Option Stack → List ℕ
declared_set s = sorted_keys (keys_where is_declared host_port_of (stack_ports s))

unfoldable pub reachable_entries : Option ProbeResult → List (ℕ × PortProbe)
reachable_entries none = []
reachable_entries (some p) = p.reachable

-- reachableSet of Correlate
unfoldable pub reachable_set : Option ProbeResult → List ℕ
unfolding reachable_entries
reachable_set p =
    sorted_keys
      (keys_where (λ (port, probe). probe.is_open) (λ (port, probe). port) (reachable_entries p))

-- BuildIntended; the second argument is opts.IntendedPorts
unfoldable pub build_intended : Option Stack → List ℕ → List ℕ
build_intended s intended_ports =
    sorted_keys (intended_ports ++ keys_where is_expected host_port_of (stack_ports s))

owning_loop : ℕ → List (Service × PortMapping) → Text
owning_loop port [] = []
owning_loop port ((svc, pm) ∷ rest) =
    let later = owning_loop port rest in
    if pm.host_port == port && published_to_all_interfaces pm then svc.name else later

-- owningService
unfoldable pub owning_service : Option Stack → ℕ → Text
unfolding owning_loop
owning_service s port = owning_loop port (stack_ports s)

service_detail : Option PortInfo → Text
service_detail none = []
service_detail (some info) = info.service

unfoldable pub finding_of : Option Stack → ℕ → PortFinding
unfolding service_detail
finding_of s port = record {
  port = port;
  service = owning_service s port;
  detail = service_detail (lookup_port_info port);
}

unfoldable pub insert_finding : PortFinding → List PortFinding → List PortFinding
insert_finding f [] = f ∷ []
insert_finding f (g ∷ gs) =
    let rest = insert_finding f gs in if leb f.port g.port then f ∷ g ∷ gs else g ∷ rest

-- sortFindings
unfoldable pub sort_findings : List PortFinding → List PortFinding
sort_findings [] = []
sort_findings (f ∷ fs) = insert_finding f (sort_findings fs)

unfoldable pub select_findings : (ℕ → Bool) → Option Stack → List ℕ → List PortFinding
select_findings accepts s [] = []
select_findings accepts s (port ∷ ports) =
    let rest = select_findings accepts s ports in
    if accepts port then finding_of s port ∷ rest else rest

-- The loops that fill one category of the report.
unfoldable pub category : (ℕ → Bool) → Option Stack → List ℕ → List PortFinding
category accepts s ports = sort_findings (select_findings accepts s ports)

blocked_of : Option Stack → Option ProbeResult → List ℕ → List ℕ → List PortFinding
blocked_of s none declared reachable = []
blocked_of s (some p) declared reachable = category (λ port. not (has port reachable)) s declared

-- Correlate
unfoldable pub correlate : Option Stack → Option ProbeResult → Report
unfolding blocked_of
correlate s p =
    let declared = declared_set s in
    let reachable = reachable_set p in
    let intended = build_intended s [] in
    record {
      declared = declared;
      reachable = reachable;
      intended = intended;
      expected = category (λ port. has port intended) s reachable;
      surprises = category (λ port. not (has port declared) && not (has port intended)) s reachable;
      sensitive_exposed =
          category (λ port. is_sensitive_port port && not (has port intended)) s reachable;
      blocked = blocked_of s p declared reachable;
    }
