-- ===== src/Correlate/Report/Categories.antt =====
-- What the report of correlate.go holds.
use keelix.Prelude.{
  ℕ, ◌≡◌, refl, ◌∙◌, ap, Bool, not, ◌&&◌, ◌||◌, List, [], ◌∷◌, Option, some, arith, ltb, ◌==◌, any,
}
use keelix.Intel.Ports.{is_sensitive_port}
use keelix.Model.Stack.{Stack, Service, PortMapping, published_to_all_interfaces}
use keelix.Model.Scan.{ProbeResult}
use keelix.Correlate.Ports.{stack_ports, declared_public}
use keelix.Correlate.Report.{
  Report, has, keys_where, is_declared, is_expected, host_port_of, declared_set, reachable_set,
  reachable_entries, build_intended, correlate,
}
use keelix.Correlate.Report.Keys.{
  IsAscending, has-sorted_keys, has-append, has-keys_where, has-category, sorted_keys-IsAscending,
  ports_of,
}

-- A port is observed open.
unfoldable pub is_open_port : Option ProbeResult → ℕ → Bool
is_open_port p port = any (λ (q, probe). q == port && probe.is_open) (reachable_entries p)

-- A port is intended to be public: the operator said so, or an image that publishes it is expected to.
unfoldable pub is_intended : Option Stack → List ℕ → ℕ → Bool
is_intended s opts port =
    has port opts || any (λ x. host_port_of x == port && is_expected x) (stack_ports s)

declared_entry :
    (port : ℕ) (xs : List (Service × PortMapping))
    → any (λ x. host_port_of x == port && is_declared x) xs
      ≡ (ltb 0 port && any (λ (svc, pm). pm.host_port == port && published_to_all_interfaces pm) xs)
unfolding any is_declared
declared_entry port [] = ground arith
declared_entry port ((svc, pm) ∷ xs) = ground (arith, declared_entry port xs)

has-declared_set :
    (s : Option Stack) (port : ℕ)
    → has port (declared_set s) ≡ (ltb 0 port && declared_public s port)
unfolding declared_set declared_public
has-declared_set s port =
    has-sorted_keys port (keys_where is_declared host_port_of (stack_ports s))
    ∙ has-keys_where is_declared host_port_of port (stack_ports s)
    ∙ declared_entry port (stack_ports s)

has-reachable_set :
    (p : Option ProbeResult) (port : ℕ) → has port (reachable_set p) ≡ is_open_port p port
unfolding reachable_set is_open_port
has-reachable_set p port =
    has-sorted_keys port _
    ∙ has-keys_where (λ (q, probe). probe.is_open) (λ (q, probe). q) port (reachable_entries p)

-- BuildIntended holds the ports that the operator lists and the ports, other than 0, that an image
-- publishes to all interfaces and is expected to.
pub has-build_intended :
    (s : Option Stack) (opts : List ℕ) (port : ℕ)
    → has port (build_intended s opts) ≡ is_intended s opts port
unfolding build_intended is_intended
has-build_intended s opts port =
    has-sorted_keys port _
    ∙ has-append port opts _
    ∙ ap (λ b. has port opts || b) (has-keys_where is_expected host_port_of port (stack_ports s))

-- What each list of a report holds on one port.
pub record IsSorting (s : Option Stack) (p : Option ProbeResult) (r : Report) (port : ℕ)
    : Type 0 where
  pub declared : has port r.declared ≡ (ltb 0 port && declared_public s port)
  pub reachable : has port r.reachable ≡ is_open_port p port
  pub intended : has port r.intended ≡ is_intended s [] port
  pub expected : has port (ports_of r.expected) ≡ (is_open_port p port && is_intended s [] port)
  pub surprises : has port (ports_of r.surprises) ≡ (
      is_open_port p port
      && (not (ltb 0 port && declared_public s port) && not (is_intended s [] port)))
  pub sensitive_exposed :
      has port (ports_of r.sensitive_exposed)
      ≡ (is_open_port p port && (is_sensitive_port port && not (is_intended s [] port)))

-- A port stands in the declared list where it is positive and declared public, in the reachable list
-- where it is open, in the intended list where it is intended; in the expected list where it is open
-- and intended; among the surprises where it is open, not declared and not intended; and in the
-- sensitive list where it is open, sensitive and not intended.
pub correlate_lists :
    (s : Option Stack) (p : Option ProbeResult) (port : ℕ) → IsSorting s p (correlate s p) port
unfolding correlate
correlate_lists s p port =
    let d = has-declared_set s port in
    let r = has-reachable_set p port in
    let i = has-build_intended s [] port in
    record {
      declared = d;
      reachable = r;
      intended = i;
      expected = has-category _ s port (reachable_set p) ∙ rw (r, i) refl;
      surprises = has-category _ s port (reachable_set p) ∙ rw (r, d, i) refl;
      sensitive_exposed = has-category _ s port (reachable_set p) ∙ rw (r, i) refl;
    }

-- With a probe, the blocked ports are the declared ones that it did not see open.
pub correlate_blocked :
    (s : Option Stack) (p : ProbeResult) (port : ℕ)
    → has port (ports_of (correlate s (some p)).blocked)
      ≡ ((ltb 0 port && declared_public s port) && not (is_open_port (some p) port))
unfolding correlate
correlate_blocked s p port =
    has-category _ s port (declared_set s)
    ∙ rw (has-declared_set s port, has-reachable_set (some p) port) refl

-- The lists of port numbers are strictly ascending, so each port stands once.
pub correlate-IsAscending :
    (s : Option Stack) (p : Option ProbeResult)
    → IsAscending (correlate s p).declared
      × IsAscending (correlate s p).reachable
      × IsAscending (correlate s p).intended
unfolding correlate declared_set reachable_set build_intended
correlate-IsAscending s p =
    (sorted_keys-IsAscending _, sorted_keys-IsAscending _, sorted_keys-IsAscending _)
