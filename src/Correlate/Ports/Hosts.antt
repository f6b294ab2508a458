-- ===== src/Correlate/Ports/Hosts.antt =====
-- The list that hostPortsFor gives.
use keelix.Prelude.{
  ℕ, ◌≡◌, refl, ◌∙◌, ap, Bool, true, false, not, ◌&&◌, ◌||◌, List, [], ◌∷◌, ◌++◌, Option, arith,
  ltb, ◌==◌, any, Bool-cases, ==_iff, inl, inr, if◌then◌else◌,
}
use keelix.Model.Stack.{Stack, Service, PortMapping}
use keelix.Correlate.Ports.{stack_ports, host_ports_loop, host_ports_for}

-- The list holds the port.
abbrev pub holds : ℕ → List ℕ → Bool
holds p ps = any (λ q. q == p) ps

-- No port stands twice.
abbrev pub IsOnce : List ℕ → Type 0
IsOnce [] = Unit
IsOnce (p ∷ ps) = (holds p ps ≡ false) × IsOnce ps

holds-append : (p q : ℕ) (ps : List ℕ) → holds p (ps ++ q ∷ []) ≡ (holds p ps || q == p)
unfolding any
holds-append p q [] = ground arith
holds-append p q (r ∷ ps) = ground (arith, holds-append p q ps)

append-IsOnce : (q : ℕ) (ps : List ℕ) → IsOnce ps → holds q ps ≡ false → IsOnce (ps ++ q ∷ [])
unfolding any
append-IsOnce q [] h k = (refl, tt)
append-IsOnce q (r ∷ ps) (h, hs) k =
    (ground (arith, holds-append r q ps), append-IsOnce q ps hs (ground arith))

-- One turn of the loop, with the first tests as a Boolean.
abbrev turn : Bool → ℕ → List ℕ → List ℕ
turn wanted q ps = if wanted && ltb 0 q && not (holds q ps) then ps ++ q ∷ [] else ps

turn-IsOnce : (wanted : Bool) (q : ℕ) (ps : List ℕ) → IsOnce ps → IsOnce (turn wanted q ps)
turn-IsOnce wanted q ps h = elim (Bool-cases (wanted && ltb 0 q && not (holds q ps))) [
  | inl fresh ↦ rw fresh (append-IsOnce q ps h (ground arith))
  | inr old ↦ rw old h
]

loop-IsOnce :
    (port : ℕ) (xs : List (Service × PortMapping)) (ps : List ℕ)
    → IsOnce ps
    → IsOnce (host_ports_loop port ps xs)
unfolding host_ports_loop
loop-IsOnce port [] ps h = h
loop-IsOnce port ((svc, pm) ∷ xs) ps h =
    let wanted = pm.container_port == port in
    loop-IsOnce port xs (turn wanted pm.host_port ps) (turn-IsOnce wanted pm.host_port ps h)

-- A mapping of the container port to a host port.
unfoldable pub maps_to : ℕ → ℕ → Service × PortMapping → Bool
maps_to port p (svc, pm) = pm.container_port == port && pm.host_port == p

turn-holds :
    (wanted : Bool) (p q : ℕ) (ps : List ℕ)
    → holds p (turn wanted q ps) ≡ (holds p ps || (ltb 0 p && (wanted && q == p)))
turn-holds wanted p q ps = elim (Bool-cases (q == p)) [
  | inl same ↦
      let e = ap (λ x. holds x ps) ((==_iff q p).0 same) in ground (arith, holds-append p q ps, e)
  | inr other ↦ ground (arith, holds-append p q ps)
]

rotate : (h z a b : Bool) → ((h || (z && a)) || (z && b)) ≡ (h || (z && (if a then true else b)))
rotate true z a b = refl
rotate false true true b = refl
rotate false true false b = refl
rotate false false a b = refl

loop-holds :
    (port p : ℕ) (xs : List (Service × PortMapping)) (ps : List ℕ)
    → holds p (host_ports_loop port ps xs) ≡ (holds p ps || (ltb 0 p && any (maps_to port p) xs))
unfolding host_ports_loop any maps_to
loop-holds port p [] ps = ground arith
loop-holds port p ((svc, pm) ∷ xs) ps =
    let wanted = pm.container_port == port in
    loop-holds port p xs (turn wanted pm.host_port ps)
    ∙ rw (turn-holds wanted p pm.host_port ps)
        (rotate (holds p ps) (ltb 0 p) (wanted && pm.host_port == p) (any (maps_to port p) xs))

-- hostPortsFor lists exactly the host ports, other than 0, that some service maps the container port to.
pub host_ports_for-holds :
    (s : Option Stack) (port p : ℕ)
    → holds p (host_ports_for s port) ≡ (ltb 0 p && any (maps_to port p) (stack_ports s))
unfolding host_ports_for any
host_ports_for-holds s port p = loop-holds port p (stack_ports s) []

-- hostPortsFor lists no port twice.
pub host_ports_for-IsOnce : (s : Option Stack) (port : ℕ) → IsOnce (host_ports_for s port)
unfolding host_ports_for
host_ports_for-IsOnce s port = loop-IsOnce port (stack_ports s) [] tt
