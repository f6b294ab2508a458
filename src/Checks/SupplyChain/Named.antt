-- ===== src/Checks/SupplyChain/Named.antt =====
-- internal/checks/supplychain: the port that a finding on an image names.
use keelix.Prelude.{
  ℕ, ◌≤◌, ◌<◌, Bool, true, false, List, [], ◌∷◌, none, some, ◌≡◌, refl, sym, ap, subst, ◌∙◌, ◌≢◌,
  ◌⊎◌, inl, inr, Mem, here, there, All, arith,
}
use keelix.Text.{Text, trim_space, trim_left, trim_right, is_space, itoa, max_int}
use keelix.Text.Decimal.{IsDigit, itoa-IsDigit}
use keelix.Model.Stack.{Service, PortMapping, published_to_all_interfaces}
use keelix.Checks.SupplyChain.{
  is_better, most_exposed_host_port, exposed_loop, exposed_step, port_of, Exposed,
}

-- A number that the code can hold, other than 0.
abbrev pub IsPort : ℕ → Type 0
IsPort n = (0 < n) × (n ≤ max_int)

abbrev IsPortOf : Exposed → Type 0
IsPortOf none = Unit {0}
IsPortOf (some (port, public)) = IsPort port

exposed_step_cases :
    (pm : PortMapping) (e : Exposed)
    → (exposed_step pm e ≡ e)
      ⊎ ((exposed_step pm e ≡ some (pm.host_port, published_to_all_interfaces pm))
          × (0 < pm.host_port))
unfolding exposed_step
exposed_step_cases pm e = ground arith

exposed_step-none :
    (pm : PortMapping)
    → pm.host_port ≢ 0
    → exposed_step pm none ≡ some (pm.host_port, published_to_all_interfaces pm)
unfolding exposed_step
exposed_step-none pm h = ground arith

-- The port that the check names is one of the service's.
exposed_loop-IsPortOf :
    (pms : List PortMapping) (e : Exposed)
    → All (λ (pm : PortMapping). pm.host_port ≤ max_int) pms
    → IsPortOf e
    → IsPortOf (exposed_loop pms e)
unfolding exposed_loop
exposed_loop-IsPortOf [] e all h = h
exposed_loop-IsPortOf (pm ∷ pms) e (le, all) h =
    exposed_loop-IsPortOf pms (exposed_step pm e) all (elim (exposed_step_cases pm e) [
      | inl same ↦ subst IsPortOf (sym same) h
      | inr (e', pos) ↦ subst IsPortOf (sym e') (pos, le)
    ])

abbrev IsFound : Exposed → Type 0
IsFound e = (p : ℕ × Bool) × (e ≡ some p)

exposed_loop-IsFound :
    (pms : List PortMapping) (e : Exposed) → IsFound e → IsFound (exposed_loop pms e)
unfolding exposed_loop
exposed_loop-IsFound [] e h = h
exposed_loop-IsFound (pm ∷ pms) e (p, h) =
    exposed_loop-IsFound pms (exposed_step pm e)
      (elim (exposed_step_cases pm e) [ inl same ↦ (p, same ∙ h) | inr (e', pos) ↦ (_, e') ])

exposed_loop-finds :
    (pms : List PortMapping) (e : Exposed) {pm : PortMapping}
    → Mem pm pms
    → pm.host_port ≢ 0
    → IsFound (exposed_loop pms e)
unfolding exposed_loop
exposed_loop-finds [] e at h = elim at [ ]
exposed_loop-finds (pm ∷ pms) none here h =
    exposed_loop-IsFound pms (exposed_step pm none) (_, exposed_step-none pm h)
exposed_loop-finds (pm ∷ pms) (some p) here h = exposed_loop-IsFound (pm ∷ pms) (some p) (p, refl)
exposed_loop-finds (q ∷ pms) e (there at) h = exposed_loop-finds pms (exposed_step q e) at h

named-IsPort :
    (e : Exposed) → IsFound e → IsPortOf e → (port : ℕ) × (port_of e ≡ some port) × IsPort port
unfolding port_of
named-IsPort none (p, h) is = absurd (cc)
named-IsPort (some (port, public)) h is = (port, refl, is)

-- A service with a host port that is not 0 has one that the check names.
pub most_exposed_host_port-some :
    (svc : Service) {pm : PortMapping}
    → Mem pm svc.ports
    → pm.host_port ≢ 0
    → All (λ (q : PortMapping). q.host_port ≤ max_int) svc.ports
    → (port : ℕ) × (most_exposed_host_port svc ≡ some port) × IsPort port
unfolding most_exposed_host_port
most_exposed_host_port-some svc at h all =
    named-IsPort (exposed_loop svc.ports none) (exposed_loop-finds svc.ports none at h)
      (exposed_loop-IsPortOf svc.ports none all tt)

-- The flag of the port that is held.
abbrev IsTop : Exposed → Type 0
IsTop e = (port : ℕ) × (e ≡ some (port, true))

exposed_step-top :
    (pm : PortMapping) (port : ℕ)
    → (exposed_step pm (some (port, true)) ≡ some (port, true))
      ⊎ (exposed_step pm (some (port, true)) ≡ some (pm.host_port, true))
unfolding exposed_step is_better
exposed_step-top pm port = ground arith

exposed_step-IsTop : (pm : PortMapping) (e : Exposed) → IsTop e → IsTop (exposed_step pm e)
exposed_step-IsTop pm e (port, h) = elim (exposed_step-top pm port) [
  | inl same ↦ (port, ap (exposed_step pm) h ∙ same)
  | inr next ↦ (pm.host_port, ap (exposed_step pm) h ∙ next)
]

exposed_step-public :
    (pm : PortMapping) (e : Exposed)
    → pm.host_port ≢ 0
    → published_to_all_interfaces pm ≡ true
    → IsTop (exposed_step pm e)
unfolding exposed_step is_better
exposed_step-public pm none h public =
    (pm.host_port, exposed_step-none pm h ∙ ap (λ b. some (pm.host_port, b)) public)
exposed_step-public pm (some (port, true)) h public =
    exposed_step-IsTop pm (some (port, true)) (port, refl)
exposed_step-public pm (some (port, false)) h public = (pm.host_port, ground (arith, public))

exposed_loop-IsTop : (pms : List PortMapping) (e : Exposed) → IsTop e → IsTop (exposed_loop pms e)
unfolding exposed_loop
exposed_loop-IsTop [] e h = h
exposed_loop-IsTop (pm ∷ pms) e h =
    exposed_loop-IsTop pms (exposed_step pm e) (exposed_step-IsTop pm e h)

exposed_loop-public :
    (pms : List PortMapping) (e : Exposed) {pm : PortMapping}
    → Mem pm pms
    → pm.host_port ≢ 0
    → published_to_all_interfaces pm ≡ true
    → IsTop (exposed_loop pms e)
unfolding exposed_loop
exposed_loop-public [] e at h public = elim at [ ]
exposed_loop-public (pm ∷ pms) e here h public =
    exposed_loop-IsTop pms (exposed_step pm e) (exposed_step-public pm e h public)
exposed_loop-public (q ∷ pms) e (there at) h public =
    exposed_loop-public pms (exposed_step q e) at h public

module _ (all : List PortMapping) where
  abbrev IsPublic : ℕ → Type 0
  IsPublic port =
      (q : PortMapping) × Mem q all × (published_to_all_interfaces q ≡ true) × (q.host_port ≡ port)

  -- A port that is held as public is one that the list publishes.
  abbrev IsSound : Exposed → Type 0
  IsSound none = Unit {0}
  IsSound (some (port, false)) = Unit {0}
  IsSound (some (port, true)) = IsPublic port

  taken-IsSound :
      (pm : PortMapping) (b : Bool)
      → Mem pm all
      → published_to_all_interfaces pm ≡ b
      → IsSound (some (pm.host_port, b))
  taken-IsSound pm false at h = tt
  taken-IsSound pm true at h = (pm, at, h, refl)

  exposed_loop-IsSound :
      (pms : List PortMapping) (e : Exposed)
      → ((q : PortMapping) → Mem q pms → Mem q all)
      → IsSound e
      → IsSound (exposed_loop pms e)
  unfolding exposed_loop
  exposed_loop-IsSound [] e within h = h
  exposed_loop-IsSound (pm ∷ pms) e within h =
      exposed_loop-IsSound pms (exposed_step pm e) (λ q at. within q (there at))
        (elim (exposed_step_cases pm e) [
          | inl same ↦ subst IsSound (sym same) h
          | inr (next, pos) ↦ subst IsSound (sym next) (taken-IsSound pm _ (within pm here) refl)
        ])

-- Where a service publishes a port to all interfaces, the check names such a port.
pub most_exposed_host_port-public :
    (svc : Service) {pm : PortMapping}
    → Mem pm svc.ports
    → pm.host_port ≢ 0
    → published_to_all_interfaces pm ≡ true
    → (q : PortMapping) × Mem q svc.ports
      × (published_to_all_interfaces q ≡ true)
      × (most_exposed_host_port svc ≡ some q.host_port)
unfolding most_exposed_host_port port_of
most_exposed_host_port-public svc at h public =
    let (port, top) = exposed_loop-public svc.ports none at h public in
    let (q, among, shown, same) =
      subst (IsSound svc.ports) top (exposed_loop-IsSound svc.ports svc.ports none (λ q m. m) tt) in
    (q, among, shown, ap port_of top ∙ ap some (sym same))

no_blank : (c : ℕ) → IsDigit c → is_space c ≡ false
unfolding is_space
no_blank c h = ground arith

trim_left-IsDigit : (s : Text) → All IsDigit s → trim_left s ≡ s
unfolding trim_left
trim_left-IsDigit [] h = refl
trim_left-IsDigit (c ∷ s) h = rw (no_blank c h.0) refl

trim_right-IsDigit : (s : Text) → All IsDigit s → trim_right s ≡ s
unfolding trim_right
trim_right-IsDigit [] h = refl
trim_right-IsDigit (c ∷ []) (d, h) = rw (no_blank c d) refl
trim_right-IsDigit (c ∷ e ∷ s) (d, h) =
    let rest = trim_right-IsDigit (e ∷ s) h in rw (rest, trim_right) refl

-- No number has blanks to trim.
pub trim_space-itoa : (n : ℕ) → trim_space (itoa n) ≡ itoa n
unfolding trim_space
trim_space-itoa n =
    ap trim_right (trim_left-IsDigit (itoa n) (itoa-IsDigit n))
    ∙ trim_right-IsDigit (itoa n) (itoa-IsDigit n)
