-- ===== src/Policy/Complies.antt =====
-- When a policy has nothing to report.
use keelix.Prelude.{
  ℕ, ◌≡◌, ◌≢◌, refl, ◌↔◌, Bool, true, false, not, ◌&&◌, List, [], ◌∷◌, ◌++◌, is_some, ◌==◌, All,
  if◌then◌else◌, arith,
}
use keelix.Text.{Text, text_eq, lookup}
use keelix.Model.Finding.{Finding}
use keelix.Model.Stack.{Stack, Service, PortMapping}
use keelix.Policy.{
  Policy, Library, denied_images, denied_mappings, denied_ports, evaluate_service,
  evaluate_services, evaluate,
}

-- A service that breaks no rule of a policy.
unfoldable pub Complies : Library → Policy → Service → Type 0
Complies lib p svc =
    All (λ pattern. lib.match pattern svc.image ≡ false) p.deny_images
    × All (λ port. All (λ (pm : PortMapping). pm.host_port ≢ port) svc.ports) p.deny_host_ports
    × (p.deny_privileged ≡ true → svc.privileged ≡ false)
    × (p.require_label ≢ [] → is_some (lookup p.require_label svc.labels) ≡ true)

append_empty : {A : Type 0} (xs ys : List A) → ((xs ++ ys) ≡ []) ↔ ((xs ≡ []) × (ys ≡ []))
append_empty [] ys = (λ e. (refl, e), λ h. h.1)
append_empty (x ∷ xs) ys = (λ e. absurd (ground (arith, e)), λ h. absurd (ground (arith, h)))

cons_if :
    {A : Type 0} (b : Bool) (x : A) (rest : List A)
    → ((if b then x ∷ rest else rest) ≡ []) ↔ ((b ≡ false) × (rest ≡ []))
cons_if true x rest = (λ e. absurd (ground (arith, e)), λ h. absurd (ground (arith, h)))
cons_if false x rest = (λ e. (refl, e), λ h. h.1)

module _ (lib : Library) where
  images_iff :
      (svc : Service) (ps : List Text)
      → (denied_images lib svc ps ≡ []) ↔ All (λ pattern. lib.match pattern svc.image ≡ false) ps
  unfolding denied_images
  images_iff svc [] = (λ _. tt, λ _. refl)
  images_iff svc (p ∷ ps) =
      let head = cons_if (lib.match p svc.image) _ (denied_images lib svc ps) in
      let rest = images_iff svc ps in
      (λ e. ((head.0 e).0, rest.0 (head.0 e).1), λ h. head.1 (h.0, rest.1 h.1))

  mappings_iff :
      (svc : Service) (port : ℕ) (pms : List PortMapping)
      → (denied_mappings lib svc port pms ≡ []) ↔ All (λ pm. pm.host_port ≢ port) pms
  unfolding denied_mappings
  mappings_iff svc port [] = (λ _. tt, λ _. refl)
  mappings_iff svc port (pm ∷ pms) =
      let head = cons_if (pm.host_port == port) _ (denied_mappings lib svc port pms) in
      let rest = mappings_iff svc port pms in
      (
        λ e. (ground (arith, (head.0 e).0), rest.0 (head.0 e).1),
        λ h. head.1 (ground (arith, h.0), rest.1 h.1),
      )

  ports_iff :
      (svc : Service) (ports : List ℕ)
      → (denied_ports lib svc ports ≡ [])
        ↔ All (λ port. All (λ (pm : PortMapping). pm.host_port ≢ port) svc.ports) ports
  unfolding denied_ports
  ports_iff svc [] = (λ _. tt, λ _. refl)
  ports_iff svc (port ∷ ports) =
      let both =
        append_empty (denied_mappings lib svc port svc.ports) (denied_ports lib svc ports) in
      let head = mappings_iff svc port svc.ports in
      let rest = ports_iff svc ports in
      (λ e. (head.0 (both.0 e).0, rest.0 (both.0 e).1), λ h. both.1 (head.1 h.0, rest.1 h.1))

  flag_iff :
      (a b : Bool) (x : Finding) → ((if a && b then x ∷ [] else []) ≡ []) ↔ (a ≡ true → b ≡ false)
  flag_iff true true x = (λ e. absurd (ground (arith, e)), λ h. absurd (ground (arith, h refl)))
  flag_iff true false x = (λ _ _. refl, λ _. refl)
  flag_iff false b x = (λ _ h. absurd (ground (arith, h)), λ _. refl)

  label_iff :
      (label : Text) (b : Bool) (x : Finding)
      → ((if not (text_eq label []) && not b then x ∷ [] else []) ≡ []) ↔ (label ≢ [] → b ≡ true)
  unfolding text_eq
  label_iff [] b x = (λ _ h. absurd (h refl), λ _. refl)
  label_iff (c ∷ l) true x = (λ _ _. refl, λ _. refl)
  label_iff (c ∷ l) false x = (
    λ e. absurd (ground (arith, e)),
    λ h. absurd (ground (arith, h λ e. absurd (ground (arith, e)))),
  )

  service_iff :
      (p : Policy) (svc : Service) → (evaluate_service lib p svc ≡ []) ↔ Complies lib p svc
  unfolding evaluate_service Complies
  service_iff p svc =
      let one = append_empty (denied_images lib svc p.deny_images) _ in
      let two = append_empty (denied_ports lib svc p.deny_host_ports) _ in
      let three = append_empty (if p.deny_privileged && svc.privileged then _ ∷ [] else []) _ in
      let images = images_iff svc p.deny_images in
      let ports = ports_iff svc p.deny_host_ports in
      let privileged = flag_iff p.deny_privileged svc.privileged _ in
      let label = label_iff p.require_label (is_some (lookup p.require_label svc.labels)) _ in
      (
        λ e.
            let (a, bcd) = one.0 e in
            let (b, cd) = two.0 bcd in
            let (c, d) = three.0 cd in (images.0 a, ports.0 b, privileged.0 c, label.0 d),
        λ h. one.1 (images.1 h.0, two.1 (ports.1 h.1, three.1 (privileged.1 h.2, label.1 h.3))),
      )

  services_iff :
      (p : Policy) (svcs : List Service)
      → (evaluate_services lib p svcs ≡ []) ↔ All (Complies lib p) svcs
  unfolding evaluate_services
  services_iff p [] = (λ _. tt, λ _. refl)
  services_iff p (svc ∷ svcs) =
      let both = append_empty (evaluate_service lib p svc) (evaluate_services lib p svcs) in
      let head = service_iff p svc in
      let rest = services_iff p svcs in
      (λ e. (head.0 (both.0 e).0, rest.0 (both.0 e).1), λ h. both.1 (head.1 h.0, rest.1 h.1))

  -- A policy has no findings exactly if every service complies with it: no denied pattern matches its
  -- image, no mapping of it publishes a denied host port, it is not privileged where the policy denies
  -- that, and it carries the label that the policy requires, if it requires one.
  pub evaluate_iff :
      (p : Policy) (stack : Stack)
      → (evaluate lib p stack ≡ []) ↔ All (Complies lib p) stack.services
  unfolding evaluate
  evaluate_iff p stack = services_iff p stack.services
