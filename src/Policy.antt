-- ===== src/Policy.antt =====
-- internal/policy/policy.go: the rules of a policy, evaluated over a stack. Go's path.Match and the
-- verb %q are arguments; Load, which reads the file, is left out.
pub mod Complies
use keelix.Prelude.{
  ℕ, Bool, true, false, not, ◌&&◌, List, [], ◌∷◌, ◌++◌, map, Option, none, some, ◌==◌, is_some,
  if◌then◌else◌,
}
use keelix.Text.{Text, codes, text_eq, lookup, itoa}
use keelix.Model.Finding.{Finding, Fix, Severity, warning, critical, high, unknown, assessed}
use keelix.Model.Stack.{Stack, Service, PortMapping}

pub record Policy : Type 0 where
  pub deny_images : List Text
  pub deny_host_ports : List ℕ
  pub deny_privileged : Bool
  pub require_label : Text

-- What Go's library answers: whether path.Match matches without an error, and the verb %q.
pub record Library : Type 0 where
  pub match : Text → Text → Bool
  pub quoted : Text → Text

-- A finding with the zero values of Go, but for these fields.
abbrev custom : Text → Severity → Text → Text → Text → Text → Fix → Finding
custom id severity title service resource detail fix = record {
  check_id = id;
  group = codes "Custom policy";
  title = title;
  severity = severity;
  passed = false;
  service = service;
  resource = resource;
  detail = detail;
  evidence = [];
  fix = fix;
  controls = [];
  ai_explanation = [];
  ai_diff = [];
  metadata = [];
  base_impact = 0;
  confidence = high;
  exposure_class = unknown;
  mitigations = [];
  fatal = false;
  status = assessed;
}

abbrev advice : Text → Text → Fix
advice summary diff = record { summary = summary; diff = diff; commands = []; doc_url = [] }

module _ (lib : Library) where
  abbrev q : Text → Text
  q t = lib.quoted t

  image_finding : Service → Text → Finding
  image_finding svc pattern =
      custom (codes "POLICY-IMAGE") warning
        (codes "Image " ++ q svc.image ++ codes " matches denied pattern " ++ q pattern) svc.name
        svc.image
        (codes "Your org policy disallows images matching "
          ++ q pattern
          ++ codes ". Service "
          ++ q svc.name
          ++ codes " uses "
          ++ q svc.image
          ++ codes ".")
        (advice
          (codes "Change the image tag for service "
            ++ q svc.name
            ++ codes " to a non-matching value.")
          [])

  port_finding : Service → ℕ → Finding
  port_finding svc port =
      custom (codes "POLICY-PORT") critical
        (codes "Service " ++ q svc.name ++ codes " publishes denied host port " ++ itoa port)
        svc.name (codes "port " ++ itoa port)
        (codes "Your org policy disallows publishing host port "
          ++ itoa port
          ++ codes ". Remove or remap the port mapping.")
        (advice
          (codes "Remove the "
            ++ itoa port
            ++ codes " port mapping from service "
            ++ q svc.name
            ++ codes " or change it to a non-denied port.")
          [])

  privileged_finding : Service → Finding
  privileged_finding svc =
      custom (codes "POLICY-PRIVILEGED") critical
        (codes "Service " ++ q svc.name ++ codes " runs in privileged mode (org policy violation)")
        svc.name []
        (codes "Your org policy disallows privileged containers. Service "
          ++ q svc.name
          ++ codes " has privileged: true.")
        (advice
          (codes "Set `privileged: false` (or remove the key) for service "
            ++ q svc.name
            ++ codes ".")
          (codes "  "
            ++ svc.name
            ++ codes ":"
            ++ 10 ∷ codes "-   privileged: true"
            ++ 10 ∷ codes "+   # privileged removed"))

  label_finding : Service → Text → Finding
  label_finding svc label =
      custom (codes "POLICY-LABEL") warning
        (codes "Service " ++ q svc.name ++ codes " is missing required label " ++ q label) svc.name
        []
        (codes "Your org policy requires every service to carry the label "
          ++ q label
          ++ codes ". Service "
          ++ q svc.name
          ++ codes " does not have it.")
        (advice (codes "Add label " ++ q label ++ codes " to service " ++ q svc.name ++ codes ".") (
          codes "  "
          ++ svc.name
          ++ codes ":"
          ++ 10 ∷ codes "    labels:"
          ++ 10 ∷ codes "+     "
          ++ label
          ++ codes ": <value>"))

  -- The loop over DenyImages.
  denied_images : Service → List Text → List Finding
  unfolding image_finding
  denied_images svc [] = []
  denied_images svc (p ∷ ps) =
      let rest = denied_images svc ps in
      if lib.match p svc.image then image_finding svc p ∷ rest else rest

  -- The loop over the ports of a service for one denied port.
  denied_mappings : Service → ℕ → List PortMapping → List Finding
  unfolding port_finding
  denied_mappings svc port [] = []
  denied_mappings svc port (pm ∷ pms) =
      let rest = denied_mappings svc port pms in
      if pm.host_port == port then port_finding svc port ∷ rest else rest

  -- The loop over DenyHostPorts.
  denied_ports : Service → List ℕ → List Finding
  unfolding denied_mappings
  denied_ports svc [] = []
  denied_ports svc (port ∷ ports) = denied_mappings svc port svc.ports ++ denied_ports svc ports

  -- The body of the loop over the services.
  unfoldable pub evaluate_service : Policy → Service → List Finding
  unfolding denied_images denied_ports privileged_finding label_finding
  evaluate_service p svc =
      denied_images svc p.deny_images
      ++ (denied_ports svc p.deny_host_ports
          ++ ((if p.deny_privileged && svc.privileged then privileged_finding svc ∷ [] else [])
              ++ (if not (text_eq p.require_label [])
                    && not (is_some (lookup p.require_label svc.labels))
                  then label_finding svc p.require_label ∷ []
                  else [])))

  evaluate_services : Policy → List Service → List Finding
  evaluate_services p [] = []
  evaluate_services p (svc ∷ svcs) = evaluate_service p svc ++ evaluate_services p svcs

  -- Policy.Evaluate
  unfoldable pub evaluate : Policy → Stack → List Finding
  unfolding evaluate_services
  evaluate p stack = evaluate_services p stack.services
