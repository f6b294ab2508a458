-- ===== src/Checks/Kubelet.antt =====
-- internal/checks/firewall/fw006.go: a kubelet that lets everybody in.
pub mod Flags
use keelix.Prelude.{
  Bool, not, ◌||◌, List, [], ◌∷◌, ◌++◌, map, Option, none, some, any, if◌then◌else◌, drop,
}
use keelix.Text.{Text, codes, text_eq, has_prefix, trim_prefix, to_lower, trim_space, split_byte}
use keelix.Model.Finding.{Finding}
use keelix.Model.Signals.{ProcessFact}
use keelix.Checks.{Check, failing, passing, no_collector}
use keelix.Correlate.Binds.{bind_class}
use keelix.Checks.Daemons.{is_darwin}

-- isKubeletProcess
unfoldable pub is_kubelet_process : Text → Bool
unfolding to_lower text_eq
is_kubelet_process comm =
    any (text_eq (to_lower comm))
      ((codes "k3s") ∷ (codes "k3s-server") ∷ (codes "kubelet") ∷ (codes "hyperkube") ∷ [])

-- unwrapKubeletArgs
unfoldable pub unwrap_arg : Text → Text
unfolding has_prefix trim_prefix
unwrap_arg arg =
    if has_prefix arg (codes "--kubelet-arg=")
    then (let inner = trim_prefix arg (codes "--kubelet-arg=") in
        if has_prefix inner (codes "--") then inner else (codes "--") ++ inner)
    else arg

-- anonVal, and authModeVal where authModePresent
pub record KubeletFlags : Type 0 where
  pub anonymous : Text
  pub mode : Option Text

set_flag : Text → Text → KubeletFlags → KubeletFlags
set_flag name value k =
    if text_eq name (codes "--anonymous-auth")
    then record k { anonymous = to_lower value }
    else record k { mode = some value }

spaced_flag : Text → List Text → KubeletFlags → KubeletFlags
spaced_flag arg [] k = k
spaced_flag arg (next ∷ args) k =
    if text_eq arg (codes "--anonymous-auth") || text_eq arg (codes "--authorization-mode")
    then set_flag arg next k
    else k

-- The body of the loop, for an argument and those behind it.
unfoldable pub flag_step : Text → List Text → KubeletFlags → KubeletFlags
unfolding set_flag spaced_flag text_eq has_prefix
flag_step arg args k =
    if has_prefix arg (codes "--anonymous-auth=")
    then set_flag (codes "--anonymous-auth") (drop 17 arg) k
    else if has_prefix arg (codes "--authorization-mode=")
    then set_flag (codes "--authorization-mode") (drop 21 arg) k
    else spaced_flag arg args k

unfoldable pub flag_loop : List Text → KubeletFlags → KubeletFlags
flag_loop [] k = k
flag_loop (a ∷ args) k = flag_loop args (flag_step a args k)

-- What the flags mean: the reason to report, none for false.
unfoldable pub flags_reason : KubeletFlags → Option Text
unfolding text_eq
flags_reason k = if text_eq k.anonymous (codes "false") then none else elim k.mode [
  | some modes ↦
      if any (λ m. text_eq (trim_space m) (codes "AlwaysAllow")) (split_byte 44 modes)
      then some (
          codes
            "kubelet is started with --authorization-mode=AlwaysAllow; every request is authorized regardless of authentication state")
      else none
  | none ↦
      if text_eq k.anonymous (codes "true")
      then some (
          codes
            "kubelet is started with --anonymous-auth=true; the kubelet API accepts unauthenticated requests")
      else none
]

-- kubeletAnonAuth
unfoldable pub kubelet_anon_auth : List Text → Option Text
kubelet_anon_auth args =
    flags_reason (flag_loop (map unwrap_arg args) (record { anonymous = []; mode = none }))

spaced_address : Text → List Text → Option Text
spaced_address arg [] = none
spaced_address arg (next ∷ args) =
    if text_eq arg (codes "--address") || text_eq arg (codes "--bind-address")
    then some next
    else none

-- kubeletBindAddr
unfoldable pub kubelet_bind_addr : List Text → Text
unfolding spaced_address has_prefix text_eq
kubelet_bind_addr [] = (codes "0.0.0.0")
kubelet_bind_addr (a ∷ args) =
    let rest = kubelet_bind_addr args in
    if has_prefix a (codes "--address=")
    then drop 10 a
    else if has_prefix a (codes "--bind-address=")
    then drop 15 a
    else elim (spaced_address a args) [ none ↦ rest | some addr ↦ addr ]

unfoldable pub fw006_finding : ProcessFact → Text → Finding
fw006_finding proc reason = record (failing (codes "FW006")) {
  resource = proc.comm;
  exposure_class = bind_class (kubelet_bind_addr proc.args);
  evidence = reason;
  fix = record {
    summary =
        (codes
          "Set --anonymous-auth=false and --authorization-mode=Webhook on the kubelet to require authenticated API calls.");
    diff = [];
    commands =
        (codes "# Add to kubelet args or /etc/kubernetes/kubelet.conf:")
        ∷ (codes "--anonymous-auth=false")
        ∷ (codes "--authorization-mode=Webhook")
        ∷ [];
    doc_url = [];
  };
}

unfoldable pub fw006_processes : List ProcessFact → List Finding
fw006_processes [] =
    passing (codes "FW006") (codes "No k3s/kubelet process found with anonymous auth enabled.")
fw006_processes (p ∷ ps) =
    let rest = fw006_processes ps in
    if not (is_kubelet_process p.comm)
    then rest
    else elim (kubelet_anon_auth p.args) [ none ↦ rest | some reason ↦ fw006_finding p reason ∷ [] ]

-- fw006.Run
unfoldable pub fw006 : Check
fw006 ctx = elim ctx.collector [
  | none ↦ no_collector (codes "FW006")
  | some s ↦ if is_darwin s then no_collector (codes "FW006") else fw006_processes s.processes
]
