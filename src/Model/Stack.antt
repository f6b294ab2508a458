-- ===== src/Model/Stack.antt =====
-- internal/model/stack.go and util.go: the parsed compose deployment. The undecoded documents
-- (the Raw fields) are left out. Ports are numbers that are not negative.
use keelix.Prelude.{
  ℕ, Bool, true, false, not, ◌||◌, List, [], Option, none, some, ◌==◌, if◌then◌else◌, ◌&&◌, any,
}
use keelix.Text.{Text, codes, text_eq, equal_fold}
use keelix.Net.{parse_ip, is_loopback_ip}
use keelix.Model.Finding.{TextMap}

pub record PortMapping : Type 0 where
  pub host_ip : Text
  pub host_port : ℕ
  pub container_port : ℕ
  pub protocol : Text
  pub raw : Text

pub record VolumeMount : Type 0 where
  pub kind : Text
  pub source : Text
  pub target : Text
  pub read_only : Bool
  pub raw : Text

pub record DeployConfig : Type 0 where
  pub has_limits : Bool
  pub memory_limit : Text
  pub cpu_limit : Text

pub record Service : Type 0 where
  pub name : Text
  pub image : Text
  pub build : Text
  pub ports : List PortMapping
  pub expose : List ℕ
  pub environment : TextMap
  pub env_file : List Text
  pub volumes : List VolumeMount
  pub cap_add : List Text
  pub cap_drop : List Text
  pub privileged : Bool
  pub network_mode : Text
  pub networks : List Text
  pub user : Text
  pub read_only : Bool
  pub security_opt : List Text
  pub restart : Text
  pub depends_on : List Text
  pub labels : TextMap
  pub deploy : Option DeployConfig

pub record Network : Type 0 where
  pub name : Text
  pub driver : Text
  pub external : Bool
  pub internal : Bool

pub record Volume : Type 0 where
  pub name : Text
  pub driver : Text
  pub external : Bool

pub record Secret : Type 0 where
  pub name : Text
  pub file : Text
  pub environment : Text
  pub external : Bool

pub record ProxyRoute : Type 0 where
  pub host : Text
  pub path_prefix : Text
  pub service : Text
  pub tls : Bool
  pub has_auth : Bool
  pub security_headers : Bool
  pub wildcard : Bool

pub record ProxyConfig : Type 0 where
  pub kind : Text
  pub path : Text
  pub dashboard_exposed : Bool
  pub routes : List ProxyRoute
  pub raw : Text

pub record FirewallRule : Type 0 where
  pub action : Text
  pub port : ℕ
  pub protocol : Text
  pub from : Text
  pub raw : Text

pub record FirewallConfig : Type 0 where
  pub engine : Text
  pub path : Text
  pub default_incoming : Text
  pub rules : List FirewallRule
  pub has_docker_user_chain : Bool
  pub raw : Text

pub record Stack : Type 0 where
  pub compose_path : Text
  pub project_name : Text
  pub services : List Service
  pub networks : List (Text × Network)
  pub volumes : List (Text × Volume)
  pub secrets : List (Text × Secret)
  pub env : TextMap
  pub env_path : Text
  pub env_committed : Bool
  pub proxy : Option ProxyConfig
  pub firewall : Option FirewallConfig

-- isLoopback
is_loopback : Text → Bool
unfolding text_eq parse_ip is_loopback_ip
is_loopback host =
    if text_eq host (codes "localhost")
    then true
    else elim (parse_ip host) [ none ↦ false | some ip ↦ is_loopback_ip ip ]

-- PortMapping.PublishedToAllInterfaces
unfoldable pub published_to_all_interfaces : PortMapping → Bool
unfolding is_loopback
published_to_all_interfaces p =
    if text_eq p.host_ip []
      || text_eq p.host_ip (codes "0.0.0.0")
      || text_eq p.host_ip (codes "::")
      || text_eq p.host_ip (codes "*")
    then true
    else not (is_loopback p.host_ip)

-- Service.HasCap
unfoldable pub has_cap : Service → Text → Bool
unfolding any equal_fold
has_cap s cap = any (λ c. equal_fold c cap || equal_fold c (codes "ALL")) s.cap_add

abbrev docker_socket : Text
docker_socket = codes "/var/run/docker.sock"

-- Service.MountsDockerSocket
unfoldable pub mounts_docker_socket : Service → Bool
unfolding any text_eq
mounts_docker_socket s =
    any (λ v. text_eq v.source docker_socket || text_eq v.target docker_socket) s.volumes

-- Service.RunsAsRoot
unfoldable pub runs_as_root : Service → Bool
unfolding text_eq
runs_as_root s =
    text_eq s.user []
    || text_eq s.user (codes "0")
    || text_eq s.user (codes "root")
    || text_eq s.user (codes "0:0")

-- FirewallConfig.Denies; a nil receiver is none
unfoldable pub denies : Option FirewallConfig → ℕ → Bool
unfolding any text_eq
denies none port = false
denies (some f) port = any (λ r. r.port == port && text_eq r.action (codes "deny")) f.rules
