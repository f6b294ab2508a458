-- ===== src/Model/Signals.antt =====
-- internal/model/signals.go: the facts gathered on the host. Times are numbers.
use keelix.Prelude.{ℕ, Bool, List, [], ◌∷◌, Option, none, some, ◌==◌, if◌then◌else◌}
use keelix.Text.{Text}
use keelix.Model.Finding.{TextMap}

pub record Platform : Type 0 where
  pub os : Text
  pub distro : Text
  pub version : Text
  pub is_vm : Bool

pub record Privilege : Type 0 where
  pub root : Bool
  pub euid : ℕ

pub record ListeningSocket : Type 0 where
  pub proto : Text
  pub bind : Text
  pub port : ℕ
  pub pid : ℕ
  pub uid : ℕ
  pub comm : Text

pub record FileFact : Type 0 where
  pub path : Text
  pub exists : Bool
  pub mode : Text
  pub uid : ℕ
  pub gid : ℕ
  pub size : ℕ

pub record ConfigFact : Type 0 where
  pub source : Text
  pub mode : Text
  pub schema_id : Text
  pub schema_known : Bool
  pub values : TextMap

pub record EnvShape : Type 0 where
  pub name : Text
  pub class : Text

pub record ProcessFact : Type 0 where
  pub comm : Text
  pub pid : ℕ
  pub uid : ℕ
  pub args : List Text
  pub groups : List Text
  pub env : List EnvShape

pub record PackageState : Type 0 where
  pub manager : Text
  pub security_updates_pending : ℕ
  pub reboot_required : Bool
  pub distro_eol : Bool

pub record FirewallState : Type 0 where
  pub backend : Text
  pub default_inbound : Text
  pub rules : List Text

pub record CollectError : Type 0 where
  pub domain : Text
  pub err : Text

pub record McpToolFact : Type 0 where
  pub name : Text
  pub desc_hash : Text
  pub drifted : Bool
  pub first_seen : Bool

pub record McpServerProbe : Type 0 where
  pub client : Text
  pub name : Text
  pub transport : Text
  pub reached : Bool
  pub sandbox_tier : Text
  pub sandbox_applied : Bool
  pub tools : List McpToolFact
  pub errors : List Text

pub record McpProbe : Type 0 where
  pub servers : List McpServerProbe
  pub corrupt_baseline : Bool

pub record Signals : Type 0 where
  pub version : Text
  pub collected_at : ℕ
  pub platform : Platform
  pub privilege : Privilege
  pub sockets : List ListeningSocket
  pub files : List FileFact
  pub configs : List ConfigFact
  pub processes : List ProcessFact
  pub packages : PackageState
  pub firewall : FirewallState
  pub errors : List CollectError
  pub mcp_probe : Option McpProbe

first_socket : List ListeningSocket → ℕ → Option ListeningSocket
first_socket [] port = none
first_socket (sock ∷ socks) port = if sock.port == port then some sock else first_socket socks port

-- Signals.SocketByPort; a nil receiver is none
unfoldable pub socket_by_port : Option Signals → ℕ → Option ListeningSocket
unfolding first_socket
socket_by_port none port = none
socket_by_port (some s) port = first_socket s.sockets port
