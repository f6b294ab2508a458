-- ===== src/Checks/Daemons.antt =====
-- internal/checks/firewall/fw005.go: the Docker daemon on the network.
use keelix.Prelude.{
  ℕ, suc, Bool, not, ◌&&◌, ◌||◌, List, [], ◌∷◌, ◌++◌, map, Option, none, some, ◌==◌, select,
  if◌then◌else◌, drop, take,
}
use keelix.Text.{
  Text, codes, utf8, text_eq, lookup, has_prefix, is_int, trim_space, last_index_byte, split_byte,
}
use keelix.Model.Finding.{Finding}
use keelix.Model.Signals.{Signals, ProcessFact, ConfigFact}
use keelix.Checks.{Check, failing, passing, no_collector, for_each, concat, config_by_schema}
use keelix.Correlate.Binds.{bind_class}

-- strings.Trim with the set "[]"
is_bracket : ℕ → Bool
is_bracket c = c == 91 || c == 93

trim_brackets_left : Text → Text
trim_brackets_left [] = []
trim_brackets_left (c ∷ s) = if is_bracket c then trim_brackets_left s else c ∷ s

trim_brackets_right : Text → Text
trim_brackets_right [] = []
trim_brackets_right (c ∷ s) = elim (trim_brackets_right s) [
  | [] ↦ if is_bracket c then [] else c ∷ []
  | d ∷ t ↦ c ∷ d ∷ t
]

-- The host part of an address without its scheme.
host_part : Text → Text
unfolding trim_brackets_left trim_brackets_right is_bracket last_index_byte
host_part s =
    let host : Text = elim (last_index_byte s b':') [ none ↦ s | some i ↦ take i s ] in
    trim_brackets_right (trim_brackets_left host)

is_local_host : Text → Bool
is_local_host host =
    text_eq host (codes "127.0.0.1")
    || text_eq host (codes "::1")
    || text_eq host (codes "localhost")

-- tcpNonLoopback; the address that it returns is its argument
unfoldable pub tcp_non_loopback : Text → Bool
unfolding has_prefix is_local_host host_part text_eq
tcp_non_loopback addr =
    has_prefix addr (codes "tcp://") && not (is_local_host (host_part (drop 6 addr)))

-- bindHostOf
bind_host_of : Text → Text
unfolding has_prefix host_part text_eq
bind_host_of addr =
    if not (has_prefix addr (codes "tcp://"))
    then []
    else if text_eq (host_part (drop 6 addr)) []
    then (codes "0.0.0.0")
    else host_part (drop 6 addr)

-- extractPort
extract_port : Text → Text → Text
unfolding last_index_byte is_int
extract_port addr default = elim (last_index_byte addr b':') [
  | none ↦ default
  | some i ↦ if is_int (drop (suc i) addr) then drop (suc i) addr else default
]

-- fw005Finding
unfoldable pub fw005_finding : Text → Finding
unfolding bind_host_of extract_port
fw005_finding addr = record (failing (codes "FW005")) {
  resource = (codes "dockerd");
  exposure_class = bind_class (bind_host_of addr);
  evidence = concat (
      (codes "dockerd is listening on ")
      ∷ addr
      ∷ (utf8
          " — the Docker API is reachable over TCP without requiring a host firewall to protect it")
      ∷ []);
  metadata = ((codes "port"), extract_port addr (codes "2375")) ∷ [];
  fix = record {
    summary =
        (codes
          "Remove the -H tcp:// flag from the Docker daemon and use Unix socket only. If remote API access is required, protect it with TLS mutual authentication and bind to a specific interface.");
    diff = [];
    commands =
        (codes "# Remove tcp:// from /etc/docker/daemon.json hosts or the dockerd systemd override")
        ∷ (codes "systemctl restart docker")
        ∷ [];
    doc_url = [];
  };
}

next_arg : List Text → List Text
next_arg [] = []
next_arg (a ∷ args) = a ∷ []

-- The addresses that the loop over the arguments tries, in its order.
unfoldable pub host_args : List Text → List Text
unfolding next_arg text_eq has_prefix
host_args [] = []
host_args (a ∷ args) =
    (if text_eq a (codes "-H") then next_arg args else [])
    ++ ((if has_prefix a (codes "-H=") then drop 3 a ∷ [] else []) ++ host_args args)

unfoldable pub dockerd_hosts : List ProcessFact → List Text
unfolding text_eq host_args
dockerd_hosts procs =
    for_each
      (λ (p : ProcessFact). if text_eq p.comm (codes "dockerd") then host_args p.args else []) procs

hosts_of : Option ConfigFact → List Text
hosts_of none = []
hosts_of (some c) = elim (lookup (codes "hosts") c.values) [
  | none ↦ []
  | some hosts ↦ map trim_space (split_byte 44 hosts)
]

-- The addresses of the daemon's configuration file.
unfoldable pub daemon_hosts : Signals → List Text
unfolding hosts_of
daemon_hosts s = hosts_of (config_by_schema (some s) (codes "docker-daemon"))

unfoldable pub report_first : List Text → List Finding
report_first [] =
    passing (codes "FW005")
      (codes "Docker daemon is not exposing a TCP API on a non-loopback address.")
report_first (addr ∷ addrs) = fw005_finding addr ∷ []

unfoldable pub is_darwin : Signals → Bool
is_darwin s = text_eq s.platform.os (codes "darwin")

-- fw005.Run
unfoldable pub fw005 : Check
unfolding report_first
fw005 ctx = elim ctx.collector [
  | none ↦ no_collector (codes "FW005")
  | some s ↦
      if is_darwin s
      then no_collector (codes "FW005")
      else report_first (select tcp_non_loopback (dockerd_hosts s.processes ++ daemon_hosts s))
]
