-- ===== src/Tests/Samples.antt =====
-- Findings, a threat table, a stack and the signals of a host.
use keelix.Prelude.{ℕ, true, false, List, [], ◌∷◌, none, some}
use keelix.Text.{Text, codes}
use keelix.Model.Finding.{
  Finding, Severity, ok, info, warning, critical, high, assessed, not_assessed, ExposureClass,
  unknown, lan, internet, TextMap,
}
use keelix.Model.Check.{CheckGroup, group_exposure, group_service}
use keelix.Model.Scan.{ScanOptions, ScanContext, ProbeResult, PortProbe}
use keelix.Model.Signals.{Signals, ListeningSocket}
use keelix.Model.Stack.{Stack, Service, PortMapping}
use keelix.Threatfeed.Record.{Record, Table}
use keelix.Baseline.{Observation}

abbrev pub finding : Text → CheckGroup → Severity → ℕ → ExposureClass → TextMap → Finding
finding check_id group severity base_impact exposure_class metadata = record {
  check_id = check_id;
  group = group;
  title = codes "";
  severity = severity;
  passed = false;
  service = codes "";
  resource = codes "";
  detail = codes "";
  evidence = codes "";
  fix = record { summary = codes ""; diff = codes ""; commands = []; doc_url = codes "" };
  controls = [];
  ai_explanation = codes "";
  ai_diff = codes "";
  metadata = metadata;
  base_impact = base_impact;
  confidence = high;
  exposure_class = exposure_class;
  mitigations = [];
  fatal = false;
  status = assessed;
}

-- A critical finding on the internet with a known exploited vulnerability.
abbrev pub exploited : Finding
exploited =
    finding (codes "SVC001") group_service critical 90 internet
      ((codes "cve", codes "CVE-2024-3094") ∷ [])

abbrev pub open_database : Finding
open_database =
    finding (codes "EXP001") group_exposure critical 80 unknown ((codes "port", codes "5432") ∷ [])

abbrev pub hint : Finding
hint = finding (codes "EXP009") group_exposure info 20 lan []

abbrev pub passing : Finding
passing = finding (codes "EXP002") group_exposure ok 70 unknown []

abbrev pub unread : Finding
unread = record (finding (codes "EXP003") group_exposure warning 50 lan []) {
  status = not_assessed;
}

abbrev pub xz : Record
xz = record { year = 2024; seq = 3094; flags = 3; pctl = 190 }

abbrev pub log4j : Record
log4j = record { year = 2021; seq = 44228; flags = 3; pctl = 200 }

abbrev pub records : List Record
records = log4j ∷ xz ∷ []

abbrev pub table : Table
table = some records

abbrev pub mapping : Text → ℕ → ℕ → PortMapping
mapping host_ip host_port container_port = record {
  host_ip = host_ip;
  host_port = host_port;
  container_port = container_port;
  protocol = codes "tcp";
  raw = codes "";
}

abbrev pub service : Text → Text → List PortMapping → Service
service name image ports = record {
  name = name;
  image = image;
  build = codes "";
  ports = ports;
  expose = [];
  environment = [];
  env_file = [];
  volumes = [];
  cap_add = [];
  cap_drop = [];
  privileged = false;
  network_mode = codes "";
  networks = [];
  user = codes "";
  read_only = false;
  security_opt = [];
  restart = codes "";
  depends_on = [];
  labels = [];
  deploy = none;
}

-- A database behind two host ports and a web server.
abbrev pub stack : Stack
stack = record {
  compose_path = codes "";
  project_name = codes "";
  services =
      service (codes "db") (codes "postgres:16")
        (mapping (codes "") 15432 5432 ∷ mapping (codes "127.0.0.1") 25432 5432 ∷ [])
      ∷ service (codes "web") (codes "nginx") (mapping (codes "") 80 80 ∷ [])
      ∷ [];
  networks = [];
  volumes = [];
  secrets = [];
  env = [];
  env_path = codes "";
  env_committed = false;
  proxy = none;
  firewall = none;
}

abbrev pub open_port : ℕ → ℕ × PortProbe
open_port port = (
  port,
  record {
    port = port;
    is_open = true;
    protocol = codes "tcp";
    service = codes "";
    banner = codes "";
    tls = none;
  },
)

abbrev pub probe : ProbeResult
probe = record {
  host = codes "example.org";
  vantage_point = codes "";
  probed_at = 0;
  resolved_ips = [];
  domain_ips = [];
  reachable = open_port 15432 ∷ open_port 8080 ∷ open_port 80 ∷ [];
  dns_records = [];
  certificates = [];
  errors = [];
}

abbrev pub socket : Text → ℕ → ListeningSocket
socket bind port = record {
  proto = codes "tcp";
  bind = bind;
  port = port;
  pid = 1;
  uid = 0;
  comm = codes "";
}

abbrev pub sockets : List ListeningSocket
sockets = socket (codes "127.0.0.1") 5432 ∷ socket (codes "100.64.0.9") 9090 ∷ []

abbrev pub signals : Signals
signals = record {
  version = codes "1.0.0";
  collected_at = 0;
  platform = record { os = codes "linux"; distro = codes ""; version = codes ""; is_vm = false };
  privilege = record { root = false; euid = 1000 };
  sockets = sockets;
  files = [];
  configs = [];
  processes = [];
  packages = record {
    manager = codes "";
    security_updates_pending = 0;
    reboot_required = false;
    distro_eol = false;
  };
  firewall = record { backend = codes "ufw"; default_inbound = codes "deny"; rules = [] };
  errors = [];
  mcp_probe = none;
}

abbrev pub options : ScanOptions
options = record {
  host = codes "";
  domains = [];
  no_probe = false;
  probe_url = codes "";
  probe_timeout = 0;
  ci = false;
  ai_enabled = false;
  intended_ports = [];
  policy_path = codes "";
  brand_name = codes "";
  collect = true;
  collect_privileged = false;
  signals_path = codes "";
  compose_path = codes "";
  mcp_probe_enabled = false;
  mcp_probe_consent = false;
  mcp_probe_unsandboxed = false;
}

abbrev pub context : ScanContext
context = record {
  stack = some stack;
  options = options;
  probe = some probe;
  collector = some signals;
  intended = 80 ∷ [];
}

-- The tool "read" of one server, with its hash at a time.
abbrev pub observation : Text → ℕ → Observation
observation hash now = record {
  client = codes "claude";
  server = codes "files";
  tool = codes "read";
  hash = hash;
  now = now;
  id = record { command = codes "npx files"; url = codes "" };
}
