-- ===== src/Checks/Hardening/Daemon.antt =====
-- internal/checks/hardening/hrd009.go, hrd010.go: who may talk to the Docker daemon of the host.
use keelix.Prelude.{
  ℕ, ◌+◌, ◌-◌, ◌*◌, ◌%◌, Bool, not, ◌&&◌, List, [], ◌∷◌, ◌++◌, Option, none, some, leb, ◌==◌, any,
  if◌then◌else◌, map,
}
use keelix.Text.{Text, codes, utf8, text_eq, contains, to_lower, itoa}
use keelix.Model.Finding.{Finding}
use keelix.Model.Signals.{ProcessFact, FileFact}
use keelix.Checks.{Check, Formats, failing, passing, no_collector, or_pass, concat}
use keelix.Checks.Daemons.{is_darwin}

-- fileByPath
file_by_path : List FileFact → Text → Option FileFact
file_by_path [] path = none
file_by_path (ff ∷ ffs) path =
    let rest = file_by_path ffs path in if text_eq ff.path path then some ff else rest

-- strconv.ParseUint(s, 8, 32): the digits after the value of those before them, and the bound
octal_digits : Text → ℕ → Option ℕ
octal_digits [] n = some n
octal_digits (c ∷ s) n =
    let rest = octal_digits s (n * 8 + (c - b'0')) in
    if leb b'0' c && leb c b'7' then rest else none

max_mode : ℕ
max_mode = 4294967295

within_mode : Option ℕ → Option ℕ
unfolding max_mode
within_mode none = none
within_mode (some n) = if leb n max_mode then some n else none

unfoldable pub parse_octal : Text → Option ℕ
unfolding octal_digits within_mode
parse_octal [] = none
parse_octal (c ∷ s) = within_mode (octal_digits (c ∷ s) 0)

abbrev docker_sock_path : Text
docker_sock_path = codes "/var/run/docker.sock"

unfoldable pub hrd009_finding : Text → Finding
hrd009_finding mode = record (failing (codes "HRD009")) {
  resource = docker_sock_path;
  evidence =
      docker_sock_path
      ++ ((codes " has mode ")
          ++ (mode ++ (utf8 " — world-accessible bits are set (other r/w/x)")));
  fix = record {
    summary =
        (codes
          "Restrict /var/run/docker.sock to owner root and group docker (0660). Remove world-accessible bits.");
    diff = [];
    commands =
        (codes "chmod 660 /var/run/docker.sock")
        ∷ (codes "chown root:docker /var/run/docker.sock")
        ∷ [];
    doc_url = [];
  };
}

-- The end of hrd009.Run: mode & 0o007 is the remainder by 8
unfoldable pub hrd009_mode : Text → Option ℕ → List Finding
hrd009_mode mode none = no_collector (codes "HRD009")
hrd009_mode mode (some n) =
    if not (n % 8 == 0)
    then hrd009_finding mode ∷ []
    else passing (codes "HRD009")
        ((codes "/var/run/docker.sock permissions are appropriately restricted."))

unfoldable pub hrd009_file : Option FileFact → List Finding
unfolding parse_octal
hrd009_file none = no_collector (codes "HRD009")
hrd009_file (some ff) =
    if not ff.exists
    then no_collector (codes "HRD009")
    else if text_eq ff.mode []
    then no_collector (codes "HRD009")
    else hrd009_mode ff.mode (parse_octal ff.mode)

-- hrd009.Run
unfoldable pub hrd009 : Check
unfolding file_by_path
hrd009 ctx = elim ctx.collector [
  | none ↦ no_collector (codes "HRD009")
  | some s ↦
      if is_darwin s
      then no_collector (codes "HRD009")
      else hrd009_file (file_by_path s.files docker_sock_path)
]

-- isAgentComm
unfoldable pub is_agent_comm : Text → Bool
is_agent_comm comm =
    let lower = to_lower comm in
    any (λ a. contains lower a)
      ((codes "openclaw")
        ∷ (codes "claude")
        ∷ (codes "claude-code")
        ∷ (codes "codex")
        ∷ (codes "cursor")
        ∷ (codes "windsurf")
        ∷ [])

-- Whether the loop of hrd010 would report the process, had its user not been seen.
unfoldable pub is_docker_user : ProcessFact → Bool
is_docker_user p =
    not (p.uid == 0)
    && not (is_agent_comm p.comm)
    && any (λ grp. text_eq (to_lower grp) (codes "docker")) p.groups

-- The processes that the loop reports: one for each user, with the users seen so far.
unfoldable pub docker_users : List ProcessFact → List ℕ → List ProcessFact
unfolding is_docker_user
docker_users [] seen = []
docker_users (p ∷ ps) seen =
    let hit = is_docker_user p && not (any (λ u. u == p.uid) seen) in
    let rest = docker_users ps (if hit then p.uid ∷ seen else seen) in
    if hit then p ∷ rest else rest

module _ (fmt : Formats) where
  unfoldable pub hrd010_finding : ProcessFact → Finding
  hrd010_finding p = record (failing (codes "HRD010")) {
    resource = concat ((codes "uid ") ∷ itoa p.uid ∷ (codes " (") ∷ p.comm ∷ (codes ")") ∷ []);
    evidence = concat (
        (codes "non-root user (uid ")
        ∷ itoa p.uid
        ∷ (codes ", process ")
        ∷ fmt.quoted p.comm
        ∷ (utf8 ") is a member of the docker group — equivalent to passwordless root on the host")
        ∷ []);
    fix = record {
      summary =
          (codes
            "Remove the user from the docker group; prefer rootless Docker or a dedicated non-interactive service account for Docker API access.");
      diff = [];
      commands =
          ((codes "# Identify the user: getent passwd ") ++ itoa p.uid)
          ∷ (codes "# Then: gpasswd -d <username> docker")
          ∷ (codes "# Or switch to rootless Docker: dockerd-rootless-setuptool.sh install")
          ∷ [];
      doc_url = [];
    };
  }

  unfoldable pub hrd010_processes : List ProcessFact → List Finding
  unfolding docker_users
  hrd010_processes ps =
      or_pass (codes "HRD010")
        ((codes
          "No non-root interactive user found in the docker group (outside of agent processes)."))
        (map hrd010_finding (docker_users ps []))

  -- hrd010.Run
  unfoldable pub hrd010 : Check
  hrd010 ctx = elim ctx.collector [
    | none ↦ no_collector (codes "HRD010")
    | some s ↦ if is_darwin s then no_collector (codes "HRD010") else hrd010_processes s.processes
  ]
