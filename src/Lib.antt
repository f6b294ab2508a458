-- ===== src/Lib.antt =====
-- keelix, the security scanner for self-hosted services: its checks and their catalog, its scoring
-- core, its classification of exposure, the threat feed, the probe of MCP servers, redaction, policy
-- and the engine that runs them in order.
--
-- The program's parts. A scan parses a compose file (internal/parse) into a stack, collects signals
-- of the host (internal/collect) and probes ports (internal/probe). The checks (internal/checks)
-- turn these into findings, with the title, the severity and the impact that internal/catalog has
-- for the id of the check, and with what internal/intel knows of ports, images and capabilities.
-- internal/correlate gives each finding an exposure class; internal/score makes a number, a rating
-- and the driver of a cap out of the findings, for which it asks internal/threatfeed about the CVE
-- of a finding. internal/mcpprobe compares the tools of MCP
-- servers with stored fingerprints, over transports that talk to the servers. internal/engine
-- runs these parts in order; internal/redact takes secrets out of its result; internal/policy and
-- internal/cli decide, from the result, what the command exits with. Modelled are the data that
-- these parts exchange and the parts that decide.
--
-- The files, with the code that each is about:
--   Model            internal/model: Finding, CheckGroup, ScanContext, Signals, Stack, Result and
--                    the rest
--   Threatfeed       internal/threatfeed: Record (record.go, load of feed.go, encodeTable of
--                    gen/build.go), Cve (cve.go), Lookup (the queries of feed.go), Generator
--                    (parseCVEKey and buildTable of gen/build.go)
--   Intel            internal/intel: Images and Capabilities (images.go), Ports (ports.go), Cves
--                    (images_cve.go)
--   Catalog          internal/catalog/catalog.go: Get, Has, All, Finding, Pass and how the map of
--                    the entries is made; Types (Entry, the control references), and the entries
--                    in Network, Containers, Services, Agents and Host
--   Checks           internal/checks: what the packages share; Exposure (exposure), Firewall,
--                    Daemons and Kubelet (fw001 to fw004, fw005 and fw006 of firewall), Hardening
--                    (hrd001 to hrd008 of hardening) with Daemon (hrd009, hrd010), Secrets
--                    (secrets), Access (auth), Proxy (proxy), Certificates (tlschk less tls002,
--                    dns), SupplyChain (supplychain), Services, Media and Shares (service)
--   Parse            internal/parse/parse.go: Iptables (parseIptables), Ufw (parseUFW,
--                    LoadFirewall)
--   Score            internal/score: Grade (Rating, GradeRank, worst, band), V1 (score.go), Risk
--                    (threat, risk, applyKEVFatal), Numeric (computeNumeric), Cap (computeCap),
--                    V2 (ComputeV2, computeSubScores), Regrade (regrade/regrade.go)
--   Correlate        internal/correlate: Ports (findingPort, hostPortsFor, declaredPublic), Binds
--                    (bindClass, maxBindClass, overlayOnly), Firewall (firewallDrops,
--                    ruleAllowsPort), Controls (applyControls), Classify (classifyOne, Classify),
--                    Report (correlate.go)
--   Baseline         internal/mcpprobe/baseline.go: keyOf and Diff
--   Mcp              internal/mcpprobe: Client (client.go, the responses of jsonrpc.go), Stdio and
--                    Http (transport.go), Probe (probe.go, hash.go); Specs (mcpspecs.go of
--                    internal/engine); Gate (MaybeProbeMCP of engine.go, consent.go and scan.go of
--                    internal/cli)
--   Redact           internal/redact/redact.go: Patterns (the expressions, shannonEntropy), Known
--                    (newRedactor, redactString, knownSecretValues), Report (redactFinding, Result)
--   Policy           internal/policy/policy.go: Load after decoding, Evaluate
--   Engine           internal/engine/engine.go: Run; Methodology (buildMethodology)
--   Cli              internal/cli/scan.go: what a run of scan exits with
--   Outcome          results that may be errors, and calls on the outside world
--   Text, Net        the functions of Go's packages strings, strconv and net that this code calls
--   Prelude          library names, Boolean tests on numbers, lists, sorting
-- The other modules below these hold theorems on them. Tests holds runs and instances.
--
-- How the code is rendered. A string is the list of its bytes. Letters and blanks are those of
-- ASCII. An int is a natural number: ports, counts and times are not negative. A pointer that may
-- be nil is an Option. A map is an association list, a map[int]bool the list of its keys. A method
-- that changes its receiver takes the old value and gives the new one. A text with bytes beyond
-- ASCII is written with utf8, which encodes it as Go does.
--
-- The method Run of a check is a function of the scan context, and a loop over a map visits the
-- keys in the order of the list. The checks that read ctx.Stack without a guard against nil take
-- the stack as an argument. The verbs %q, and %.2f of a percentile, are parameters (Formats). Get,
-- which panics on an unknown id, gives none. The feed of compromised images is an argument of its
-- check. A ufw rule with a negative port gives no rule.
--
-- Floating-point numbers are replaced by exact integers in a fixed unit: the impact of a finding is
-- in tenths, the confidence multiplier in tenths, the exposure multiplier in hundredths, the threat
-- in 2000ths (the EPSS bucket is a 200th, and 0.3 + 0.7 p has a tenth), and so a risk in units of
-- 1/20,000,000; the cap of 5.0 on informational risk is 100,000,000 of them. The rounding of float64
-- is not modelled: the sums of computeNumeric are rounded, and depend by that on the order of the
-- findings, so that its number can differ by one from the one here, and the band of the number with
-- it, where the quotient is close to a half. The penalties of the first scoring model are in halves
-- of a point.
--
-- A Go function that returns an error gives an Outcome, done or fail with the text of the error. A
-- call on the world outside is a function from a state W of the world to an Outcome and the next
-- state, and W is a parameter. So are the sandbox, the network, the files, the decoding of JSON,
-- SHA-256, the parser, the collector, the checks and the AI client. What a child process sends
-- before the deadline is a list of lines, which ends where the stream or the time does.
--
-- The regular expressions of the redactor are matchers on lists of bytes. The entropy test
-- compares exact integers. NotAssessed of a result shares maps with Findings in Go, where they are
-- redacted twice; here the two lists are separate. sort.Slice is taken as a stable sort, and the
-- order in which buildTable ranges over its map is a parameter.
--
-- The blob of the threat feed is an argument: the table that loading it gives, or none on an error.
--
-- Bounds and fuel. The binary search runs on fuel, the length of the table, which is enough since
-- each step shortens the interval. The digits of n are computed on fuel n + 1. An IPv6 address is
-- read as at most eight groups. Replacing text runs on fuel, the length of the text; the selection
-- of the longest secret on the number of secrets; the pages of tools are at most 64, as in the code.
--
-- Not modelled: the parsers of compose files, of .env files and of proxies; the collector, the probe
-- of ports, the sandbox, the checks of the host, of agents and of MCP servers and tls002,
-- the reports, the AI client and the rest of the command line; of the parts above, reading
-- and writing files, gzip, JSON, printing, the registry of checks, the goroutine that reads a child's
-- output, and the context's timeouts.
pub mod Prelude
pub mod Text
pub mod Net
pub mod Model
pub mod Threatfeed
pub mod Intel
pub mod Baseline
pub mod Outcome
pub mod Parse
pub mod Catalog
pub mod Checks
pub mod Mcp
pub mod Redact
pub mod Score
pub mod Correlate
pub mod Policy
pub mod Engine
pub mod Cli
mod Tests
