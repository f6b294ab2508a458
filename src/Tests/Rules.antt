-- ===== src/Tests/Rules.antt =====
-- The checks, the catalog and the firewall dumps at a small stack.
use keelix.Prelude.{◌≡◌, ◌↔◌, refl, true, [], ◌∷◌, none, some, Mem, here, there, arith}
use keelix.Text.{
  Text, codes, text_eq, index, last_index_byte, trim_prefix, to_lower, split_byte, itoa, contains,
}
use keelix.Model.Finding.{Finding, critical}
use keelix.Model.Stack.{Stack, Service, PortMapping, published_to_all_interfaces}
use keelix.Model.Scan.{ScanContext}
use keelix.Intel.Cves.{image_cves}
use keelix.Catalog.Types.{Entry}
use keelix.Catalog.{get, has, entries}
use keelix.Catalog.Rules.{get_rule, IsConfig}
use keelix.Threatfeed.Lookup.{kev_listed, lookup, lookup_key, search_loop, reached, key_ge}
use keelix.Threatfeed.Record.{has_kev}
use keelix.Threatfeed.Cve.{parse_cve}
use keelix.Correlate.Classify.{classify}
use keelix.Score.Grade.{red}
use keelix.Score.V2.{compute_v2}
use keelix.Parse.Ufw.{is_ufw, load_firewall}
use keelix.Checks.{Formats, failing, entry_of}
use keelix.Checks.Exposure.Covers.{Reported, is_exposed, exposed_iff}
use keelix.Checks.Firewall.{fw001, fw001_finding}
use keelix.Checks.Firewall.Bypassed.{fw001-reports}
use keelix.Checks.Exposure.{exp001}
use keelix.Checks.Origin.{origin}
use keelix.Checks.Origin.Registered.{registered, registered-origin}
use keelix.Checks.Secrets.{sec001, sec004, is_literal}
use keelix.Checks.Secrets.Hidden.{secrets_hidden, with_services_of}
use keelix.Checks.SupplyChain.{sup003, most_exposed_host_port}
use keelix.Checks.SupplyChain.Exploited.{sup003-red}
use keelix.Tests.Samples.{table, stack, service, mapping, probe, open_port, context, hint}

abbrev formats : Formats
formats = record { quoted = λ t. t; percentile = itoa }

-- A search engine with a known-exploited image, with one port bound to the loopback interface and one
-- that is published.
abbrev loopback : PortMapping
loopback = mapping (codes "127.0.0.1") 9983 9983

abbrev published : PortMapping
published = mapping [] 8983 8983

published-public : published_to_all_interfaces published ≡ true
unfolding published_to_all_interfaces
published-public = refl

abbrev solr : Service
solr = service (codes "search") (codes "solr:8.11") (loopback ∷ published ∷ [])

abbrev solr_stack : Stack
solr_stack = record stack { services = solr ∷ [] }

abbrev solr_context : ScanContext
solr_context = record context { stack = some solr_stack; collector = none; probe = some probe }

solr_cves : image_cves (codes "solr:8.11") ≡ some (codes "CVE-2021-44228" ∷ [])
unfolding image_cves text_eq index last_index_byte to_lower trim_prefix
solr_cves = refl

log4j_listed : kev_listed table (codes "CVE-2021-44228") ≡ true
unfolding kev_listed lookup lookup_key search_loop reached key_ge parse_cve text_eq has_kev
log4j_listed = refl

sup003-red_example :
    ((compute_v2 table
        (classify (some solr_context) (hint ∷ sup003 formats table solr_context))).rating
      ≡ red)
    × ((q : PortMapping) × Mem q (loopback ∷ published ∷ [])
        × (published_to_all_interfaces q ≡ true)
        × (most_exposed_host_port solr ≡ some q.host_port))
sup003-red_example =
    sup003-red formats table solr_context {p = probe} {svc = solr} {pm = published}
      {cves = codes "CVE-2021-44228" ∷ []} {cve = codes "CVE-2021-44228"}
      (hint ∷ sup003 formats table solr_context) refl refl here (there here) (ground arith)
      published-public (omega arith, (omega arith, tt)) solr_cves here log4j_listed (λ f m. there m)

exposed_iff_example : Reported context 8080 ↔ (is_exposed context 8080 ≡ true)
exposed_iff_example = exposed_iff context probe refl 8080 (open_port 8080).1 (there here) refl

abbrev dump : Text
dump = codes "Status: active\n80 DENY Anywhere"

abbrev web_port : PortMapping
web_port = mapping (codes "") 80 80

abbrev web : Service
web = service (codes "web") (codes "nginx") (web_port ∷ [])

abbrev walled : Stack
walled = record stack {
  services = web ∷ [];
  firewall = some (load_firewall (codes "ufw.txt") dump);
}

fw001-reports_example :
    Mem
      (fw001_finding context (load_firewall (codes "ufw.txt") dump) web web_port)
      (fw001 walled context)
unfolding is_ufw split_byte contains itoa published_to_all_interfaces
fw001-reports_example =
    fw001-reports context walled (codes "ufw.txt") dump {svc = web} {pm = web_port} refl refl
      (there here) (omega arith) here here refl (ground arith)

abbrev with_secret : Text → Service
with_secret value = record web { environment = (codes "API_KEY", value) ∷ [] }

abbrev secret_context : ScanContext
secret_context = record context {
  stack = some (record stack { services = with_secret (codes "hunter2") ∷ [] });
}

secrets_hidden_example :
    (sec001 secret_context
      ≡ sec001 (with_services_of secret_context stack (with_secret (codes "secret") ∷ [])))
    × (sec004 formats secret_context
        ≡ sec004 formats
            (with_services_of secret_context stack (with_secret (codes "secret") ∷ [])))
unfolding is_literal text_eq
secrets_hidden_example =
    secrets_hidden formats secret_context
      (record stack { services = with_secret (codes "hunter2") ∷ [] })
      (with_secret (codes "secret") ∷ []) refl (refl, (refl, refl, tt), tt)

abbrev redis_entry : Entry
redis_entry = entry_of (codes "SVC001")

redis_known : get (codes "SVC001") ≡ some redis_entry
unfolding get entries text_eq entry_of
redis_known = refl

get_rule_example :
    (redis_entry.id ≡ codes "SVC001")
    × (redis_entry.severity ≡ critical → IsConfig redis_entry.group → redis_entry.fatal ≡ true)
    × (redis_entry.fatal ≡ true → redis_entry.severity ≡ critical)
get_rule_example = get_rule (codes "SVC001") redis_entry redis_known

registered-origin_example :
    (has (codes "EXP001") ≡ true)
    × ((f : Finding)
        → Mem f (exp001 context)
        → (f.check_id ≡ codes "EXP001") × (origin f ≡ origin (failing (codes "EXP001"))))
unfolding registered
registered-origin_example =
    registered-origin formats table [] stack context {id = codes "EXP001"} {check = exp001} here
