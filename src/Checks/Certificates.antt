-- ===== src/Checks/Certificates.antt =====
-- internal/checks/tlschk and internal/checks/dns: certificates and DNS records that the probe saw.
-- TLS002 prints a date and is left out.
use keelix.Prelude.{ℕ, Bool, false, not, ◌||◌, List, [], ◌∷◌, none, some, if◌then◌else◌}
use keelix.Text.{Text, codes, text_eq}
use keelix.Model.Finding.{Finding}
use keelix.Model.Scan.{ProbeResult, DnsRecord, CertInfo, lookup_port}
use keelix.Checks.{
  Check, Formats, failing, passing, for_each, or_pass, report_if, concat, summary_fix,
}

unfoldable pub is_open_port : ProbeResult → ℕ → Bool
unfolding lookup_port
is_open_port p port = elim (lookup_port port p.reachable) [ none ↦ false | some pp ↦ pp.is_open ]

-- tls001.Run
unfoldable pub tls001 : Check
unfolding is_open_port
tls001 ctx = elim ctx.probe [
  | none ↦ []
  | some p ↦
      if not (is_open_port p 80)
      then []
      else if is_open_port p 443
      then passing (codes "TLS001") (codes "HTTPS (port 443) is reachable.")
      else record (failing (codes "TLS001")) {
        evidence = (codes "Port 80 (HTTP) is reachable from outside but port 443 (HTTPS) is not.");
        fix = summary_fix (codes "Terminate TLS at the reverse proxy and redirect HTTP to HTTPS.");
      }
        ∷ []
]

-- The loop over the certificates, if there are any.
unfoldable pub over_certificates :
    Text → Text → (CertInfo → List Finding) → List CertInfo → List Finding
over_certificates id detail body [] = []
over_certificates id detail body (c ∷ cs) = or_pass id detail (for_each body (c ∷ cs))

unfoldable pub tls003_certificate : CertInfo → List Finding
tls003_certificate c = report_if c.self_signed (record (failing (codes "TLS003")) {
  resource = c.endpoint;
  evidence = (codes "Certificate is self-signed (not issued by a trusted CA).");
  fix = summary_fix (
      codes
        "Replace the self-signed certificate with a CA-issued certificate (e.g. Let's Encrypt via Certbot or the reverse proxy's built-in ACME client).");
})

-- tls003.Run
unfoldable pub tls003 : Check
unfolding over_certificates tls003_certificate
tls003 ctx = elim ctx.probe [
  | none ↦ []
  | some p ↦
      over_certificates (codes "TLS003")
        (codes "No self-signed certificates found on public endpoints.") tls003_certificate
        p.certificates
]

-- weakTLSVersion
unfoldable pub weak_tls_version : Text → Bool
unfolding text_eq
weak_tls_version v = text_eq v (codes "TLS 1.0") || text_eq v (codes "TLS 1.1")

unfoldable pub tls004_certificate : CertInfo → List Finding
tls004_certificate c =
    report_if (c.weak_cipher || weak_tls_version c.tls_version) (record (failing (codes "TLS004")) {
      resource = c.endpoint;
      evidence = concat (
          (codes "TLS version: ")
          ∷ c.tls_version
          ∷ (codes "; weak cipher: ")
          ∷ (if c.weak_cipher then (codes "true") else (codes "false"))
          ∷ (codes " (cipher: ")
          ∷ c.cipher_name
          ∷ (codes ").")
          ∷ []);
      fix = summary_fix (
          codes
            "Configure the reverse proxy to require TLS 1.2 or higher and disable weak cipher suites.");
    })

-- tls004.Run
unfoldable pub tls004 : Check
unfolding over_certificates tls004_certificate
tls004 ctx = elim ctx.probe [
  | none ↦ []
  | some p ↦
      over_certificates (codes "TLS004")
        (codes "No weak TLS versions or cipher suites found on public endpoints.")
        tls004_certificate p.certificates
]

unfoldable pub dns001_record : DnsRecord → List Finding
dns001_record rec = report_if rec.wildcard (record (failing (codes "DNS001")) {
  resource = rec.name;
  evidence = (codes "Wildcard DNS record resolves all subdomains to this host.");
  fix =
      summary_fix (
        codes "Replace the wildcard record with explicit DNS entries for each intended subdomain.");
})

-- dns001.Run
unfoldable pub dns001 : Check
unfolding dns001_record
dns001 ctx = elim ctx.probe [
  | none ↦ []
  | some p ↦
      or_pass (codes "DNS001") (codes "No wildcard DNS records found pointing at this host.")
        (for_each dns001_record p.dns_records)
]

module _ (fmt : Formats) where
  unfoldable pub dns002_record : DnsRecord → List Finding
  dns002_record rec = report_if rec.dangling (record (failing (codes "DNS002")) {
    resource = concat (rec.name ∷ (codes " -> ") ∷ rec.value ∷ []);
    evidence = concat (
        (codes "DNS record ")
        ∷ rec.name
        ∷ (codes " (")
        ∷ rec.kind
        ∷ (codes ") points to ")
        ∷ fmt.quoted rec.value
        ∷ (codes " which does not resolve or is unclaimed.")
        ∷ []);
    fix = summary_fix (
        codes
          "Remove or update the dangling DNS record. If the target is an external service, claim it or delete the record to prevent subdomain takeover.");
  })

  -- dns002.Run
  unfoldable pub dns002 : Check
  unfolding dns002_record
  dns002 ctx = elim ctx.probe [
    | none ↦ []
    | some p ↦
        or_pass (codes "DNS002") (codes "No dangling DNS records found.")
          (for_each dns002_record p.dns_records)
  ]
