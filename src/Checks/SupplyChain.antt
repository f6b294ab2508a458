-- ===== src/Checks/SupplyChain.antt =====
-- internal/checks/supplychain: the images. The blob of the threat feed is an argument, and so is the
-- feed of compromised images, which SetCompromisedFeed stores.
pub mod Named
pub mod Reported
pub mod Exploited
use keelix.Prelude.{
  ℕ, Bool, true, not, ◌&&◌, ◌||◌, List, [], ◌∷◌, ◌++◌, map, Option, none, some, ltb, ◌==◌, any,
  select, if◌then◌else◌, get_or_else,
}
use keelix.Text.{Text, codes, utf8, text_eq, text_lt, itoa}
use keelix.Model.Finding.{Finding, medium, high, TextMap}
use keelix.Model.Stack.{Service, PortMapping, published_to_all_interfaces}
use keelix.Checks.{Check, Formats, failing, over_services, report_if, concat, summary_fix}
use keelix.Prelude.Sort.{sort}
use keelix.Intel.Images.{image_base, has_digest}
use keelix.Intel.Cves.{image_cves}
use keelix.Threatfeed.Record.{Table}
use keelix.Threatfeed.Lookup.{kev_listed, epss_bucket}

-- mostExposedHostPort; the state is none for found = false
abbrev pub Exposed : Type 0
Exposed = Option (ℕ × Bool)

is_better : Exposed → ℕ → Bool → Bool
is_better none port public = true
is_better (some (best, best_public)) port public =
    (public && not best_public)
    || ((if public then best_public else not best_public) && ltb best port)

unfoldable pub exposed_step : PortMapping → Exposed → Exposed
unfolding is_better
exposed_step pm e =
    if pm.host_port == 0
    then e
    else if is_better e pm.host_port (published_to_all_interfaces pm)
    then some (pm.host_port, published_to_all_interfaces pm)
    else e

unfoldable pub exposed_loop : List PortMapping → Exposed → Exposed
unfolding exposed_step
exposed_loop [] e = e
exposed_loop (pm ∷ pms) e = exposed_loop pms (exposed_step pm e)

unfoldable pub port_of : Exposed → Option ℕ
port_of none = none
port_of (some (port, public)) = some port

unfoldable pub most_exposed_host_port : Service → Option ℕ
unfolding exposed_loop port_of
most_exposed_host_port svc = port_of (exposed_loop svc.ports none)

-- The metadata of a finding of sup003.
unfoldable pub stamped : Text → Option ℕ → TextMap
stamped cve none = ((codes "cve"), cve) ∷ []
stamped cve (some port) = ((codes "cve"), cve) ∷ ((codes "port"), itoa port) ∷ []

-- The order of sort.Slice in sup003: buckets from high to low, then the names.
bucket_of : Table → Text → ℕ
bucket_of t cve = get_or_else (epss_bucket t cve) 0

unfoldable pub ranks_before : Table → Text → Text → Bool
unfolding bucket_of
ranks_before t c d =
    if not (bucket_of t c == bucket_of t d)
    then ltb (bucket_of t d) (bucket_of t c)
    else text_lt c d

-- The loop of sup004: the worst CVE so far and its bucket.
abbrev threshold : ℕ
threshold = 181

worse : Text → ℕ → Text × ℕ → Bool
worse cve b (worst, worst_bucket) =
    ltb worst_bucket b || (b == worst_bucket && (text_eq worst [] || text_lt cve worst))

epss_step : Table → Text → Text × ℕ → Text × ℕ
unfolding worse
epss_step t cve w = if kev_listed t cve then w else elim (epss_bucket t cve) [
  | none ↦ w
  | some b ↦ if ltb b threshold then w else if worse cve b w then (cve, b) else w
]

unfoldable pub epss_loop : Table → List Text → Text × ℕ → Text × ℕ
unfolding epss_step
epss_loop t [] w = w
epss_loop t (cve ∷ cves) w = epss_loop t cves (epss_step t cve w)

-- What SetCompromisedFeed stores.
unfoldable pub compromised_feed : List Text → List Text
compromised_feed images = map image_base images

module _ (fmt : Formats) where
  unfoldable pub sup001_service : Service → List Finding
  sup001_service svc =
      report_if (not (text_eq svc.image []) && not (has_digest svc.image))
        (record (failing (codes "SUP001")) {
          service = svc.name;
          resource = (codes "image ") ++ svc.image;
          evidence = concat (
              (codes "image ")
              ∷ fmt.quoted svc.image
              ∷ (codes " does not include an @sha256 digest")
              ∷ []);
          fix = record {
            summary =
                (codes "Pin the image to a specific digest to guarantee reproducible deployments.");
            diff = concat (
                (codes "image: ")
                ∷ svc.image
                ∷ (codes "  ->  ")
                ∷ image_base svc.image
                ∷ (codes "@sha256:<digest>")
                ∷ []);
            commands = [];
            doc_url =
                (codes
                  "https://docs.docker.com/engine/reference/commandline/pull/#pull-an-image-by-digest-immutable-identifier");
          };
        })

  -- sup001.Run
  unfoldable pub sup001 : Check
  sup001 =
      over_services (codes "SUP001")
        (codes "All images are pinned to a digest (or no images present).") sup001_service

  unfoldable pub sup002_service : List Text → Service → List Finding
  sup002_service feed svc =
      report_if (not (text_eq svc.image []) && any (text_eq (image_base svc.image)) feed)
        (record (failing (codes "SUP002")) {
          service = svc.name;
          resource = (codes "image ") ++ svc.image;
          evidence = concat (
              (codes "image ")
              ∷ fmt.quoted svc.image
              ∷ (codes " (base: ")
              ∷ fmt.quoted (image_base svc.image)
              ∷ (codes ") is listed on the known-compromised feed")
              ∷ []);
          fix = summary_fix (
              codes
                "Stop using this image immediately, remove any containers running it, and investigate for signs of compromise.");
        })

  -- sup002.Run
  unfoldable pub sup002 : List Text → Check
  sup002 feed =
      over_services (codes "SUP002") (codes "No images matched the known-compromised feed.")
        (sup002_service feed)

  unfoldable pub sup003_finding : Service → Text → Finding
  sup003_finding svc worst = record (failing (codes "SUP003")) {
    service = svc.name;
    resource = (codes "image ") ++ svc.image;
    evidence = concat (
        (codes "image ")
        ∷ fmt.quoted svc.image
        ∷ (codes " is affected by known-exploited CVE ")
        ∷ worst
        ∷ (codes " (CISA KEV)")
        ∷ []);
    confidence = high;
    metadata = stamped worst (most_exposed_host_port svc);
    fix = summary_fix (
        concat (
          (codes "Update ")
          ∷ svc.image
          ∷ (codes " to a version that patches ")
          ∷ worst
          ∷ (utf8
              ", or pin to a fixed digest. Known-exploited CVEs are actively used in the wild — patch immediately.")
          ∷ []));
  }

  unfoldable pub report_worst : Service → List Text → List Finding
  report_worst svc [] = []
  report_worst svc (worst ∷ kev) = sup003_finding svc worst ∷ []

  unfoldable pub sup003_cves : Table → Service → Option (List Text) → List Finding
  unfolding report_worst
  sup003_cves t svc none = []
  sup003_cves t svc (some cves) =
      report_worst svc (sort (ranks_before t) (select (kev_listed t) cves))

  unfoldable pub sup003_service : Table → Service → List Finding
  unfolding sup003_cves
  sup003_service t svc =
      if text_eq svc.image [] then [] else sup003_cves t svc (image_cves svc.image)

  -- sup003.Run
  unfoldable pub sup003 : Table → Check
  sup003 t =
      over_services (codes "SUP003") (codes "No images mapped to a known-exploited (KEV) CVE.")
        (sup003_service t)

  unfoldable pub sup004_finding : Service → Text × ℕ → Finding
  sup004_finding svc (worst, bucket) = record (failing (codes "SUP004")) {
    service = svc.name;
    resource = (codes "image ") ++ svc.image;
    evidence = concat (
        (codes "image ")
        ∷ fmt.quoted svc.image
        ∷ (codes " is affected by high-EPSS CVE ")
        ∷ worst
        ∷ (codes " (percentile ")
        ∷ fmt.percentile bucket
        ∷ (codes ", not on CISA KEV)")
        ∷ []);
    confidence = medium;
    metadata = ((codes "cve"), worst) ∷ [];
    fix = summary_fix (
        concat (
          (codes "Plan an update for ")
          ∷ svc.image
          ∷ (codes " to patch ")
          ∷ worst
          ∷ (codes ". Its EPSS percentile is high (")
          ∷ fmt.percentile bucket
          ∷ (utf8 ") — exploitation is likely; patch soon.")
          ∷ []));
  }

  unfoldable pub sup004_cves : Table → Service → Option (List Text) → List Finding
  sup004_cves t svc none = []
  sup004_cves t svc (some cves) =
      let w = epss_loop t cves ([], 0) in if text_eq w.0 [] then [] else sup004_finding svc w ∷ []

  unfoldable pub sup004_service : Table → Service → List Finding
  sup004_service t svc =
      if text_eq svc.image [] then [] else sup004_cves t svc (image_cves svc.image)

  -- sup004.Run
  unfoldable pub sup004 : Table → Check
  sup004 t =
      over_services (codes "SUP004") (codes "No images mapped to a high-EPSS CVE.")
        (sup004_service t)
