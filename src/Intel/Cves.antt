-- ===== src/Intel/Cves.antt =====
-- internal/intel/images_cve.go: the CVEs of images.
use keelix.Prelude.{List, [], ◌∷◌, Option, none, some}
use keelix.Text.{Text, codes, lookup}
use keelix.Intel.Images.{image_base}

-- imageCVEs
unfoldable pub image_cve_table : List (Text × List Text)
image_cve_table =
    ((codes "keelixtest/log4j-demo"), (codes "CVE-2021-44228") ∷ [])
    ∷ ((codes "keelixtest/epss-demo"), (codes "CVE-2022-42889") ∷ [])
    ∷ ((codes "keelixtest/multi-kev-demo"), (codes "CVE-2021-44228") ∷ (codes "CVE-2005-2773") ∷ [])
    ∷ ((codes "vmware/vcenter"), (codes "CVE-2021-44228") ∷ [])
    ∷ ((codes "solr"), (codes "CVE-2021-44228") ∷ [])
    ∷ ((codes "elasticsearch"), (codes "CVE-2021-44228") ∷ [])
    ∷ ((codes "atlassian/confluence"), (codes "CVE-2021-26855") ∷ [])
    ∷ []

some_cves : Option (List Text) → Option (List Text)
some_cves none = none
some_cves (some []) = none
some_cves (some (cve ∷ cves)) = some (cve ∷ cves)

-- ImageCVEs
unfoldable pub image_cves : Text → Option (List Text)
unfolding some_cves image_cve_table lookup image_base
image_cves image = some_cves (lookup (image_base image) image_cve_table)
