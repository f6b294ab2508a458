-- ===== src/Tests/Stores.antt =====
-- The threat table and the baseline of fingerprints.
use mathlib.Core.List.{reverse}
use mathlib.Core.List.Permᴰ
use keelix.Prelude.{ℕ, List, ◌≡◌, ◌↔◌, inl, refl, false, not, [], ◌∷◌, some, Mem, arith}
use keelix.Prelude.Sort.{sort, insert}
use keelix.Text.{Text, codes, text_eq}
use keelix.Threatfeed.Record.{load, encode_table, IsRecord, load-encode_table}
use keelix.Threatfeed.Cve.{parse_cve}
use keelix.Threatfeed.Lookup.{lookup}
use keelix.Threatfeed.Generator.{
  build_table, add_epss, add_kev, parse_cve_key, update, set_epss, set_kev, key_before,
}
use keelix.Threatfeed.Generator.Sorted.{build_table-IsSorted}
use keelix.Threatfeed.Generator.Keys.{parse_cve_key_lem}
use keelix.Threatfeed.Lookup.Correct.{IsSorted, lookup_iff}
use keelix.Baseline.{Observation, find_entry, diff, diff_all}
use keelix.Baseline.Drift.{drift_iff_first}
use keelix.Tests.Samples.{log4j, xz, records, observation}

xz-IsRecord : IsRecord xz
xz-IsRecord = record {
  year_bound = omega arith;
  seq_bound = omega arith;
  flags_bound = omega arith;
  pctl_bound = omega arith;
}

load-encode_table_example : load (some (encode_table (xz ∷ []))) ≡ some (xz ∷ [])
load-encode_table_example = load-encode_table (xz ∷ []) (xz-IsRecord, tt)

lookup_iff_example :
    (lookup (some records) (codes "CVE-2024-3094") ≡ some xz)
    ↔ (Mem xz records × (parse_cve (codes "CVE-2024-3094") ≡ some (xz.year, xz.seq)))
lookup_iff_example =
    lookup_iff records (codes "CVE-2024-3094") xz ((inl (omega arith), tt), (tt, tt))

abbrev first : Observation
first = observation (codes "aa") 1

abbrev poisoned : Observation
poisoned = observation (codes "bb") 2

-- The poisoned tool is reported again after it was seen once.
drift_iff_first_example : (diff (diff_all (diff [] first).0 (poisoned ∷ [])) poisoned).1 ≡ record {
  first_seen = false;
  drifted = not (text_eq (codes "aa") (codes "bb"));
  hash = codes "bb";
}
unfolding find_entry text_eq
drift_iff_first_example =
    drift_iff_first [] first (poisoned ∷ []) poisoned refl ((λ e. refl), tt) refl refl

-- The table of two rows and one identifier, and a malformed row.
abbrev rows : List (Text × ℕ)
rows = (codes "CVE-2024-3094", 190) ∷ (codes "CVE-2021-44228", 200) ∷ (codes "CVE-21-1", 7) ∷ []

built :
    build_table (λ rs. rs) rows (codes "CVE-2024-3094" ∷ []) ≡ record log4j { flags = 2 } ∷ xz ∷ []
unfolding build_table add_epss add_kev parse_cve_key update set_epss set_kev sort insert key_before
built = refl

build_table-IsSorted_example : IsSorted (build_table reverse rows (codes "CVE-2024-3094" ∷ []))
build_table-IsSorted_example =
    build_table-IsSorted reverse rows (codes "CVE-2024-3094" ∷ [])
      (λ rs. Permᴰ.symm (Permᴰ.reverse rs))

parse_cve_key_lem_example :
    parse_cve_key (codes "cve-2024-3094") ≡ parse_cve (codes "cve-2024-3094")
parse_cve_key_lem_example = parse_cve_key_lem (codes "cve-2024-3094")
