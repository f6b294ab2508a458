-- ===== src/Threatfeed/Lookup.antt =====
-- internal/threatfeed/feed.go: the lookups over the loaded table.
pub mod Correct
use keelix.Prelude.{
  ℕ, zero, suc, ◌+◌, ◌*◌, ◌/◌, Bool, true, false, ◌&&◌, ◌||◌, not, List, [], ◌∷◌, Option, none,
  some, ltb, ◌==◌, if◌then◌else◌, length, get_elem?,
}
use keelix.Text.{Text}
use keelix.Threatfeed.Record.{Record, Table, has_kev, epss_present, percentile}
use keelix.Threatfeed.Cve.{parse_cve}

-- cmpKey(ay, as, by, bs) >= 0: the first key is not below the second
unfoldable pub key_ge : ℕ → ℕ → ℕ → ℕ → Bool
key_ge ay as' by bs =
    if ltb ay by then false else if ltb by ay then true else if ltb as' bs then false else true

-- The test of sort.Search at index i, which the search keeps below the length.
unfoldable pub reached : List Record → ℕ → ℕ → ℕ → Bool
unfolding key_ge
reached recs y s i = elim (get_elem? recs i) [ none ↦ true | some r ↦ key_ge r.year r.seq y s ]

-- The loop of sort.Search: the least index of [i, j) that passes, or j. Each round lowers j - i.
unfoldable pub search_loop : ℕ → (ℕ → Bool) → ℕ → ℕ → ℕ
search_loop zero p i j = i
search_loop (suc f) p i j =
    let h = (i + j) / 2 in
    let left = search_loop f p i h in
    let right = search_loop f p (h + 1) j in if ltb i j then if p h then left else right else i

at_key : ℕ → ℕ → Option Record → Option Record
at_key y s none = none
at_key y s (some r) = if r.year == y && r.seq == s then some r else none

-- lookup, for a key that has been parsed
unfoldable pub lookup_key : List Record → ℕ → ℕ → Option Record
unfolding search_loop reached at_key
lookup_key recs y s =
    at_key y s (get_elem? recs (search_loop (length recs) (reached recs y s) 0 (length recs)))

-- lookup
unfoldable pub lookup : Table → Text → Option Record
lookup none cve = none
lookup (some recs) cve = elim (parse_cve cve) [ none ↦ none | some (y, s) ↦ lookup_key recs y s ]

-- KEVListed
unfoldable pub kev_listed : Table → Text → Bool
kev_listed t cve = elim (lookup t cve) [ none ↦ false | some r ↦ has_kev r ]

-- EPSSPercentile, in 200ths; none for ok = false
unfoldable pub epss_percentile : Table → Text → Option ℕ
epss_percentile t cve = elim (lookup t cve) [
  | none ↦ none
  | some r ↦ if epss_present r then some (percentile r) else none
]

-- EPSSBucket
unfoldable pub epss_bucket : Table → Text → Option ℕ
epss_bucket t cve = elim (lookup t cve) [
  | none ↦ none
  | some r ↦ if epss_present r then some (if ltb 200 r.pctl then 200 else r.pctl) else none
]

-- Weight, in 2000ths
unfoldable pub weight : Table → Text → ℕ
weight t cve = elim (lookup t cve) [
  | none ↦ 2000
  | some r ↦ if has_kev r then 2000 else if epss_present r then 600 + 7 * percentile r else 2000
]
