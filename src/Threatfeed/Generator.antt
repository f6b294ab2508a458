-- ===== src/Threatfeed/Generator.antt =====
-- internal/threatfeed/gen/build.go: the union of the EPSS rows and the KEV identifiers. Reading the
-- CSV and the JSON is left out: a row is its first field with the bucket that quantize gives for its
-- percentile, and a row whose percentile is no number is not listed. The map is the
-- list of its entries; the order in which a loop visits them is a parameter.
pub mod Sorted
pub mod Keys
use keelix.Prelude.{
  ℕ, ◌+◌, ◌-◌, ◌/◌, ◌%◌, Bool, not, ◌&&◌, List, [], ◌∷◌, Option, none, some, ltb, ◌==◌,
  if◌then◌else◌, length, take, drop,
}
use keelix.Prelude.Sort.{sort}
use keelix.Text.{Text, codes, equal_fold, trim_space}
use keelix.Threatfeed.Cve.{index_byte, parse_uint}
use keelix.Threatfeed.Record.{Record}

unfoldable pub number_key : ℕ → Option ℕ → Option (ℕ × ℕ)
number_key year none = none
number_key year (some seq) = some (year, seq)

-- The tests after the year: an empty number, then a malformed one.
unfoldable pub year_key : Text → Option ℕ → Option (ℕ × ℕ)
unfolding parse_uint number_key
year_key number none = none
year_key [] (some year) = none
year_key (c ∷ number) (some year) = number_key year (parse_uint 4294967295 (c ∷ number))

unfoldable pub dash_key : Text → Option ℕ → Option (ℕ × ℕ)
unfolding year_key
dash_key rest none = none
dash_key rest (some dash) =
    if dash == 4 then year_key (drop 5 rest) (parse_uint 65535 (take 4 rest)) else none

-- parseCVEKey
unfoldable pub parse_cve_key : Text → Option (ℕ × ℕ)
unfolding trim_space equal_fold dash_key index_byte
parse_cve_key cve =
    let s = trim_space cve in
    if ltb (length s) 10
    then none
    else if equal_fold (take 4 s) (codes "CVE-")
    then dash_key (drop 4 s) (index_byte (drop 4 s) b'-')
    else none

-- key, and the map of the union table
abbrev pub Key : Type 0
Key = ℕ × ℕ

abbrev pub Union : Type 0
Union = List (Key × Record)

unfoldable pub same_key : Key → Key → Bool
same_key (y, s) (year, seq) = y == year && s == seq

-- table[k], where a missing key reads as the zero value
unfoldable pub entry_at : Key → Union → Record
unfolding same_key
entry_at k [] = record { year = 0; seq = 0; flags = 0; pctl = 0 }
entry_at k ((j, r) ∷ table) = let rest = entry_at k table in if same_key j k then r else rest

-- table[k] = r
unfoldable pub store : Key → Record → Union → Union
unfolding same_key
store k r [] = (k, r) ∷ []
store k r ((j, q) ∷ table) =
    let rest = store k r table in if same_key j k then (j, r) ∷ table else (j, q) ∷ rest

unfoldable pub set_key : Key → Record → Record
set_key (y, s) r = record r { year = y; seq = s }

-- r := table[k]; r.year, r.seq = y, s; …; table[k] = r
unfoldable pub update : Key → (Record → Record) → Union → Union
unfolding entry_at store set_key
update k change table = store k (change (set_key k (entry_at k table))) table

-- r.flags |= genFlagEPSS; r.pctl = …
unfoldable pub set_epss : ℕ → Record → Record
set_epss bucket r = record r {
  flags = if r.flags / 2 % 2 == 1 then r.flags else r.flags + 2;
  pctl = bucket;
}

-- r.flags |= genFlagKEV
unfoldable pub set_kev : Record → Record
set_kev r = record r { flags = if r.flags % 2 == 1 then r.flags else r.flags + 1 }

update_at : Option Key → (Record → Record) → Union → Union
update_at none change table = table
update_at (some k) change table = update k change table

unfoldable pub add_epss : Union → List (Text × ℕ) → Union
unfolding update_at
add_epss table [] = table
add_epss table ((cve, bucket) ∷ rows) =
    add_epss (update_at (parse_cve_key cve) (set_epss bucket) table) rows

unfoldable pub add_kev : Union → List Text → Union
unfolding update_at
add_kev table [] = table
add_kev table (cve ∷ ids) = add_kev (update_at (parse_cve_key cve) set_kev table) ids

-- The test of sort.Slice.
unfoldable pub key_before : Record → Record → Bool
key_before r q = if not (r.year == q.year) then ltb r.year q.year else ltb r.seq q.seq

unfoldable pub records_of : Union → List Record
records_of [] = []
records_of ((k, r) ∷ table) = r ∷ records_of table

-- buildTable; range gives the values of the map in the order in which the loop over it visits them
unfoldable pub build_table : (List Record → List Record) → List (Text × ℕ) → List Text → List Record
unfolding add_epss add_kev records_of key_before
build_table range rows ids = sort key_before (range (records_of (add_kev (add_epss [] rows) ids)))
