-- ===== src/Threatfeed/Cve.antt =====
-- internal/threatfeed/cve.go: the key of a CVE identifier.
use keelix.Prelude.{
  ℕ, suc, ◌+◌, ◌-◌, ◌*◌, ◌&&◌, [], ◌∷◌, Option, none, some, ltb, leb, ◌==◌, if◌then◌else◌, length,
  take, drop,
}
use keelix.Text.{Text, codes, equal_fold, trim_space}

-- strings.IndexByte: none for -1
unfoldable pub index_byte : Text → ℕ → Option ℕ
index_byte [] d = none
index_byte (c ∷ s) d = elim (index_byte s d) [
  | none ↦ if c == d then some 0 else none
  | some i ↦ if c == d then some 0 else some (suc i)
]

uint_from : ℕ → ℕ → Text → Option ℕ
uint_from limit acc [] = if leb acc limit then some acc else none
uint_from limit acc (c ∷ s) =
    let rest = uint_from limit (acc * 10 + (c - 48)) s in
    if leb 48 c && leb c 57 then rest else none

-- strconv.ParseUint in base 10: none for an error
unfoldable pub parse_uint : ℕ → Text → Option ℕ
unfolding uint_from
parse_uint limit [] = none
parse_uint limit (c ∷ s) = uint_from limit 0 (c ∷ s)

unfoldable pub both : Option ℕ → Option ℕ → Option (ℕ × ℕ)
both (some y) (some s) = some (y, s)
both _ _ = none

-- What follows "CVE-", cut at its first dash.
unfoldable pub year_and_seq : Text → Option ℕ → Option (ℕ × ℕ)
unfolding parse_uint
year_and_seq rest none = none
year_and_seq rest (some dash) =
    if dash == 4
    then both (parse_uint 65535 (take 4 rest)) (parse_uint 4294967295 (drop 5 rest))
    else none

-- parseCVE: none for a malformed identifier
unfoldable pub parse_cve : Text → Option (ℕ × ℕ)
unfolding trim_space equal_fold year_and_seq both index_byte
parse_cve cve =
    let s = trim_space cve in
    if ltb (length s) 10
    then none
    else if equal_fold (take 4 s) (codes "CVE-")
    then year_and_seq (drop 4 s) (index_byte (drop 4 s) b'-')
    else none
