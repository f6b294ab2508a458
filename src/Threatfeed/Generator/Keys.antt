-- ===== src/Threatfeed/Generator/Keys.antt =====
-- parseCVEKey of the generator beside parseCVE of the lookup.
use keelix.Prelude.{
  ℕ, ltb, length, ◌≡◌, refl, sym, ap, [], ◌∷◌, Option, none, some, drop, take, ◌==◌, if◌then◌else◌,
}
use keelix.Text.{Text, codes, trim_space, equal_fold}
use keelix.Threatfeed.Cve.{index_byte, parse_uint, both, year_and_seq, parse_cve}
use keelix.Threatfeed.Generator.{number_key, year_key, dash_key, parse_cve_key}

number_key-both : (year : ℕ) (o : Option ℕ) → number_key year o ≡ both (some year) o
unfolding number_key both
number_key-both year none = refl
number_key-both year (some seq) = refl

both-none : (o : Option ℕ) → both none o ≡ none
unfolding both
both-none none = refl
both-none (some seq) = refl

year_key-both :
    (number : Text) (o : Option ℕ) → year_key number o ≡ both o (parse_uint 4294967295 number)
unfolding year_key parse_uint
year_key-both number none = sym (both-none _)
year_key-both [] (some year) = number_key-both year none
year_key-both (c ∷ number) (some year) = number_key-both year _

dash_key-year_and_seq : (rest : Text) (o : Option ℕ) → dash_key rest o ≡ year_and_seq rest o
unfolding dash_key year_and_seq
dash_key-year_and_seq rest none = refl
dash_key-year_and_seq rest (some dash) =
    ap (λ k. if dash == 4 then k else none)
      (year_key-both (drop 5 rest) (parse_uint 65535 (take 4 rest)))

-- parseCVEKey of the generator and parseCVE of the lookup give every identifier the same key, though
-- they make their tests in another order.
pub parse_cve_key_lem : (cve : Text) → parse_cve_key cve ≡ parse_cve cve
unfolding parse_cve_key parse_cve
parse_cve_key_lem cve =
    let s = trim_space cve in
    ap
      (λ k.
        if ltb (length s) 10
        then none
        else if equal_fold (take 4 s) (codes "CVE-")
        then k
        else none)
      (dash_key-year_and_seq (drop 4 s) (index_byte (drop 4 s) b'-'))
