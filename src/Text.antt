-- ===== src/Text.antt =====
-- Go's strings as byte sequences, and what the program uses of Go's packages strings and strconv.
-- Case mapping, folding and trimming are those of ASCII text.
pub mod Laws
pub mod Decimal
use Prim.Native.Char.{code}
use Prim.Native.String.{String}
use keelix.Prelude.{
  ℕ, zero, suc, ◌+◌, ◌-◌, ◌*◌, ◌/◌, ◌%◌, ◌<◌, Bool, true, false, ◌&&◌, ◌||◌, List, [], ◌∷◌, ◌++◌,
  map, Option, none, some, ltb, leb, ◌==◌, if◌then◌else◌, length, drop, is_some, get_or_else,
}

abbrev pub Text : Type 0
Text = List ℕ

-- A literal of the source; the literals are ASCII.
abbrev pub codes : String → Text
codes String.[] = []
codes (String.◌∷◌ c s) = code c ∷ codes s

-- The UTF-8 encoding of a character below 65536.
encode : ℕ → Text → Text
encode c s =
    if ltb c 128
    then c ∷ s
    else if ltb c 2048
    then (192 + c / 64) ∷ (128 + c % 64) ∷ s
    else (224 + c / 4096) ∷ (128 + c / 64 % 64) ∷ (128 + c % 64) ∷ s

-- A literal of the source that is not ASCII.
unfoldable pub utf8 : String → Text
unfolding encode
utf8 String.[] = []
utf8 (String.◌∷◌ c s) = encode (code c) (utf8 s)

-- s == t
unfoldable pub text_eq : Text → Text → Bool
text_eq [] [] = true
text_eq [] (d ∷ t) = false
text_eq (c ∷ s) [] = false
text_eq (c ∷ s) (d ∷ t) = c == d && text_eq s t

-- A read of a Go map with text keys.
unfoldable pub lookup {ℓ} : {V : Type ℓ} → Text → List (Text × V) → Option V
lookup k [] = none
lookup k ((j, v) ∷ m) = if text_eq j k then some v else lookup k m

-- m[k], where a missing key reads as the empty text
unfoldable pub lookup_text : Text → List (Text × Text) → Text
lookup_text k m = get_or_else (lookup k m) []

-- s < t, byte by byte
unfoldable pub text_lt : Text → Text → Bool
text_lt s [] = false
text_lt [] (d ∷ t) = true
text_lt (c ∷ s) (d ∷ t) = ltb c d || (c == d && text_lt s t)

-- strings.HasPrefix
unfoldable pub has_prefix : Text → Text → Bool
has_prefix s [] = true
has_prefix [] (d ∷ p) = false
has_prefix (c ∷ s) (d ∷ p) = c == d && has_prefix s p

-- strings.TrimPrefix
unfoldable pub trim_prefix : Text → Text → Text
unfolding has_prefix
trim_prefix s p = if has_prefix s p then drop (length p) s else s

-- strings.Index: the first position, none for -1
unfoldable pub index : Text → Text → Option ℕ
unfolding has_prefix
index [] p = if has_prefix [] p then some 0 else none
index (c ∷ s) p =
    let rest = index s p in
    if has_prefix (c ∷ s) p then some 0 else elim rest [ none ↦ none | some i ↦ some (suc i) ]

-- strings.Contains
unfoldable pub contains : Text → Text → Bool
unfolding index
contains s p = is_some (index s p)

-- strings.LastIndex of one byte: the last position, none for -1
unfoldable pub last_index_byte : Text → ℕ → Option ℕ
last_index_byte [] d = none
last_index_byte (c ∷ s) d = elim (last_index_byte s d) [
  | some i ↦ some (suc i)
  | none ↦ if c == d then some 0 else none
]

unfoldable pub is_space : ℕ → Bool
is_space c = (leb 9 c && leb c 13) || c == 32

unfoldable pub trim_left : Text → Text
trim_left [] = []
trim_left (c ∷ s) = if is_space c then trim_left s else c ∷ s

unfoldable pub trim_right : Text → Text
trim_right [] = []
trim_right (c ∷ s) = elim (trim_right s) [
  | [] ↦ if is_space c then [] else c ∷ []
  | d ∷ t ↦ c ∷ d ∷ t
]

-- strings.TrimSpace
unfoldable pub trim_space : Text → Text
unfolding trim_left trim_right is_space
trim_space s = trim_right (trim_left s)

upper_byte : ℕ → ℕ
upper_byte c = if leb 97 c && leb c 122 then c - 32 else c

unfoldable pub lower_byte : ℕ → ℕ
lower_byte c = if leb 65 c && leb c 90 then c + 32 else c

-- strings.ToUpper
unfoldable pub to_upper : Text → Text
unfolding upper_byte
to_upper s = map upper_byte s

-- strings.ToLower
unfoldable pub to_lower : Text → Text
unfolding lower_byte
to_lower s = map lower_byte s

-- strings.EqualFold
unfoldable pub equal_fold : Text → Text → Bool
unfolding to_lower text_eq
equal_fold s t = text_eq (to_lower s) (to_lower t)

-- The largest int.
abbrev pub max_int : ℕ
max_int = 9223372036854775807

digits_from : ℕ → Text → Option ℕ
digits_from acc [] = some acc
digits_from acc (c ∷ s) =
    let rest = digits_from (acc * 10 + (c - 48)) s in if leb 48 c && leb c 57 then rest else none

parse_digits : Text → Option ℕ
parse_digits [] = none
parse_digits (c ∷ s) = digits_from 0 (c ∷ s)

in_range : Option ℕ → Option ℕ
in_range none = none
in_range (some n) = if leb n max_int then some n else none

-- strconv.Atoi, where the program goes on with a positive result only: none also stands for a
-- negative number.
unfoldable pub atoi : Text → Option ℕ
unfolding digits_from parse_digits in_range
atoi [] = none
atoi (c ∷ s) = in_range (if c == 43 then parse_digits s else parse_digits (c ∷ s))

-- strconv.Atoi without an error
unfoldable pub is_int : Text → Bool
unfolding parse_digits atoi
is_int [] = false
is_int (c ∷ s) =
    if c == 45
    then elim (parse_digits s) [ none ↦ false | some n ↦ leb n (max_int + 1) ]
    else is_some (atoi (c ∷ s))

-- strings.IndexByte
abbrev pub index_byte : Text → ℕ → Option ℕ
index_byte s c = index s (c ∷ [])

-- strings.Join
unfoldable pub join : Text → List Text → Text
join sep [] = []
join sep (s ∷ []) = s
join sep (s ∷ t ∷ ts) = s ++ sep ++ join sep (t ∷ ts)

digits_of : ℕ → ℕ → Text → Text
digits_of zero n acc = acc
digits_of (suc f) n acc =
    let shown = (48 + n % 10) ∷ acc in
    let rest = digits_of f (n / 10) shown in if ltb n 10 then shown else rest

-- strconv.Itoa of a number that is not negative
unfoldable pub itoa : ℕ → Text
unfolding digits_of
itoa n = digits_of (suc n) n []

split_from : ℕ → Text → Text × List Text
split_from d [] = ([], [])
split_from d (c ∷ s) =
    let (part, parts) = split_from d s in if c == d then ([], part ∷ parts) else (c ∷ part, parts)

-- strings.Split at one byte
unfoldable pub split_byte : ℕ → Text → List Text
unfolding split_from
split_byte d s = let (part, parts) = split_from d s in part ∷ parts

unfoldable pub push_field : Text → List Text → List Text
push_field [] fs = fs
push_field (c ∷ f) fs = (c ∷ f) ∷ fs

unfoldable pub fields_from : Text → Text × List Text
fields_from [] = ([], [])
fields_from (c ∷ s) =
    let (f, fs) = fields_from s in if is_space c then ([], push_field f fs) else (c ∷ f, fs)

-- strings.Fields
unfoldable pub fields : Text → List Text
unfolding push_field fields_from is_space
fields s = let (f, fs) = fields_from s in push_field f fs
