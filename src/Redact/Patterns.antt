-- ===== src/Redact/Patterns.antt =====
-- The regular expressions of redact.go and the entropy of a token.
pub mod Splits
use keelix.Prelude.{
  ℕ, zero, suc, ◌+◌, ◌*◌, ◌^◌, Bool, true, false, not, ◌&&◌, ◌||◌, List, [], ◌∷◌, ◌++◌, Option,
  none, some, take, drop, length, leb, ◌==◌, if◌then◌else◌,
}
use keelix.Text.{Text, codes, has_prefix, text_eq, to_lower}
use keelix.Redact.{Matcher, Hit, hide, keep, marker}

between : ℕ → ℕ → ℕ → Bool
between lo hi c = leb lo c && leb c hi

-- [a-zA-Z]
is_letter : ℕ → Bool
unfolding between
is_letter c = between b'a' b'z' c || between b'A' b'Z' c

-- [A-Za-z0-9_\-]
is_base64url : ℕ → Bool
unfolding is_letter between
is_base64url c = is_letter c || between b'0' b'9' c || c == b'_' || c == b'-'

-- [A-Za-z0-9_\-+/=]
is_token : ℕ → Bool
unfolding is_base64url
is_token c = is_base64url c || c == b'+' || c == b'/' || c == b'='

-- [A-Za-z0-9._\-+/=]
is_bearer : ℕ → Bool
unfolding is_token
is_bearer c = is_token c || c == b'.'

-- [a-zA-Z0-9+.\-]
is_scheme : ℕ → Bool
unfolding is_letter between
is_scheme c = is_letter c || between b'0' b'9' c || c == b'+' || c == b'.' || c == b'-'

-- \s
is_blank : ℕ → Bool
is_blank c = c == 9 || c == 10 || c == 12 || c == 13 || c == 32

-- [^\s:/@]
is_user : ℕ → Bool
unfolding is_blank
is_user c = not (is_blank c || c == b':' || c == b'/' || c == b'@')

-- [^\s@/]
is_password : ℕ → Bool
unfolding is_blank
is_password c = not (is_blank c || c == b'@' || c == b'/')

-- What the expressions are made of: a literal, one that ignores case (in lower case), a byte of a
-- class, and the longest run of a class.
pub data Piece : Type 0 where
  literal : Text → Piece
  folded : Text → Piece
  one : (ℕ → Bool) → Piece
  run : (ℕ → Bool) → Piece

-- The length of the longest run of a class.
unfoldable pub run_length : (ℕ → Bool) → Text → ℕ
run_length p [] = 0
run_length p (c ∷ s) = let rest = run_length p s in if p c then suc rest else 0

-- The length of the match of a piece.
unfoldable pub match_piece : Piece → Text → Option ℕ
match_piece (literal l) s = if has_prefix s l then some (length l) else none
match_piece (folded l) s = if has_prefix (to_lower s) l then some (length l) else none
match_piece (one p) [] = none
match_piece (one p) (c ∷ s) = if p c then some 1 else none
match_piece (run p) s = some (run_length p s)

unfoldable pub match_pieces : List Piece → Text → Option ℕ
match_pieces [] s = some 0
match_pieces (p ∷ ps) s = elim (match_piece p s) [
  | none ↦ none
  | some n ↦ elim (match_pieces ps (drop n s)) [ none ↦ none | some m ↦ some (n + m) ]
]

-- An expression: what stays before the marker, what the marker replaces, and what stays after it.
pub record Pattern : Type 0 where
  pub shown : List Piece
  pub hidden : List Piece
  pub after : List Piece

-- The match of an expression. What stays after the marker is left to the rest; nothing that starts
-- in it matches, so that matching may go on there.
unfoldable pub match_pattern : Pattern → Matcher
match_pattern p s = elim (match_pieces p.shown s) [
  | none ↦ none
  | some n ↦ elim (match_pieces p.hidden (drop n s)) [
    | none ↦ none
    | some m ↦ elim (match_pieces p.after (drop m (drop n s))) [
      | none ↦ none
      | some l ↦ some (hide (take n s) (drop m (drop n s)))
    ]
  ]
]

-- reConnString
unfoldable pub conn_string : Pattern
unfolding is_letter is_scheme is_user is_password
conn_string = record {
  shown =
      one is_letter
      ∷ run is_scheme
      ∷ literal (codes "://")
      ∷ one is_user
      ∷ run is_user
      ∷ literal (codes ":")
      ∷ [];
  hidden = one is_password ∷ run is_password ∷ [];
  after = literal (codes "@") ∷ [];
}

-- reBearer
unfoldable pub bearer : Pattern
unfolding is_blank is_bearer
bearer = record {
  shown = folded (codes "bearer") ∷ one is_blank ∷ run is_blank ∷ [];
  hidden = one is_bearer ∷ run is_bearer ∷ [];
  after = [];
}

-- reJWT
unfoldable pub jwt : Pattern
unfolding is_base64url
jwt = record {
  shown = [];
  hidden =
      literal (codes "eyJ")
      ∷ one is_base64url
      ∷ run is_base64url
      ∷ literal (codes ".")
      ∷ one is_base64url
      ∷ run is_base64url
      ∷ literal (codes ".")
      ∷ one is_base64url
      ∷ run is_base64url
      ∷ [];
  after = [];
}

count : ℕ → Text → ℕ
count b [] = 0
count b (c ∷ s) = let rest = count b s in if c == b then suc rest else rest

-- The product of n ^ (2 n) over the counts n of the bytes below a bound.
weights : ℕ → Text → ℕ
unfolding count
weights zero s = 1
weights (suc b) s = let n = count b s in n ^ (2 * n) * weights b s

-- shannonEntropy(s) >= 3.5 in exact numbers: both sides are 2 to the power of 2 n times the bits,
-- for the length n.
unfoldable pub is_high_entropy : Text → Bool
unfolding weights
is_high_entropy s = let n = length s in leb (2 ^ (7 * n) * weights 256 s) (n ^ (2 * n))

abbrev min_token_len : ℕ
min_token_len = 24

-- reToken with the function of rule 5.
unfoldable pub match_token : Matcher
unfolding is_token
match_token s =
    let n = run_length is_token s in
    let tok = take n s in
    if not (leb min_token_len n)
    then none
    else if text_eq tok marker
    then some (keep tok (drop n s))
    else if is_high_entropy tok
    then some (hide [] (drop n s))
    else some (keep tok (drop n s))
