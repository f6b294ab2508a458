-- ===== src/Net.antt =====
-- What the program uses of Go's package net: net.ParseIP, and the classes of an address.
use keelix.Prelude.{
  ℕ, zero, suc, ◌+◌, ◌-◌, ◌*◌, ◌/◌, ◌%◌, Bool, true, false, ◌&&◌, ◌||◌, List, [], ◌∷◌, ◌++◌, Option,
  none, some, ltb, leb, ◌==◌, if◌then◌else◌, length, take, drop, replicate, is_some,
}
use keelix.Text.{Text}

-- An address in the two forms that Go's methods tell apart by To4: four bytes, or eight groups of
-- sixteen bits of which the first five are not 0 followed by 0xffff.
pub data Ip : Type 0 where
  v4 : ℕ → ℕ → ℕ → ℕ → Ip
  v6 : List ℕ → Ip

-- The loop of parseIPv4Fields: the fields so far, the value and the digits of the current one.
fields4 : Text → List ℕ → ℕ → ℕ → Option (List ℕ)
fields4 [] fields val len =
    if len == 0 || ltb (length fields) 3 then none else some (fields ++ val ∷ [])
fields4 (c ∷ s) fields val len =
    let val' = val * 10 + (c - 48) in
    let digit = fields4 s fields val' (len + 1) in
    let dot = fields4 s (fields ++ val ∷ []) 0 0 in
    if leb 48 c && leb c 57
    then if (len == 1 && val == 0) || ltb 255 val' then none else digit
    else if c == b'.'
    then if len == 0 || length fields == 3 then none else dot
    else none

hex_digit : ℕ → Option ℕ
hex_digit c =
    if leb 48 c && leb c 57
    then some (c - 48)
    else if leb 97 c && leb c 102
    then some (c - 87)
    else if leb 65 c && leb c 70
    then some (c - 55)
    else none

-- One group: its value, the count of its digits and the text that is left; none past four digits.
hex_group : Text → ℕ → ℕ → Option (ℕ × ℕ × Text)
hex_group [] acc n = some (acc, n, [])
hex_group (c ∷ s) acc n = elim (hex_digit c) [
  | none ↦ some (acc, n, c ∷ s)
  | some d ↦ if ltb 3 n then none else hex_group s (acc * 16 + d) (n + 1)
]

-- The four bytes at the end of an IPv6 literal, as two groups.
tail4 : Text → List ℕ → Option ℕ → Option (List ℕ × Option ℕ)
tail4 s groups gap =
    if (is_some gap || length groups == 6) && leb (length groups) 6
    then elim (fields4 s [] 0 0) [
      | some (a ∷ b ∷ c ∷ d ∷ []) ↦ some (groups ++ (a * 256 + b) ∷ (c * 256 + d) ∷ [], gap)
      | _ ↦ none
    ]
    else none

-- The loop of parseIPv6, with the groups so far and the place of the ellipsis. At most eight
-- groups are read.
groups6 : ℕ → Text → List ℕ → Option ℕ → Option (List ℕ × Option ℕ)
groups6 zero [] groups gap = some (groups, gap)
groups6 zero (c ∷ s) groups gap = none
groups6 (suc f) s groups gap = elim (hex_group s 0 0) [
  | none ↦ none
  | some (acc, zero, rest) ↦ none
  | some (acc, suc n, []) ↦ some (groups ++ acc ∷ [], gap)
  | some (acc, suc n, c ∷ []) ↦ if c == b'.' then tail4 s groups gap else none
  | some (acc, suc n, c ∷ d ∷ rest) ↦
      let more = groups ++ acc ∷ [] in
      let plain = groups6 f (d ∷ rest) more gap in
      let last : Option (List ℕ × Option ℕ) = some (more, some (length more)) in
      let gapped : Option (List ℕ × Option ℕ) = elim rest [
        | [] ↦ last
        | e ∷ r ↦ groups6 f (e ∷ r) more (some (length more))
      ] in
      if c == b'.'
      then tail4 s groups gap
      else if c == b':'
      then if d == b':' then if is_some gap then none else gapped else plain
      else none
]

-- The groups that the ellipsis stands for: at least one.
expand : ℕ → List ℕ → Option ℕ → Option (List ℕ)
expand missing groups none = if missing == 0 then some groups else none
expand missing groups (some at) =
    if missing == 0 then none else some (take at groups ++ (replicate missing 0 ++ drop at groups))

start6 : Text → Option (List ℕ × Option ℕ)
start6 (c ∷ d ∷ []) =
    if c == b':' && d == b':' then some ([], some 0) else groups6 8 (c ∷ d ∷ []) [] none
start6 (c ∷ d ∷ e ∷ rest) =
    if c == b':' && d == b':'
    then groups6 8 (e ∷ rest) [] (some 0)
    else groups6 8 (c ∷ d ∷ e ∷ rest) [] none
start6 _ = none

parse6 : Text → Option (List ℕ)
parse6 s = elim (start6 s) [
  | none ↦ none
  | some (groups, gap) ↦ expand (8 - length groups) groups gap
]

of_fields : Option (List ℕ) → Option Ip
of_fields (some (a ∷ b ∷ c ∷ d ∷ [])) = some (v4 a b c d)
of_fields _ = none

is_mapped : List ℕ → Bool
is_mapped (a ∷ b ∷ c ∷ d ∷ e ∷ f ∷ _) =
    a == 0 && b == 0 && c == 0 && d == 0 && e == 0 && f == 0xffff
is_mapped _ = false

mapped4 : List ℕ → Option Ip
mapped4 (h ∷ l ∷ []) = some (v4 (h / 256) (h % 256) (l / 256) (l % 256))
mapped4 _ = none

of_groups : Option (List ℕ) → Option Ip
of_groups none = none
of_groups (some groups) = if is_mapped groups then mapped4 (drop 6 groups) else some (v6 groups)

-- The first separator tells the kind of literal.
parse_after : Text → Text → Option Ip
parse_after s [] = none
parse_after s (c ∷ rest) =
    if c == b'.'
    then of_fields (fields4 s [] 0 0)
    else if c == b':'
    then of_groups (parse6 s)
    else parse_after s rest

-- net.ParseIP; none for nil
unfoldable pub parse_ip : Text → Option Ip
unfolding fields4 hex_digit hex_group tail4 groups6 expand parse6 of_fields is_mapped mapped4
    of_groups parse_after start6
parse_ip s = parse_after s s

same_groups : List ℕ → List ℕ → Bool
same_groups [] [] = true
same_groups (g ∷ gs) (h ∷ hs) = g == h && same_groups gs hs
same_groups _ _ = false

first_group : List ℕ → ℕ
first_group [] = 0
first_group (g ∷ gs) = g

-- IP.IsLoopback
unfoldable pub is_loopback_ip : Ip → Bool
unfolding same_groups
is_loopback_ip (v4 a b c d) = a == 127
is_loopback_ip (v6 gs) = same_groups gs (0 ∷ 0 ∷ 0 ∷ 0 ∷ 0 ∷ 0 ∷ 0 ∷ 1 ∷ [])

-- IP.IsLinkLocalUnicast
unfoldable pub is_link_local_unicast : Ip → Bool
unfolding first_group
is_link_local_unicast (v4 a b c d) = a == 169 && b == 254
is_link_local_unicast (v6 gs) = leb 0xfe80 (first_group gs) && leb (first_group gs) 0xfebf

-- IP.IsPrivate
unfoldable pub is_private : Ip → Bool
unfolding first_group
is_private (v4 a b c d) = a == 10 || (a == 172 && leb 16 b && leb b 31) || (a == 192 && b == 168)
is_private (v6 gs) = leb 0xfc00 (first_group gs) && leb (first_group gs) 0xfdff

-- IPNet.Contains for 100.64.0.0/10
unfoldable pub in_cgnat : Ip → Bool
in_cgnat (v4 a b c d) = a == 100 && leb 64 b && leb b 127
in_cgnat (v6 gs) = false
