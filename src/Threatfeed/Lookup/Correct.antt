-- ===== src/Threatfeed/Lookup/Correct.antt =====
-- The binary search of lookup in feed.go.
use keelix.Prelude.{
  ℕ, zero, suc, ◌+◌, ◌-◌, ◌/◌, ◌≤◌, ◌<◌, ◌≡◌, refl, ap, sym, ◌∙◌, ◌⊎◌, inl, inr, ◌↔◌, Bool, true,
  false, List, [], ◌∷◌, Option, none, some, arith, All, Mem, here, there, length, get_elem?,
  Bool-cases, Option-cases, ltb, subst, ltb→lt, ltb-false→le,
}
use mathlib.Core.Option.{some-injective, none-ne-some}
use mathlib.Core.Bool.{true≢false}
use native.Mathlib.Decide.{dec_lt}
use keelix.Text.{Text}
use keelix.Threatfeed.Record.{Record}
use keelix.Threatfeed.Cve.{parse_cve}
use keelix.Threatfeed.Lookup.{key_ge, reached, search_loop, at_key, lookup_key, lookup}

-- The order of the keys, by year and then by sequence number.
abbrev pub KeyLt : Record → Record → Type 0
KeyLt r q = (r.year < q.year) ⊎ ((r.year ≡ q.year) × (r.seq < q.seq))

-- The generator writes the table in strictly increasing order of the keys.
abbrev pub IsSorted : List Record → Type 0
IsSorted [] = Unit
IsSorted (r ∷ rs) = All (KeyLt r) rs × IsSorted rs

abbrev pub HasKey : ℕ → ℕ → Record → Type 0
HasKey y s r = (r.year ≡ y) × (r.seq ≡ s)

All-get_elem? :
    (P : Record → Type 0) (rs : List Record) (k : ℕ) (q : Record)
    → All P rs
    → get_elem? rs k ≡ some q
    → P q
All-get_elem? P [] k q h e = absurd (none-ne-some _ e)
All-get_elem? P (r ∷ rs) zero q h e = subst P (some-injective _ _ e) h.0
All-get_elem? P (r ∷ rs) (suc k) q h e = All-get_elem? P rs k q h.1 e

IsSorted-get_elem? :
    (rs : List Record) (i k : ℕ) (r q : Record)
    → IsSorted rs
    → i < k
    → get_elem? rs i ≡ some r
    → get_elem? rs k ≡ some q
    → KeyLt r q
IsSorted-get_elem? [] i k r q h lt er eq = absurd (none-ne-some _ er)
IsSorted-get_elem? (x ∷ rs) i zero r q h lt er eq = absurd (omega arith)
IsSorted-get_elem? (x ∷ rs) zero (suc k) r q h lt er eq =
    subst (λ z. KeyLt z q) (some-injective _ _ er) (All-get_elem? (KeyLt x) rs k q h.0 eq)
IsSorted-get_elem? (x ∷ rs) (suc i) (suc k) r q h lt er eq =
    IsSorted-get_elem? rs i k r q h.1 (omega arith) er eq

get_elem?-Mem : (rs : List Record) (k : ℕ) (r : Record) → get_elem? rs k ≡ some r → Mem r rs
get_elem?-Mem [] k r e = absurd (none-ne-some _ e)
get_elem?-Mem (x ∷ rs) zero r e = subst (λ z. Mem z (x ∷ rs)) (some-injective _ _ e) here
get_elem?-Mem (x ∷ rs) (suc k) r e = there (get_elem?-Mem rs k r e)

Mem-get_elem? :
    {r : Record} {rs : List Record}
    → Mem r rs
    → (k : ℕ) × (k < length rs) × (get_elem? rs k ≡ some r)
Mem-get_elem? here = (0, omega arith, refl)
Mem-get_elem? (there m) = let (k, lt, e) = Mem-get_elem? m in (suc k, omega arith, e)

-- What the loop of sort.Search returns: everything below it fails, and it passes itself.
abbrev Splits : (ℕ → Bool) → ℕ → ℕ → ℕ → Type 0
Splits p i j m = (i ≤ m) × (m ≤ j) × ((k : ℕ) → i ≤ k → k < m → p k ≡ false) × (m < j → p m ≡ true)

module _ (p : ℕ → Bool) (mono : (i k : ℕ) → i ≤ k → p i ≡ true → p k ≡ true) where
  fails_below : (h k : ℕ) → p h ≡ false → k ≤ h → p k ≡ false
  fails_below h k off le = elim (Bool-cases (p k)) [
    | inl on ↦ absurd (true≢false (sym (mono k h le on) ∙ off))
    | inr e ↦ e
  ]

  Splits-left : (i h j m : ℕ) → h < j → p h ≡ true → Splits p i h m → Splits p i j m
  Splits-left i h j m lt on (a, b, c, d) = (
    a,
    omega arith,
    c,
    λ _. elim (dec_lt m h) [
      | yes below ↦ d below
      | no not_below ↦ let e : h ≡ m = omega arith in subst (λ z. p z ≡ true) e on
    ],
  )

  Splits-right : (i h j m : ℕ) → i ≤ h → p h ≡ false → Splits p (h + 1) j m → Splits p i j m
  Splits-right i h j m le off (a, b, c, d) = (
    omega arith,
    b,
    λ k x y. elim (dec_lt h k) [
      | yes above ↦ c k (omega arith) y
      | no not_above ↦ fails_below h k off (omega arith)
    ],
    d,
  )

  search_loop-Splits : (f i j : ℕ) → i ≤ j → j - i ≤ f → Splits p i j (search_loop f p i j)
  unfolding search_loop
  search_loop-Splits zero i j le enough =
      (omega arith, omega arith, λ k a b. absurd (omega arith), λ lt. absurd (omega arith))
  search_loop-Splits (suc f) i j le enough = elim (Bool-cases (ltb i j)) [
    | inr out ↦
        let top : j ≤ i = ltb-false→le i j out in
        rw out (omega arith, omega arith, λ k a b. absurd (omega arith), λ lt. absurd (omega arith))
    | inl more ↦
        let lt : i < j = ltb→lt i j more in
        elim (Bool-cases (p ((i + j) / 2))) [
          | inl on ↦
              rw (more, on)
                (Splits-left i _ j _ (omega arith) on
                  (search_loop-Splits f i ((i + j) / 2) (omega arith) (omega arith)))
          | inr off ↦
              rw (more, off)
                (Splits-right i _ j _ (omega arith) off
                  (search_loop-Splits f ((i + j) / 2 + 1) j (omega arith) (omega arith)))
        ]
  ]

get_elem?-none_above :
    (rs : List Record) (i k : ℕ) → i ≤ k → get_elem? rs i ≡ none → get_elem? rs k ≡ none
get_elem?-none_above [] i k le e = refl
get_elem?-none_above (x ∷ rs) zero k le e = absurd (none-ne-some x (sym e))
get_elem?-none_above (x ∷ rs) (suc i) zero le e = absurd (omega arith)
get_elem?-none_above (x ∷ rs) (suc i) (suc k) le e = get_elem?-none_above rs i k (omega arith) e

key_ge_later :
    (y s : ℕ) (r q : Record)
    → KeyLt r q
    → key_ge r.year r.seq y s ≡ true
    → key_ge q.year q.seq y s ≡ true
unfolding key_ge
key_ge_later y s r q lt h = ground arith

module _ (recs : List Record) (sorted : IsSorted recs) (y s : ℕ) where
  reached_some :
      (i : ℕ) (r : Record)
      → get_elem? recs i ≡ some r
      → reached recs y s i ≡ key_ge r.year r.seq y s
  unfolding reached
  reached_some i r e = rw (e, reached)

  reached_none : (i : ℕ) → get_elem? recs i ≡ none → reached recs y s i ≡ true
  unfolding reached
  reached_none i e = rw (e, reached)

  reached_mono : (i k : ℕ) → i ≤ k → reached recs y s i ≡ true → reached recs y s k ≡ true
  reached_mono i k le h = elim (Option-cases (get_elem? recs k)) [
    | inl gone ↦ reached_none k gone
    | inr (q, eq) ↦ elim (Option-cases (get_elem? recs i)) [
      | inl gone ↦ absurd (none-ne-some q (sym (get_elem?-none_above recs i k le gone) ∙ eq))
      | inr (r, er) ↦ elim (dec_lt i k) [
        | yes lt ↦
            reached_some k q eq
            ∙ key_ge_later y s r q (IsSorted-get_elem? recs i k r q sorted lt er eq)
                (sym (reached_some i r er) ∙ h)
        | no not_lt ↦
            let same : i ≡ k = omega arith in subst (λ z. reached recs y s z ≡ true) same h
      ]
    ]
  ]

  key_ge_own : (r : Record) → HasKey y s r → key_ge r.year r.seq y s ≡ true
  unfolding key_ge
  key_ge_own r key = ground arith

  not_key_ge : (r q : Record) → KeyLt r q → HasKey y s q → key_ge r.year r.seq y s ≡ true → ⊥
  unfolding key_ge
  not_key_ge r q lt key h = ground arith

  -- The search stops at the only index whose record has the key.
  stops_at :
      (r : Record) (k n : ℕ)
      → get_elem? recs k ≡ some r
      → k < length recs
      → HasKey y s r
      → Splits (reached recs y s) 0 (length recs) n
      → n ≡ k
  stops_at r k n e lt key (_, _, below, on) = elim (dec_lt k n) [
    | yes past ↦
        absurd
          (true≢false (sym (reached_some k r e ∙ key_ge_own r key) ∙ below k (omega arith) past))
    | no not_past ↦ elim (dec_lt n k) [
      | no not_before ↦ omega arith
      | yes before ↦ elim (Option-cases (get_elem? recs n)) [
        | inl gone ↦
            absurd (none-ne-some r (sym (get_elem?-none_above recs n k (omega arith) gone) ∙ e))
        | inr (q, eq) ↦ absurd (
            not_key_ge q r (IsSorted-get_elem? recs n k q r sorted before eq e) key
              (sym (reached_some n q eq) ∙ on (omega arith)))
      ]
    ]
  ]

  at_key_own : (r : Record) → HasKey y s r → at_key y s (some r) ≡ some r
  unfolding at_key
  at_key_own r key = ground arith

  lookup_key_complete : (r : Record) → Mem r recs → HasKey y s r → lookup_key recs y s ≡ some r
  unfolding lookup_key
  lookup_key_complete r m key =
      let (k, lt, e) = Mem-get_elem? m in
      let n = search_loop (length recs) (reached recs y s) 0 (length recs) in
      let split =
        search_loop-Splits (reached recs y s) reached_mono (length recs) 0 (length recs)
          (omega arith) (omega arith) in
      let same : n ≡ k = stops_at r k n e lt key split in
      ap (λ i. at_key y s (get_elem? recs i)) same ∙ ap (at_key y s) e ∙ at_key_own r key

at_key_sound :
    (y s : ℕ) (o : Option Record) (r : Record) → at_key y s o ≡ some r → (o ≡ some r) × HasKey y s r
unfolding at_key
at_key_sound y s o r h = ground arith

lookup_key_sound :
    (recs : List Record) (y s : ℕ) (r : Record)
    → lookup_key recs y s ≡ some r
    → Mem r recs × HasKey y s r
unfolding lookup_key
lookup_key_sound recs y s r h =
    let (e, key) = at_key_sound y s _ r h in (get_elem?-Mem recs _ r e, key)

-- In a table with strictly increasing keys, a CVE identifier finds a record exactly when that
-- record is in the table and its year and number are those parsed from the identifier.
pub lookup_iff :
    (recs : List Record) (cve : Text) (r : Record)
    → IsSorted recs
    → (lookup (some recs) cve ≡ some r) ↔ (Mem r recs × (parse_cve cve ≡ some (r.year, r.seq)))
unfolding lookup
lookup_iff recs cve r sorted = elim (Option-cases (parse_cve cve)) [
  | inl bad ↦
      rw (bad, lookup)
        (λ h. absurd (none-ne-some r h), λ (_, e). absurd (none-ne-some (r.year, r.seq) e))
  | inr ((y, s), e) ↦
      rw (e, lookup)
        (
          λ h. let (m, (year, seq)) = lookup_key_sound recs y s r h in (m, cc),
          λ (m, k). lookup_key_complete recs sorted y s r m ((cc), (cc)),
        )
]
