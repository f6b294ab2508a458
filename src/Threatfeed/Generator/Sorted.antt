-- ===== src/Threatfeed/Generator/Sorted.antt =====
-- The order of the table that buildTable gives.
use mathlib.Core.List.{Permᴰ}
use keelix.Prelude.{
  ℕ, ◌≡◌, refl, true, false, List, [], ◌∷◌, Option, none, some, All, arith, subst, Bool-cases, inl,
  inr, ◌⊎◌,
}
use keelix.Prelude.Sort.{insert, sort, insert-All, sort-All}
use keelix.Text.{Text}
use keelix.Threatfeed.Record.{Record}
use keelix.Threatfeed.Lookup.Correct.{KeyLt, IsSorted}
use keelix.Threatfeed.Generator.{
  Key, Union, same_key, entry_at, store, set_key, parse_cve_key, update, set_epss, set_kev,
  update_at, add_epss, add_kev, key_before, records_of, build_table,
}

KeyLt-trans : (q r p : Record) → KeyLt q r → KeyLt r p → KeyLt q p
KeyLt-trans q r p h k = ground arith

All-KeyLt : (q r : Record) (rs : List Record) → KeyLt q r → All (KeyLt r) rs → All (KeyLt q) rs
All-KeyLt q r [] h k = tt
All-KeyLt q r (p ∷ rs) h (k, ks) = (KeyLt-trans q r p h k, All-KeyLt q r rs h ks)

-- Two records of different keys.
abbrev IsApart : Record → Record → Type 0
IsApart r q = KeyLt r q ⊎ KeyLt q r

key_before-KeyLt : (r q : Record) → key_before r q ≡ true → KeyLt r q
unfolding key_before
key_before-KeyLt r q h = ground arith

not_before-KeyLt : (r q : Record) → key_before r q ≡ false → IsApart q r → KeyLt q r
unfolding key_before
not_before-KeyLt r q h apart = ground arith

insert-IsSorted :
    (r : Record) (rs : List Record)
    → All (IsApart r) rs
    → IsSorted rs
    → IsSorted (insert key_before r rs)
unfolding insert
insert-IsSorted r [] apart h = (tt, tt)
insert-IsSorted r (q ∷ rs) (apart, aparts) (h, hs) = elim (Bool-cases (key_before q r)) [
  | inl late ↦
      rw (insert, late)
        (
          insert-All key_before (KeyLt q) r rs (key_before-KeyLt q r late) h,
          insert-IsSorted r rs aparts hs,
        )
  | inr early ↦
      let lt = not_before-KeyLt q r early apart in
      rw (insert, early) ((lt, All-KeyLt r q rs lt h), (h, hs))
]

-- No two records of a list have the same key.
abbrev AreApart : List Record → Type 0
AreApart [] = Unit
AreApart (r ∷ rs) = All (IsApart r) rs × AreApart rs

-- Sorting by the test puts records of different keys in strictly increasing order.
sort-IsSorted : (rs : List Record) → AreApart rs → IsSorted (sort key_before rs)
unfolding sort
sort-IsSorted [] h = tt
sort-IsSorted (r ∷ rs) (apart, h) =
    insert-IsSorted r (sort key_before rs) (sort-All key_before (IsApart r) rs apart)
      (sort-IsSorted rs h)

All-Permᴰ : (P : Record → Type 0) {rs qs : List Record} → Permᴰ rs qs → All P rs → All P qs
All-Permᴰ P Permᴰ.nil h = h
All-Permᴰ P (Permᴰ.cons e p) (h, hs) = (subst P e h, All-Permᴰ P p hs)
All-Permᴰ P (Permᴰ.swap e e') (h, (k, hs)) = (subst P e' k, (subst P e h, hs))
All-Permᴰ P (Permᴰ.trans p q) h = All-Permᴰ P q (All-Permᴰ P p h)

IsApart-swap : (r q : Record) → IsApart r q → IsApart q r
IsApart-swap r q (inl lt) = inr lt
IsApart-swap r q (inr lt) = inl lt

-- This does not depend on the order of the list.
AreApart-Permᴰ : {rs qs : List Record} → Permᴰ rs qs → AreApart rs → AreApart qs
AreApart-Permᴰ Permᴰ.nil h = h
AreApart-Permᴰ (Permᴰ.cons {l₂ = l} e p) (h, hs) =
    (subst (λ r. All (IsApart r) l) e (All-Permᴰ _ p h), AreApart-Permᴰ p hs)
AreApart-Permᴰ (Permᴰ.swap {a} {b} {b' = b'} {l = l} e e') ((h, hs), (ks, rest)) = (
  (
    subst (λ r. IsApart r b') e' (subst (IsApart b) e (IsApart-swap a b h)),
    subst (λ r. All (IsApart r) l) e' ks,
  ),
  (subst (λ r. All (IsApart r) l) e hs, rest),
)
AreApart-Permᴰ (Permᴰ.trans p q) h = AreApart-Permᴰ q (AreApart-Permᴰ p h)

-- An entry's record has the entry's key, and no key stands in the map twice.
abbrev IsKeyed : Key → Record → Type 0
IsKeyed (y, s) r = (r.year ≡ y) × (r.seq ≡ s)

abbrev IsFresh : Key → Union → Type 0
IsFresh k table = All (λ e. same_key k e.0 ≡ false) table

abbrev IsMap : Union → Type 0
IsMap [] = Unit
IsMap ((k, r) ∷ table) = IsKeyed k r × IsFresh k table × IsMap table

IsKeyed-same : (j k : Key) (r : Record) → same_key j k ≡ true → IsKeyed k r → IsKeyed j r
unfolding same_key
IsKeyed-same (y, s) (year, seq) r h keyed = ground arith

store-IsFresh :
    (j k : Key) (r : Record) (table : Union)
    → same_key j k ≡ false
    → IsFresh j table
    → IsFresh j (store k r table)
unfolding store
store-IsFresh j k r [] other h = (other, tt)
store-IsFresh j k r ((i, q) ∷ table) other (h, hs) = elim (Bool-cases (same_key i k)) [
  | inl same ↦ rw same (h, hs)
  | inr next ↦ rw next (h, store-IsFresh j k r table other hs)
]

store-IsMap :
    (k : Key) (r : Record) (table : Union) → IsKeyed k r → IsMap table → IsMap (store k r table)
unfolding store
store-IsMap k r [] keyed h = (keyed, tt, tt)
store-IsMap k r ((j, q) ∷ table) keyed (own, fresh, h) = elim (Bool-cases (same_key j k)) [
  | inl same ↦ rw same (IsKeyed-same j k r same keyed, fresh, h)
  | inr other ↦ rw other (own, store-IsFresh j k r table other fresh, store-IsMap k r table keyed h)
]

-- The change keeps the key of a record.
abbrev KeepsKey : (Record → Record) → Type 0
KeepsKey change = (k : Key) (r : Record) → IsKeyed k (change (set_key k r))

set_epss-KeepsKey : (bucket : ℕ) → KeepsKey (set_epss bucket)
unfolding set_epss set_key
set_epss-KeepsKey bucket (y, s) r = (refl, refl)

set_kev-KeepsKey : KeepsKey set_kev
unfolding set_kev set_key
set_kev-KeepsKey (y, s) r = (refl, refl)

update_at-IsMap :
    (k : Option Key) (change : Record → Record) (table : Union)
    → KeepsKey change
    → IsMap table
    → IsMap (update_at k change table)
unfolding update_at update
update_at-IsMap none change table keeps h = h
update_at-IsMap (some k) change table keeps h =
    store-IsMap k (change (set_key k (entry_at k table))) table (keeps k (entry_at k table)) h

add_epss-IsMap :
    (rows : List (Text × ℕ)) (table : Union) → IsMap table → IsMap (add_epss table rows)
unfolding add_epss
add_epss-IsMap [] table h = h
add_epss-IsMap ((cve, bucket) ∷ rows) table h =
    add_epss-IsMap rows (update_at (parse_cve_key cve) (set_epss bucket) table)
      (update_at-IsMap (parse_cve_key cve) (set_epss bucket) table (set_epss-KeepsKey bucket) h)

add_kev-IsMap : (ids : List Text) (table : Union) → IsMap table → IsMap (add_kev table ids)
unfolding add_kev
add_kev-IsMap [] table h = h
add_kev-IsMap (cve ∷ ids) table h =
    add_kev-IsMap ids (update_at (parse_cve_key cve) set_kev table)
      (update_at-IsMap (parse_cve_key cve) set_kev table set_kev-KeepsKey h)

IsKeyed-IsApart :
    (j k : Key) (r q : Record) → same_key j k ≡ false → IsKeyed j r → IsKeyed k q → IsApart r q
unfolding same_key
IsKeyed-IsApart (y, s) (year, seq) r q other own next = ground arith

records_of-AreApart : (table : Union) → IsMap table → AreApart (records_of table)
unfolding records_of
records_of-AreApart [] h = tt
records_of-AreApart ((k, r) ∷ table) (own, fresh, h) =
    (above table fresh h, records_of-AreApart table h)
  where
    above : (rest : Union) → IsFresh k rest → IsMap rest → All (IsApart r) (records_of rest)
    above [] fresh h = tt
    above ((j, q) ∷ rest) (other, fresh) (next, _, h) =
        (IsKeyed-IsApart k j r q other own next, above rest fresh h)

-- Whatever the rows and the identifiers are, and in whatever order the loop over the map visits its
-- values, the keys of the table are strictly increasing.
pub build_table-IsSorted :
    (range : List Record → List Record) (rows : List (Text × ℕ)) (ids : List Text)
    → ((rs : List Record) → Permᴰ rs (range rs))
    → IsSorted (build_table range rows ids)
unfolding build_table
build_table-IsSorted range rows ids visits =
    let table = add_kev (add_epss [] rows) ids in
    let apart =
      records_of-AreApart table
        (add_kev-IsMap ids (add_epss [] rows) (add_epss-IsMap rows [] tt)) in
    sort-IsSorted (range (records_of table)) (AreApart-Permᴰ (visits (records_of table)) apart)
