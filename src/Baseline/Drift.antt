-- ===== src/Baseline/Drift.antt =====
-- What Diff keeps and reports over a sequence of observations.
use keelix.Prelude.{
  subst, ℕ, ◌≡◌, refl, ◌∙◌, ap, sym, Bool, true, false, not, ◌&&◌, List, [], ◌∷◌, Option, none,
  some, All, Option-cases, Bool-cases, inl, inr, if◌then◌else◌,
}
use mathlib.Core.Option.{some-injective, none-ne-some}
use keelix.Text.{Text, text_eq}
use keelix.Text.Laws.{text_eq_refl, text_eq_iff}
use keelix.Baseline.{
  Baseline, BaselineEntry, DiffResult, Observation, find_entry, put_entry, key, inventory,
  same_identity, diff_entry, diff, diff_all,
}

-- What an entry approves: a hash of a server, since a time.
pub record Approval : Type 0 where
  pub hash : Text
  pub first_seen : ℕ
  pub server_command : Text
  pub server_url : Text

abbrev approval : BaselineEntry → Approval
approval e = record {
  hash = e.hash;
  first_seen = e.first_seen;
  server_command = e.server_command;
  server_url = e.server_url;
}

approve : Option BaselineEntry → Option Approval
approve none = none
approve (some e) = some (approval e)

-- What the baseline approves under a key.
unfoldable pub approved : Text → Baseline → Option Approval
unfolding approve
approved k b = approve (find_entry k b)

-- The observation is of the server that the approval names.
abbrev pub is_same_server : Approval → Observation → Bool
is_same_server a o = text_eq a.server_command o.id.command && text_eq a.server_url o.id.url

twice :
    (c : Bool) (e d : BaselineEntry) (r : Option BaselineEntry)
    → (if c then some e else r) ≡ (if c then some e else if c then some d else r)
twice true e d r = refl
twice false e d r = refl

find-put :
    (k j : Text) (e : BaselineEntry) (b : Baseline)
    → find_entry j (put_entry k e b) ≡ (if text_eq k j then some e else find_entry j b)
unfolding find_entry put_entry
find-put k j e [] = refl
find-put k j e ((i, d) ∷ b) = elim (Bool-cases (text_eq i k)) [
  | inl same ↦
      let to_k = ap (λ x. text_eq x j) ((text_eq_iff i k).0 same) in
      rw (same, to_k) (twice (text_eq k j) e d _)
  | inr other ↦ elim (Bool-cases (text_eq k j)) [
    | inl hit ↦
        let to_j = sym (ap (text_eq i) ((text_eq_iff k j).0 hit)) ∙ other in
        rw (other, to_j, find-put k j e b, hit) refl
    | inr miss ↦ rw (other, find-put k j e b, miss) refl
  ]
]

-- Diff leaves the entry of every key alone that is not the key of the observation.
pub diff_frame :
    (k : Text) (b : Baseline) (o : Observation)
    → text_eq (key o) k ≡ false
    → find_entry k (diff b o).0 ≡ find_entry k b
unfolding diff
diff_frame k b o h = find-put (key o) k _ b ∙ rw h refl

entry_keeps :
    (prev : BaselineEntry) (o : Observation)
    → same_identity prev o ≡ true
    → approval (diff_entry (some prev) o).0 ≡ approval prev
unfolding diff_entry
entry_keeps prev o h = elim (Bool-cases (text_eq prev.hash o.hash)) [
  | inl same ↦ rw (h, same) refl
  | inr other ↦ rw (h, other) refl
]

entry_judges :
    (prev : BaselineEntry) (o : Observation)
    → same_identity prev o ≡ true
    → (diff_entry (some prev) o).1
      ≡ record { first_seen = false; drifted = not (text_eq prev.hash o.hash); hash = o.hash }
unfolding diff_entry
entry_judges prev o h = elim (Bool-cases (text_eq prev.hash o.hash)) [
  | inl same ↦ rw (h, same) refl
  | inr other ↦ rw (h, other) refl
]

stored :
    (b : Baseline) (o : Observation)
    → find_entry (key o) (diff b o).0 ≡ some (diff_entry (find_entry (key o) b) o).0
unfolding diff
stored b o = find-put (key o) (key o) _ b ∙ rw (text_eq_refl (key o)) refl

-- The entry behind an approval, and the test of its server.
found :
    (k : Text) (b : Baseline) (a : Approval)
    → approved k b ≡ some a
    → (e : BaselineEntry) × (find_entry k b ≡ some e) × (approval e ≡ a)
unfolding approved approve
found k b a h = elim (Option-cases (find_entry k b)) [
  | inl gone ↦ absurd (none-ne-some _ (sym (ap approve gone) ∙ h))
  | inr (e, is_e) ↦ (e, is_e, some-injective _ _ (sym (ap approve is_e) ∙ h))
]

approved_of :
    (k : Text) (b : Baseline) (e : BaselineEntry)
    → find_entry k b ≡ some e
    → approved k b ≡ some (approval e)
unfolding approved approve
approved_of k b e h = ap approve h

same_of :
    (e : BaselineEntry) (a : Approval) (o : Observation)
    → approval e ≡ a
    → is_same_server a o ≡ true
    → same_identity e o ≡ true
unfolding same_identity
same_of e a o h s = ap (λ x. is_same_server x o) h ∙ s

keeps_at :
    (b : Baseline) (a : Approval) (o : Observation)
    → approved (key o) b ≡ some a
    → is_same_server a o ≡ true
    → approved (key o) (diff b o).0 ≡ some a
keeps_at b a o h same =
    let (e, is_e, is_a) = found (key o) b a h in
    let entry = stored b o ∙ ap (λ x. some (diff_entry x o).0) is_e in
    approved_of (key o) (diff b o).0 _ entry
    ∙ ap some (entry_keeps e o (same_of e a o is_a same) ∙ is_a)

-- Diff keeps what is approved under a key, unless it observes another server there.
pub diff_keeps :
    (k : Text) (b : Baseline) (a : Approval) (o : Observation)
    → approved k b ≡ some a
    → (key o ≡ k → is_same_server a o ≡ true)
    → approved k (diff b o).0 ≡ some a
diff_keeps k b a o h same =
    let (e, is_e, is_a) = found k b a h in
    elim (Bool-cases (text_eq (key o) k)) [
      | inl hit ↦
          let is_k = (text_eq_iff (key o) k).0 hit in
          subst (λ j. approved j b ≡ some a → approved j (diff b o).0 ≡ some a) is_k
            (λ g. keeps_at b a o g (same is_k)) h
      | inr miss ↦ approved_of k (diff b o).0 e (diff_frame k b o miss ∙ is_e) ∙ ap some is_a
    ]

abbrev answer : Observation → Approval → DiffResult
answer o a = record { first_seen = false; drifted = not (text_eq a.hash o.hash); hash = o.hash }

-- On a tool with an approved hash and an unchanged server, Diff reports drift exactly when the hash
-- differs from the approved one.
pub diff_judges :
    (b : Baseline) (a : Approval) (o : Observation)
    → approved (key o) b ≡ some a
    → is_same_server a o ≡ true
    → (diff b o).1
      ≡ record { first_seen = false; drifted = not (text_eq a.hash o.hash); hash = o.hash }
unfolding diff
diff_judges b a o h same =
    let (e, is_e, is_a) = found (key o) b a h in
    ap (λ x. (diff_entry x o).1) is_e
    ∙ entry_judges e o (same_of e a o is_a same)
    ∙ ap (answer o) is_a

-- Any observations keep what is approved under a key, if they see the key only at the approved server.
pub diff_all_keeps :
    (k : Text) (b : Baseline) (a : Approval) (os : List Observation)
    → approved k b ≡ some a
    → All (λ o. key o ≡ k → is_same_server a o ≡ true) os
    → approved k (diff_all b os) ≡ some a
unfolding diff_all
diff_all_keeps k b a [] h same = h
diff_all_keeps k b a (o ∷ os) h (s, same) =
    diff_all_keeps k (diff b o).0 a os (diff_keeps k b a o h s) same

-- The first observation of a tool is approved.
diff_learns :
    (b : Baseline) (o : Observation)
    → find_entry (key o) b ≡ none
    → approved (key o) (diff b o).0 ≡ some (approval (inventory o))
unfolding diff_entry
diff_learns b o h =
    approved_of (key o) (diff b o).0 (inventory o)
      (stored b o ∙ ap (λ x. some (diff_entry x o).0) h)

-- Two observations are of one server.
abbrev pub is_same_place : Observation → Observation → Bool
is_same_place o x = text_eq o.id.command x.id.command && text_eq o.id.url x.id.url

-- A tool that the baseline does not know is observed, then other observations follow, which see the
-- tool only at the same server; then an observation of the tool at that server reports drift exactly
-- when its hash differs from the first one, whatever was seen in between.
pub drift_iff_first :
    (b : Baseline) (o : Observation) (os : List Observation) (late : Observation)
    → find_entry (key o) b ≡ none
    → All (λ x. key x ≡ key o → is_same_place o x ≡ true) os
    → key late ≡ key o
    → is_same_place o late ≡ true
    → (diff (diff_all (diff b o).0 os) late).1
      ≡ record { first_seen = false; drifted = not (text_eq o.hash late.hash); hash = late.hash }
unfolding inventory
drift_iff_first b o os late new same at_key at_server =
    let kept =
      diff_all_keeps (key o) (diff b o).0 (approval (inventory o)) os (diff_learns b o new) same in
    diff_judges (diff_all (diff b o).0 os) (approval (inventory o)) late
      (ap (λ k. approved k (diff_all (diff b o).0 os)) at_key ∙ kept) at_server
