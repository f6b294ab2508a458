-- ===== src/Cli/Fresh.antt =====
-- When a scan under --ci passes.
use keelix.Prelude.{
  ◌≡◌, refl, ◌∙◌, sym, ap, ◌↔◌, ◌⊎◌, inl, inr, Bool, true, false, not, List, [], ◌∷◌, none, some,
  ◌≢◌, ◌++◌, All, All-Mem, any-Mem, any-witness, select, Mem, here, there, Bool-cases,
  if◌then◌else◌, arith,
}
use keelix.Text.{Text, text_eq}
use keelix.Text.Laws.{text_eq_iff}
use keelix.Outcome.{done}
use keelix.Model.Finding.{Finding, Severity, ok, info, warning, critical, is_critical}
use keelix.Model.Result.{Result}
use keelix.Cli.{finding_key, keys_of, critical_keys, contains_key, exit_of, ci_exit}

-- The check, the service and the resource of a finding are those of a critical one of the base.
pub data IsOld (base : List Finding) (f : Finding) : Type 0 where
  old :
      (g : Finding)
      → Mem g base
      → g.severity ≡ critical
      → g.check_id ≡ f.check_id
      → g.service ≡ f.service
      → g.resource ≡ f.resource
      → IsOld base f

-- The same with the key in place of its parts.
data IsListed (base : List Finding) (f : Finding) : Type 0 where
  listed :
      (g : Finding)
      → Mem g base
      → g.severity ≡ critical
      → finding_key g ≡ finding_key f
      → IsListed base f

-- No bar in a text.
abbrev HasNoBar : Text → Type 0
HasNoBar s = All (λ c. c ≢ b'|') s

-- The parts of a key before the last have no bar, so that it can be read back.
abbrev pub HasPlainKey : Finding → Type 0
HasPlainKey f = HasNoBar f.check_id × HasNoBar f.service

bar-injective :
    (xs ys : Text) {us vs : Text}
    → HasNoBar xs
    → HasNoBar ys
    → xs ++ b'|' ∷ us ≡ ys ++ b'|' ∷ vs
    → (xs ≡ ys) × (us ≡ vs)
bar-injective [] [] h k e = (refl, cc)
bar-injective [] (y ∷ ys) h (k, ks) e = absurd (k cc)
bar-injective (x ∷ xs) [] (h, hs) k e = absurd (h cc)
bar-injective (x ∷ xs) (y ∷ ys) {us} {vs} (h, hs) (k, ks) e =
    let rest : xs ++ b'|' ∷ us ≡ ys ++ b'|' ∷ vs = cc in
    let (front, back) = bar-injective xs ys hs ks rest in (cc, back)

IsListed-IsOld :
    (base : List Finding) (f : Finding)
    → All HasPlainKey base
    → HasPlainKey f
    → IsListed base f
    → IsOld base f
IsListed-IsOld base f plain (hc, hs) (listed g at crit same) =
    let (gc, gs) = All-Mem HasPlainKey plain at in
    let (check, rest) = bar-injective g.check_id f.check_id gc hc same in
    let (service, resource) = bar-injective g.service f.service gs hs rest in
    old g at crit check service resource

IsOld-IsListed : (base : List Finding) (f : Finding) → IsOld base f → IsListed base f
IsOld-IsListed base f (old g at crit check service resource) =
    listed g at crit (rw (check, service, resource) refl)

exit_iff : (ks : List Text) → (exit_of ks ≡ none) ↔ (ks ≡ [])
exit_iff [] = (λ _. refl, λ _. refl)
exit_iff (k ∷ ks) = (λ e. absurd (ground (arith, e)), λ e. absurd (ground (arith, e)))

is_critical→eq : (s : Severity) → is_critical s ≡ true → s ≡ critical
is_critical→eq critical e = refl
is_critical→eq ok e = absurd (ground (arith, e))
is_critical→eq info e = absurd (ground (arith, e))
is_critical→eq warning e = absurd (ground (arith, e))

Mem-if :
    (b : Bool) (k x : Text) (rest : List Text)
    → Mem k (if b then x ∷ rest else rest)
    → ((b ≡ true) × (x ≡ k)) ⊎ Mem k rest
Mem-if true k x rest here = inl (refl, refl)
Mem-if true k x rest (there m) = inr m
Mem-if false k x rest m = inr m

if-Mem :
    (b : Bool) (k x : Text) (rest : List Text) → Mem k rest → Mem k (if b then x ∷ rest else rest)
if-Mem true k x rest m = there m
if-Mem false k x rest m = m

if-Mem-here :
    (b : Bool) (x : Text) (rest : List Text) → b ≡ true → Mem x (if b then x ∷ rest else rest)
if-Mem-here true x rest e = here
if-Mem-here false x rest e = absurd (ground (arith, e))

keys_of-Mem :
    (k : Text) (fs : List Finding)
    → Mem k (keys_of fs)
    → (g : Finding) × Mem g fs × (g.severity ≡ critical) × (finding_key g ≡ k)
unfolding keys_of
keys_of-Mem k [] m = elim m [ ]
keys_of-Mem k (f ∷ fs) m = elim (Mem-if (is_critical f.severity) k (finding_key f) (keys_of fs) m) [
  | inl (yes_critical, same) ↦ (f, here, is_critical→eq f.severity yes_critical, same)
  | inr m' ↦ let (g, at, crit, same) = keys_of-Mem k fs m' in (g, there at, crit, same)
]

Mem-keys_of :
    (g : Finding) (fs : List Finding)
    → Mem g fs
    → g.severity ≡ critical
    → Mem (finding_key g) (keys_of fs)
unfolding keys_of
Mem-keys_of g [] m e = elim m [ ]
Mem-keys_of g (f ∷ fs) here e = if-Mem-here _ (finding_key g) (keys_of fs) (ap is_critical e)
Mem-keys_of g (f ∷ fs) (there m) e =
    if-Mem (is_critical f.severity) (finding_key g) (finding_key f) (keys_of fs)
      (Mem-keys_of g fs m e)

select_none :
    (p : Text → Bool) (ks : List Text) → (select p ks ≡ []) ↔ ((k : Text) → Mem k ks → p k ≡ false)
unfolding select
select_none p [] = (λ _ k m. elim m [ ], λ _. refl)
select_none p (x ∷ ks) =
    let rest = select_none p ks in
    elim (Bool-cases (p x)) [
      | inl hit ↦
          (λ e. absurd (ground (arith, e, hit)), λ h. absurd (ground (arith, hit, h x here)))
      | inr miss ↦ (
        λ e k m. mem_case p ks miss (rest.0 (sym (rw miss refl) ∙ e)) k m,
        λ h. rw miss (rest.1 λ k m. h k (there m)),
      )
    ]
  where
    mem_case :
        {x : Text} (p : Text → Bool) (ks : List Text)
        → p x ≡ false
        → ((k : Text) → Mem k ks → p k ≡ false)
        → (k : Text) → Mem k (x ∷ ks)
        → p k ≡ false
    mem_case p ks miss f k here = miss
    mem_case p ks miss f k (there m) = f k m

known_critical :
    (base : Result) (f : Finding)
    → contains_key (critical_keys base) (finding_key f) ≡ true
    → IsListed base.findings f
unfolding critical_keys contains_key
known_critical base f e =
    let (t, m, same) = any-witness (text_eq (finding_key f)) (keys_of base.findings) e in
    let (g, at, crit, is_t) = keys_of-Mem t base.findings m in
    listed g at crit (is_t ∙ sym ((text_eq_iff (finding_key f) t).0 same))

critical_known :
    (base : Result) (f : Finding)
    → IsListed base.findings f
    → contains_key (critical_keys base) (finding_key f) ≡ true
unfolding critical_keys contains_key
critical_known base f (listed g at crit same) =
    any-Mem (text_eq (finding_key f)) (Mem-keys_of g base.findings at crit)
      ((text_eq_iff (finding_key f) (finding_key g)).1 (sym same))

ci_exit-IsListed :
    (r base : Result)
    → (ci_exit r (some (done base)) ≡ none)
      ↔ ((f : Finding) → Mem f r.findings → f.severity ≡ critical → IsListed base.findings f)
unfolding ci_exit critical_keys
ci_exit-IsListed r base =
    let known = contains_key (critical_keys base) in
    let nothing = exit_iff (select (λ k. not (known k)) (keys_of r.findings)) in
    let fresh = select_none (λ k. not (known k)) (keys_of r.findings) in
    (
      λ e f m crit.
          let off = fresh.0 (nothing.0 e) (finding_key f) (Mem-keys_of f r.findings m crit) in
          known_critical base f (ground (arith, off)),
      λ h. nothing.1 (
          fresh.1 λ k m.
            let (f, at, crit, same) = keys_of-Mem k r.findings m in
            ap not (sym (ap known same) ∙ critical_known base f (h f at crit))),
    )

-- A scan under --ci with a readable baseline passes exactly if every critical finding of it has the
-- check, the service and the resource of a critical finding of the baseline, where no id of a check
-- and no name of a service in them has a bar.
pub ci_exit_iff :
    (r base : Result)
    → All HasPlainKey r.findings
    → All HasPlainKey base.findings
    → (ci_exit r (some (done base)) ≡ none)
      ↔ ((f : Finding) → Mem f r.findings → f.severity ≡ critical → IsOld base.findings f)
ci_exit_iff r base plain plain_base =
    let (to, from) = ci_exit-IsListed r base in
    (
      λ e f m crit.
          IsListed-IsOld base.findings f plain_base (All-Mem HasPlainKey plain m) (to e f m crit),
      λ h. from λ f m crit. IsOld-IsListed base.findings f (h f m crit),
    )
