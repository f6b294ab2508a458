-- ===== src/Checks/Laws.antt =====
-- internal/checks: which findings the shared loops give.
use keelix.Prelude.{
  Bool, true, false, List, [], ◌∷◌, ◌++◌, ◌≡◌, refl, sym, ◌∙◌, ap, subst, ◌≢◌, ◌↔◌, inl, inr, Mem,
  here, there, Mem-append_left, Mem-append_right, Mem-append_cases,
}
use keelix.Text.{Text}
use keelix.Model.Finding.{Finding, assessed, not_assessed}
use keelix.Model.Stack.{Service}
use keelix.Model.Scan.{ScanContext}
use keelix.Catalog.{pass}
use keelix.Checks.{for_each, or_pass, with_list, over_services, services_of, report_if}

true-ne-false : true ≢ false
true-ne-false e = cc

not_assessed-ne : not_assessed ≢ assessed
not_assessed-ne e = cc

Mem_one {ℓ} : {A : Type ℓ} {x : A} (y : A) → Mem x (y ∷ []) → x ≡ y
Mem_one y here = refl
Mem_one y (there m) = elim m [ ]

-- A loop gives what its body gives for some element.
module _ {A B : Type 0} (body : A → List B) {f : B} where
  pub for_each-Mem : {x : A} (xs : List A) → Mem x xs → Mem f (body x) → Mem f (for_each body xs)
  unfolding for_each
  for_each-Mem [] at m = elim at [ ]
  for_each-Mem (x ∷ xs) here m = Mem-append_left (body x) (for_each body xs) m
  for_each-Mem (y ∷ xs) (there l) m =
      Mem-append_right (body y) (for_each body xs) (for_each-Mem xs l m)

  pub for_each-source :
      (xs : List A) → Mem f (for_each body xs) → (x : A) × Mem x xs × Mem f (body x)
  unfolding for_each
  for_each-source [] m = elim m [ ]
  for_each-source (x ∷ xs) m = elim (Mem-append_cases (body x) (for_each body xs) m) [
    | inl l ↦ (x, here, l)
    | inr r ↦ let (y, at, n) = for_each-source xs r in (y, there at, n)
  ]

for_each-nil :
    {A B : Type 0} (body : A → List B) (xs : List A)
    → ((x : A) → Mem x xs → body x ≡ [])
    → for_each body xs ≡ []
unfolding for_each
for_each-nil body [] h = refl
for_each-nil body (x ∷ xs) h = rw (h x here) (for_each-nil body xs λ y m. h y (there m))

pub report_if-Mem : {f : Finding} {b : Bool} → b ≡ true → Mem f (report_if b f)
report_if-Mem {f} e = rw e here

pub report_if-source :
    (b : Bool) (g : Finding) {f : Finding} → Mem f (report_if b g) → (b ≡ true) × (f ≡ g)
report_if-source true g here = (refl, refl)
report_if-source true g (there m) = elim m [ ]
report_if-source false g m = elim m [ ]

module _ (id detail : Text) {f : Finding} where
  pub or_pass-Mem : (fs : List Finding) → Mem f fs → Mem f (or_pass id detail fs)
  unfolding or_pass
  or_pass-Mem [] m = elim m [ ]
  or_pass-Mem (g ∷ fs) m = m

  -- What does not pass is a finding of the loop.
  pub or_pass-source :
      (fs : List Finding) → Mem f (or_pass id detail fs) → f.passed ≡ false → Mem f fs
  unfolding or_pass pass
  or_pass-source [] m h =
      absurd (true-ne-false (sym (ap (λ (z : Finding). z.passed) (Mem_one _ m)) ∙ h))
  or_pass-source (g ∷ fs) m h = m

-- What a check of the services reports, it reports for some service of the stack.
module _ (id detail : Text) (body : Service → List Finding) {f : Finding} where
  with_list-Mem :
      {svc : Service} (svcs : List Service)
      → Mem svc svcs
      → Mem f (body svc)
      → Mem f (with_list id (λ ss. or_pass id detail (for_each body ss)) svcs)
  unfolding with_list
  with_list-Mem [] at m = elim at [ ]
  with_list-Mem (s ∷ svcs) at m =
      or_pass-Mem id detail (for_each body (s ∷ svcs)) (for_each-Mem body (s ∷ svcs) at m)

  with_list-source :
      (svcs : List Service)
      → Mem f (with_list id (λ ss. or_pass id detail (for_each body ss)) svcs)
      → f.passed ≡ false
      → f.status ≡ assessed
      → (svc : Service) × Mem svc svcs × Mem f (body svc)
  unfolding with_list
  with_list-source [] m h ran =
      absurd (not_assessed-ne (sym (ap (λ (z : Finding). z.status) (Mem_one _ m)) ∙ ran))
  with_list-source (s ∷ svcs) m h ran =
      for_each-source body (s ∷ svcs) (or_pass-source id detail (for_each body (s ∷ svcs)) m h)

  pub over_services-Mem :
      (ctx : ScanContext) {svc : Service}
      → Mem svc (services_of ctx.stack)
      → Mem f (body svc)
      → Mem f (over_services id detail body ctx)
  unfolding over_services
  over_services-Mem ctx at m = with_list-Mem (services_of ctx.stack) at m

  pub over_services-source :
      (ctx : ScanContext)
      → Mem f (over_services id detail body ctx)
      → f.passed ≡ false
      → f.status ≡ assessed
      → (svc : Service) × Mem svc (services_of ctx.stack) × Mem f (body svc)
  unfolding over_services
  over_services-source ctx m h ran = with_list-source (services_of ctx.stack) m h ran

-- A loop that reports the elements that meet a test: what it gives, passes aside, are their findings.
module _ {A : Type 0} (id detail : Text) (test : A → Bool) (report : A → Finding) where
  pub report_iff :
      ((x : A) → (report x).passed ≡ false)
      → (xs : List A) (f : Finding)
      → (Mem f (or_pass id detail (for_each (λ x. report_if (test x) (report x)) xs))
          × (f.passed ≡ false))
        ↔ ((x : A) × Mem x xs × (test x ≡ true) × (f ≡ report x))
  report_iff fails xs f =
      let body : A → List Finding = λ x. report_if (test x) (report x) in
      (
        λ (m, h).
            let (x, at, n) =
              for_each-source body xs (or_pass-source id detail (for_each body xs) m h) in
            let (met, e) = report_if-source (test x) (report x) n in (x, at, met, e),
        λ (x, at, met, e). (
          or_pass-Mem id detail (for_each body xs)
              (for_each-Mem body xs at (subst (λ z. Mem z (body x)) (sym e) (report_if-Mem met))),
          ap (λ (z : Finding). z.passed) e ∙ fails x,
        ),
      )

abbrev pub AllPass : List Finding → Type 0
AllPass fs = (f : Finding) → Mem f fs → f.passed ≡ true

pub AllPass-append : (xs ys : List Finding) → AllPass (xs ++ ys) ↔ (AllPass xs × AllPass ys)
AllPass-append xs ys = (
  λ h. (λ f m. h f (Mem-append_left xs ys m), λ f m. h f (Mem-append_right xs ys m)),
  λ (h, k) f m. elim (Mem-append_cases xs ys m) [ inl l ↦ h f l | inr r ↦ k f r ],
)

passing-passes : (id detail : Text) (f : Finding) → Mem f (or_pass id detail []) → f.passed ≡ true
unfolding or_pass pass
passing-passes id detail f m = ap (λ (z : Finding). z.passed) (Mem_one _ m)

no_member : {A : Type 0} (xs : List A) → ((x : A) → Mem x xs → ⊥) → xs ≡ []
no_member [] h = refl
no_member (x ∷ xs) h = absurd (h x here)

no_Mem : {A : Type 0} (x : A) → Mem x [] → ⊥
no_Mem x m = elim m [ ]

-- A loop gives nothing exactly if its body gives nothing for any element.
pub for_each-nil_iff :
    {A B : Type 0} (body : A → List B) (xs : List A)
    → (for_each body xs ≡ []) ↔ ((x : A) → Mem x xs → body x ≡ [])
for_each-nil_iff body xs = (
  λ e x at. no_member (body x) λ y m. no_Mem y (subst (Mem y) e (for_each-Mem body xs at m)),
  for_each-nil body xs,
)

-- A check of the services passes exactly if its body reports no service. There must be a service.
module _ (id detail : Text) (body : Service → List Finding)
    (fails : (svc : Service) (f : Finding) → Mem f (body svc) → f.passed ≡ false) where
  list_passes :
      (svcs : List Service) {svc : Service}
      → Mem svc svcs
      → AllPass (with_list id (λ ss. or_pass id detail (for_each body ss)) svcs)
        ↔ ((r : Service) → Mem r svcs → body r ≡ [])
  unfolding with_list
  list_passes [] at = elim at [ ]
  list_passes (s ∷ svcs) at = (
    λ h r m. no_member (body r) λ f n. true-ne-false (
        sym (
          h f (or_pass-Mem id detail (for_each body (s ∷ svcs)) (for_each-Mem body (s ∷ svcs) m n)))
        ∙ fails r f n),
    λ h f m.
        passing-passes id detail f
          (subst (λ z. Mem f (or_pass id detail z)) ((for_each-nil body (s ∷ svcs) h)) m),
  )

  pub over_services_passes :
      (ctx : ScanContext) {svc : Service}
      → Mem svc (services_of ctx.stack)
      → AllPass (over_services id detail body ctx)
        ↔ ((r : Service) → Mem r (services_of ctx.stack) → body r ≡ [])
  unfolding over_services
  over_services_passes ctx at = list_passes (services_of ctx.stack) at

pub report_if-nil : (b : Bool) (f : Finding) → (report_if b f ≡ []) ↔ (b ≡ false)
report_if-nil true f = (λ h. absurd (cc), λ h. absurd (cc))
report_if-nil false f = (λ h. refl, λ h. refl)

-- The same for a body that reports the services which meet a test.
pub tested_passes :
    (id detail : Text) (test : Service → Bool) (report : Service → Finding)
    → ((s : Service) → (report s).passed ≡ false)
    → (ctx : ScanContext) {svc : Service} → Mem svc (services_of ctx.stack)
    → AllPass (over_services id detail (λ s. report_if (test s) (report s)) ctx)
      ↔ ((r : Service) → Mem r (services_of ctx.stack) → test r ≡ false)
tested_passes id detail test report fails ctx at =
    let body : Service → List Finding = λ s. report_if (test s) (report s) in
    let reported : (s : Service) (f : Finding) → Mem f (body s) → f.passed ≡ false = λ s f m.
      ap (λ (z : Finding). z.passed) (report_if-source (test s) (report s) m).1 ∙ fails s in
    let (to, from) = over_services_passes id detail body reported ctx at in
    (
      λ h r m. (report_if-nil (test r) (report r)).0 (to h r m),
      λ h. from λ r m. (report_if-nil (test r) (report r)).1 (h r m),
    )
