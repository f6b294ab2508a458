-- ===== src/Mcp/Stdio/Answers.antt =====
-- Which reads answer a request.
use keelix.Prelude.{
  ℕ, suc, ◌≡◌, ◌≢◌, refl, ◌∙◌, ap, sym, ◌↔◌, true, false, List, [], ◌∷◌, ◌++◌, Option, none, some,
  ◌==◌, ==_iff, All, arith, Option-cases, Bool-cases, inl, inr,
}
use mathlib.Core.Option.{some-injective, none-ne-some}
use keelix.Text.{Text, trim_space}
use keelix.Outcome.{Outcome, done, fail}
use keelix.Mcp.Stdio.{
  RpcResponse, ScanResult, line, broken, StdioTransport, ReadResponse, response_outcome,
  accept_line, await, send,
}

result_of : Outcome Text → Text
result_of (done x) = x
result_of (fail e) = e

-- A response without an error has its result as its outcome.
response_outcome-done :
    (r : RpcResponse) (result : Text)
    → response_outcome r ≡ done result
    → (r.error ≡ none) × (r.result ≡ result)
unfolding response_outcome result_of
response_outcome-done r result e = elim (Option-cases r.error) [
  | inl fine ↦
      let given : response_outcome r ≡ done r.result = rw fine refl in
      (fine, ap result_of (sym given ∙ e))
  | inr (x, bad) ↦ absurd (ground (arith, bad, e))
]

module _ (read : ReadResponse) where
  -- A read that is a response to the request with this id.
  pub data Replies (id : ℕ) (r : RpcResponse) : ScanResult → Type 0 where
    replies :
        {l : Text}
        → trim_space l ≢ []
        → read (trim_space l) ≡ some r
        → r.id ≡ id
        → Replies id r (line l)

  -- A line that is not a response to the request: blank, a log line, or with another id.
  pub data Skipped (id : ℕ) : ScanResult → Type 0 where
    skipped : {l : Text} → ((r : RpcResponse) → ¬ Replies id r (line l)) → Skipped id (line l)

  accept_line_iff :
      (id : ℕ) (l : Text) (r : RpcResponse)
      → (accept_line read id l ≡ some r) ↔ ((l ≢ []) × (read l ≡ some r) × (r.id ≡ id))
  unfolding accept_line
  accept_line_iff id [] r = (λ e. absurd (none-ne-some _ e), λ h. absurd (h.0 refl))
  accept_line_iff id (c ∷ l) r = elim (Option-cases (read (c ∷ l))) [
    | inl gone ↦
        let is_none : accept_line read id (c ∷ l) ≡ none = rw (accept_line, gone) refl in
        (
          λ e. absurd (none-ne-some _ (sym is_none ∙ e)),
          λ h. absurd (none-ne-some _ (sym gone ∙ h.1)),
        )
    | inr (x, yes_x) ↦ elim (Bool-cases (x.id == id)) [
      | inl hit ↦
          let is_x : accept_line read id (c ∷ l) ≡ some x = rw (accept_line, yes_x, hit) refl in
          (
            λ e.
                let same = some-injective _ _ (sym is_x ∙ e) in
                (
                  λ q. absurd (ground (arith, q)),
                  yes_x ∙ ap some same,
                  ap (λ (y : RpcResponse). y.id) (sym same) ∙ (==_iff x.id id).0 hit,
                ),
            λ h. is_x ∙ sym yes_x ∙ h.1,
          )
      | inr miss ↦
          let is_none : accept_line read id (c ∷ l) ≡ none = rw (accept_line, yes_x, miss) refl in
          (
            λ e. absurd (none-ne-some _ (sym is_none ∙ e)),
            λ h.
                let same = some-injective _ _ (sym yes_x ∙ h.1) in
                absurd (ground (arith, miss, ap (λ (y : RpcResponse). y.id) same, h.2)),
          )
    ]
  ]

  pub Replies-iff :
      (id : ℕ) (l : Text) (r : RpcResponse)
      → Replies id r (line l) ↔ (accept_line read id (trim_space l) ≡ some r)
  Replies-iff id l r =
      let iff = accept_line_iff id (trim_space l) r in
      (
        λ h. elim h [ replies full parsed same ↦ iff.1 (full, parsed, same) ],
        λ e. let (full, parsed, same) = iff.0 e in replies full parsed same,
      )

  Skipped-none :
      (id : ℕ) (l : Text) → Skipped id (line l) → accept_line read id (trim_space l) ≡ none
  Skipped-none id l (skipped never) = elim (Option-cases (accept_line read id (trim_space l))) [
    | inl e ↦ e
    | inr (r, e) ↦ absurd (never r ((Replies-iff id l r).1 e))
  ]

  pub none-Skipped :
      (id : ℕ) (l : Text) → accept_line read id (trim_space l) ≡ none → Skipped id (line l)
  none-Skipped id l e = skipped λ r h. none-ne-some _ (sym e ∙ (Replies-iff id l r).0 h)

  -- Where the loop gives a result, the reads are split at its response.
  abbrev pub Split : ℕ → Text → List ScanResult → Type 0
  Split id result reads =
      (before : List ScanResult) × (x : ScanResult) × (after : List ScanResult) × (reads
        ≡ before ++ x ∷ after)
      × All (Skipped id) before
      × (r : RpcResponse) × Replies id r x
      × (r.error ≡ none)
      × (r.result ≡ result)

  module _ (late : Text) where
    await-skip :
        (id : ℕ) (before rest : List ScanResult)
        → All (Skipped id) before
        → await read late id (before ++ rest) ≡ await read late id rest
    unfolding await
    await-skip id [] rest h = refl
    await-skip id (line l ∷ before) rest (s, h) =
        rw (await, Skipped-none id l s) (await-skip id before rest h)
    await-skip id (broken e ∷ before) rest (s, h) = elim s [ ]

    await-reply :
        (id : ℕ) (r : RpcResponse) (x : ScanResult) (after : List ScanResult)
        → Replies id r x
        → await read late id (x ∷ after) ≡ (response_outcome r, false)
    unfolding await
    await-reply id r (line l) after h = rw (await, (Replies-iff id l r).0 h) refl
    await-reply id r (broken e) after h = elim h [ ]

    await_late :
        (id : ℕ) (reads : List ScanResult)
        → All (Skipped id) reads
        → await read late id reads ≡ (fail late, true)
    unfolding await
    await_late id [] h = refl
    await_late id (line l ∷ reads) (s, h) = rw (await, Skipped-none id l s) (await_late id reads h)
    await_late id (broken e ∷ reads) (s, h) = elim s [ ]

    -- Send gives the first response with the id of its request, where the frame is written and only
    -- lines that are no such response come before it: the result of the response, or its error. The
    -- session stays as it is.
    pub send-reply :
        (t : StdioTransport) (before after : List ScanResult) (x : ScanResult) (r : RpcResponse)
        → All (Skipped (suc t.id)) before
        → Replies (suc t.id) r x
        → send read late none (before ++ x ∷ after) t
          ≡ (response_outcome r, record t { id = suc t.id })
    unfolding send
    send-reply t before after x r skip h =
        rw (await-skip (suc t.id) before (x ∷ after) skip, await-reply (suc t.id) r x after h) refl

    -- Where no response to the request comes before the timer fires, Send fails with the deadline
    -- error and closes the session.
    pub send_late :
        (t : StdioTransport) (reads : List ScanResult)
        → All (Skipped (suc t.id)) reads
        → send read late none reads t ≡ (fail late, record { id = suc t.id; closed = true })
    unfolding send
    send_late t reads skip = rw (await_late (suc t.id) reads skip) refl

    await-Split :
        (id : ℕ) (result : Text) (reads : List ScanResult)
        → (await read late id reads).0 ≡ done result
        → Split id result reads
    unfolding await
    await-Split id result [] e = absurd (ground (arith, e))
    await-Split id result (broken x ∷ reads) e = absurd (ground (arith, e))
    await-Split id result (line l ∷ reads) e =
        elim (Option-cases (accept_line read id (trim_space l))) [
          | inl skip ↦
              let (before, x, after, split, skips, r, rep, fine, same) =
                await-Split id result reads (sym (rw (await, skip) refl) ∙ e) in
              (
                line l ∷ before,
                x,
                after,
                ap (◌∷◌ (line l)) split,
                (none-Skipped id l skip, skips),
                r,
                rep,
                fine,
                same,
              )
          | inr (r, hit) ↦
              let (fine, same) = response_outcome-done r result (sym (rw (await, hit) refl) ∙ e) in
              ([], line l, reads, refl, tt, r, (Replies-iff id l r).1 hit, fine, same)
        ]

    -- Where Send gives a result, the frame was written, and the result is that of a response to this
    -- very request, which has no error: the reads before it are no responses to the request.
    pub send-Split :
        (failed : Option Text) (t : StdioTransport) (reads : List ScanResult) (result : Text)
        → (send read late failed reads t).0 ≡ done result
        → (failed ≡ none) × Split (suc t.id) result reads
    unfolding send
    send-Split (some x) t reads result e = absurd (ground (arith, e))
    send-Split none t reads result e = (refl, await-Split (suc t.id) result reads e)
