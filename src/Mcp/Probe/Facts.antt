-- ===== src/Mcp/Probe/Facts.antt =====
-- What the probe records of each server.
use keelix.Prelude.{
  ℕ, ◌≡◌, refl, ◌∙◌, sym, ap, subst, ◌↔◌, Bool, true, false, List, [], ◌∷◌, map, All, Bool-cases,
  inl, inr, arith,
}
use keelix.Text.{Text, codes, text_eq}
use keelix.Outcome.{Outcome, Outcome-cases, done-injective, fail-ne-done, done, fail}
use keelix.Model.Signals.{McpServerProbe}
use keelix.Baseline.{Baseline}
use keelix.Mcp.Client.{Tool, discover}
use keelix.Mcp.Specs.{ServerSpec}
use keelix.Mcp.Probe.{
  System, Session, Connection, connect, child_env, new_stdio_client, diff_tools, probe_connected,
  probe_one, probe_all, probe, error_probe, silent_probe, listed_probe, is_remote,
}

-- Which server an entry of the probe is about.
abbrev pub server_of : McpServerProbe → Text × Text × Text
server_of p = (p.client, p.name, p.transport)

abbrev pub server_of_spec : ServerSpec → Text × Text × Text
server_of_spec s = (s.client, s.name, s.transport)

-- Only a server that was started here is called sandboxed, and one that was started without
-- confinement has the lowest tier.
pub Confined : ServerSpec → Text → Bool → Type 0
Confined s tier applied =
    (applied ≡ true → is_remote s.transport ≡ false)
    × (applied ≡ false → is_remote s.transport ≡ false → tier ≡ codes "tier0")

-- What the report may rely on in an entry.
unfoldable pub IsHonest : McpServerProbe → Type 0
IsHonest p =
    ((p.reached ≡ true) ↔ (p.errors ≡ []))
    × (p.reached ≡ false → p.tools ≡ [])
    × (p.sandbox_applied ≡ true → is_remote p.transport ≡ false)
    × (p.reached ≡ true
        → p.sandbox_applied ≡ false
        → is_remote p.transport ≡ false
        → p.sandbox_tier ≡ codes "tier0")

module _ {W : Type 0} (sys : System W) (now : ℕ) where
  -- The three ways in which the probe of a server ends.
  pub data Recorded (s : ServerSpec) (b : Baseline) : McpServerProbe → Type 0 where
    refused : (e : Text) → Recorded s b (error_probe s e)
    silent :
        {tier : Text} {applied : Bool} (e : Text)
        → Confined s tier applied
        → Recorded s b (silent_probe s tier applied e)
    listed :
        {tier : Text} {applied : Bool} (tools : List Tool)
        → Confined s tier applied
        → Recorded s b (listed_probe s tier applied (diff_tools sys now s tools b).0)

  probe_connected-Recorded :
      (s : ServerSpec) (c : Connection W) (b : Baseline) (w : W)
      → Confined s c.tier c.applied
      → Recorded s b (probe_connected sys now s c b w).0
  unfolding probe_connected
  probe_connected-Recorded s c b w h = elim (Outcome-cases (discover c.transport sys.codec w).0) [
    | inl (tools, e) ↦ rw (probe_connected, e) (listed tools h)
    | inr (x, e) ↦ rw (probe_connected, e) (silent x h)
  ]

  connect-Confined :
      (s : ServerSpec) (session : Session W)
      → is_remote s.transport ≡ false
      → Confined s (connect session).tier (connect session).applied
  unfolding connect Confined
  connect-Confined s session here = (λ _. here, λ off _. rw off refl)

  -- The outcome of Start for a server.
  abbrev started : ServerSpec → W → Outcome (Session W)
  started s w =
      (sys.start
        (record {
          command = s.command;
          args = s.args;
          env = child_env (sys.get_env w) s.env_keys [];
        })
        w).0

  new_stdio_client-Confined :
      (s : ServerSpec) (w : W) (c : Connection W)
      → is_remote s.transport ≡ false
      → (new_stdio_client sys now s w).0 ≡ done c
      → Confined s c.tier c.applied
  unfolding new_stdio_client
  new_stdio_client-Confined s w c here e = elim (Outcome-cases (started s w)) [
    | inl (session, good) ↦
        let given : (new_stdio_client sys now s w).0 ≡ done (connect session) =
          rw (new_stdio_client, good) refl in
        let is_c = done-injective _ _ (sym given ∙ e) in
        subst (λ (x : Connection W). Confined s x.tier x.applied) is_c
          (connect-Confined s session here)
    | inr (x, bad) ↦
        let failed : (new_stdio_client sys now s w).0 ≡ fail x = rw (new_stdio_client, bad) refl in
        absurd (fail-ne-done x c (sym failed ∙ e))
  ]

  remote-Confined : (s : ServerSpec) → is_remote s.transport ≡ true → Confined s s.transport false
  unfolding Confined
  remote-Confined s far =
      (λ e. absurd (ground (arith, e)), λ _ here. absurd (ground (arith, far, here)))

  pub probe_one-Recorded :
      (s : ServerSpec) (b : Baseline) (w : W) → Recorded s b (probe_one sys now s b w).0
  unfolding probe_one
  probe_one-Recorded s b w = elim (Bool-cases (is_remote s.transport)) [
    | inl far ↦ elim (Bool-cases (text_eq s.url [])) [
      | inl blank ↦ rw (probe_one, far, blank) (refused _)
      | inr given ↦
          rw (probe_one, far, given) (probe_connected-Recorded s _ b w (remote-Confined s far))
    ]
    | inr here ↦ elim (Outcome-cases (new_stdio_client sys now s w).0) [
      | inl (c, e) ↦
          rw (probe_one, here, e)
            (probe_connected-Recorded s c b _ (new_stdio_client-Confined s w c here e))
      | inr (x, e) ↦ rw (probe_one, here, e) (refused _)
    ]
  ]

  probe_all-Recorded :
      (P : McpServerProbe → Type 0)
      → ((s : ServerSpec) (b : Baseline) (p : McpServerProbe) → Recorded s b p → P p)
      → (ss : List ServerSpec) (b : Baseline) (w : W) → All P (probe_all sys now ss b w).0
  unfolding probe_all
  probe_all-Recorded P h [] b w = tt
  probe_all-Recorded P h (s ∷ ss) b w =
      (h s b _ (probe_one-Recorded s b w), probe_all-Recorded P h ss _ _)

  Recorded-server :
      (s : ServerSpec) (b : Baseline) (p : McpServerProbe)
      → Recorded s b p
      → server_of p ≡ server_of_spec s
  Recorded-server s b p (refused e) = refl
  Recorded-server s b p (silent e c) = refl
  Recorded-server s b p (listed tools c) = refl

  probe_all-servers :
      (ss : List ServerSpec) (b : Baseline) (w : W)
      → map server_of (probe_all sys now ss b w).0 ≡ map server_of_spec ss
  unfolding probe_all
  probe_all-servers [] b w = refl
  probe_all-servers (s ∷ ss) b w =
      ap
        (λ x.
          x
          ∷ map server_of
              (probe_all sys now ss (probe_one sys now s b w).1 (probe_one sys now s b w).2).0)
        (Recorded-server s b _ (probe_one-Recorded s b w))
      ∙ ap (◌∷◌ (server_of_spec s)) (probe_all-servers ss _ _)

  Recorded-IsHonest :
      (s : ServerSpec) (b : Baseline) (p : McpServerProbe) → Recorded s b p → IsHonest p
  unfolding IsHonest Confined
  Recorded-IsHonest s b p (refused e) = (
    (λ h. absurd (ground (arith, h)), λ h. absurd (ground (arith, h))),
    λ _. refl,
    λ h. absurd (ground (arith, h)),
    λ h. absurd (ground (arith, h)),
  )
  Recorded-IsHonest s b p (silent e c) = (
    (λ h. absurd (ground (arith, h)), λ h. absurd (ground (arith, h))),
    λ _. refl,
    c.0,
    λ h. absurd (ground (arith, h)),
  )
  Recorded-IsHonest s b p (listed tools c) =
      ((λ _. refl, λ _. refl), λ h. absurd (ground (arith, h)), c.0, λ _. c.1)

  -- Whatever the servers, the sandbox and the network do, the probe has one entry for each spec, in
  -- their order. An entry is marked reached exactly if it has no error, lists no tools if it is not,
  -- is called sandboxed only for a server that was started here, and has the tier tier0 for one that
  -- was started and reached without confinement.
  pub probe-IsHonest :
      (ss : List ServerSpec) (w : W)
      → (map server_of (probe sys now ss w).0.servers ≡ map server_of_spec ss)
        × All IsHonest (probe sys now ss w).0.servers
  unfolding probe
  probe-IsHonest ss w =
      (probe_all-servers ss _ w, probe_all-Recorded IsHonest Recorded-IsHonest ss _ w)
