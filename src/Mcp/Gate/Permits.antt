-- ===== src/Mcp/Gate/Permits.antt =====
-- When the probe of a scan command runs.
use keelix.Prelude.{
  ℕ, ◌≡◌, refl, ap, ◌⊎◌, inl, inr, Bool, true, false, not, ◌||◌, List, [], ◌∷◌, Option, none, some,
  Bool-cases, arith,
}
use keelix.Text.{Text}
use keelix.Model.Signals.{Signals}
use keelix.Model.Scan.{ScanOptions}
use keelix.Mcp.Specs.{ServerSpec, derive_server_specs}
use keelix.Mcp.Probe.{System, probe}
use keelix.Mcp.Gate.{
  resolve_mcp_consent, apply_mcp_consent_with, is_yes, maybe_probe_mcp, consent_and_probe,
}

-- The operator asked for the probe, consented by a flag or at a terminal, and there is a sandbox or
-- the operator does without one.
pub data IsPermitted (opts : ScanOptions) (is_tty : Bool) (line : Text) (available : Bool)
    : Type 0 where
  permitted :
      opts.mcp_probe_enabled ≡ true
      → (opts.mcp_probe_consent ≡ true) ⊎ ((is_tty ≡ true) × (is_yes line ≡ true))
      → (available ≡ true) ⊎ (opts.mcp_probe_unsandboxed ≡ true)
      → IsPermitted opts is_tty line available

consents :
    (opts : ScanOptions) (is_tty : Bool) (line : Text)
    → (apply_mcp_consent_with opts is_tty line).mcp_probe_consent ≡ true
    → (opts.mcp_probe_enabled ≡ true)
      × ((opts.mcp_probe_consent ≡ true) ⊎ ((is_tty ≡ true) × (is_yes line ≡ true)))
unfolding apply_mcp_consent_with resolve_mcp_consent
consents opts is_tty line h = ground (arith, h)

consents_given :
    (opts : ScanOptions) (is_tty : Bool) (line : Text)
    → opts.mcp_probe_enabled ≡ true
    → (opts.mcp_probe_consent ≡ true) ⊎ ((is_tty ≡ true) × (is_yes line ≡ true))
    → (apply_mcp_consent_with opts is_tty line).mcp_probe_consent ≡ true
unfolding apply_mcp_consent_with resolve_mcp_consent
consents_given opts is_tty line on given = ground (arith, on, given)

List-cases :
    (ss : List ServerSpec) → (ss ≡ []) ⊎ ((s : ServerSpec) × (r : List ServerSpec) × (ss ≡ s ∷ r))
List-cases [] = inl refl
List-cases (s ∷ r) = inr (s, r, refl)

module _ {W : Type 0} (sys : System W) (now : ℕ) where
  -- No probe, and the world as it was.
  abbrev pub IsIdle : ScanOptions → Option Signals → Bool → W → Type 0
  IsIdle opts sig available w =
      ((maybe_probe_mcp sys now opts sig available w).0.0 ≡ none)
      × ((maybe_probe_mcp sys now opts sig available w).1 ≡ w)

  maybe_probe_mcp-cases :
      (opts : ScanOptions) (sig : Option Signals) (available : Bool) (w : W)
      → IsIdle opts sig available w
        ⊎ ((opts.mcp_probe_consent ≡ true)
            × ((available ≡ true) ⊎ (opts.mcp_probe_unsandboxed ≡ true)))
  unfolding maybe_probe_mcp
  maybe_probe_mcp-cases opts sig available w =
      elim (Bool-cases (not opts.mcp_probe_enabled || not opts.mcp_probe_consent)) [
        | inl shut ↦ inl (rw (maybe_probe_mcp, shut) (refl, refl))
        | inr passes ↦
            let given : opts.mcp_probe_consent ≡ true = ground (arith, passes) in
            elim (List-cases (derive_server_specs sig)) [
              | inl empty ↦ inl (rw (maybe_probe_mcp, passes, empty) (refl, refl))
              | inr (s, r, full) ↦ elim (Bool-cases available) [
                | inl boxed ↦ inr (given, inl boxed)
                | inr bare ↦ elim (Bool-cases opts.mcp_probe_unsandboxed) [
                  | inl allowed ↦ inr (given, inr allowed)
                  | inr refused ↦
                      inl (rw (maybe_probe_mcp, passes, full, bare, refused) (refl, refl))
                ]
              ]
            ]
      ]

  -- The scan command either does nothing for the probe, so that no server is started or called and
  -- there is no result, or the probe is permitted: enabled, consented to by the flag or by a yes at a
  -- terminal, and with a sandbox or with the operator's leave to do without.
  pub consent_and_probe-IsPermitted :
      (opts : ScanOptions) (is_tty : Bool) (line : Text) (sig : Option Signals) (available : Bool)
      (w : W)
      → (((consent_and_probe sys now opts is_tty line sig available w).0.0 ≡ none)
          × ((consent_and_probe sys now opts is_tty line sig available w).1 ≡ w))
        ⊎ IsPermitted opts is_tty line available
  unfolding consent_and_probe apply_mcp_consent_with
  consent_and_probe-IsPermitted opts is_tty line sig available w =
      elim (maybe_probe_mcp-cases (apply_mcp_consent_with opts is_tty line) sig available w) [
        | inl idle ↦ inl idle
        | inr (given, boxed) ↦
            let (on, by) = consents opts is_tty line given in inr (permitted on by boxed)
      ]

  runs :
      (opts : ScanOptions) (sig : Option Signals) (available : Bool) (w : W) (s : ServerSpec)
      (r : List ServerSpec)
      → opts.mcp_probe_enabled ≡ true
      → opts.mcp_probe_consent ≡ true
      → (available ≡ true) ⊎ (opts.mcp_probe_unsandboxed ≡ true)
      → derive_server_specs sig ≡ s ∷ r
      → ((maybe_probe_mcp sys now opts sig available w).0.0
          ≡ some (probe sys now (derive_server_specs sig) w).0)
        × ((maybe_probe_mcp sys now opts sig available w).1
            ≡ (probe sys now (derive_server_specs sig) w).1)
  unfolding maybe_probe_mcp
  runs opts sig available w s r on given boxed full =
      let passes : (not opts.mcp_probe_enabled || not opts.mcp_probe_consent) ≡ false =
        ground (arith, on, given) in
      let of_some = ap (λ ss. some (probe sys now ss w).0) full in
      let of_world = ap (λ ss. (probe sys now ss w).1) full in
      elim (Bool-cases available) [
        | inl yes_box ↦ rw (maybe_probe_mcp, passes, full, yes_box) (of_some, of_world)
        | inr bare ↦
            let leave : opts.mcp_probe_unsandboxed ≡ true = ground (arith, bare, boxed) in
            rw (maybe_probe_mcp, passes, full, bare, leave) (of_some, of_world)
      ]

  -- Where the probe is permitted and there is a server to probe, the scan command gives exactly the
  -- probe of the derived servers.
  consent_and_probe-runs :
      (opts : ScanOptions) (is_tty : Bool) (line : Text) (sig : Option Signals) (available : Bool)
      (w : W) (s : ServerSpec) (r : List ServerSpec)
      → IsPermitted opts is_tty line available
      → derive_server_specs sig ≡ s ∷ r
      → ((consent_and_probe sys now opts is_tty line sig available w).0.0
          ≡ some (probe sys now (derive_server_specs sig) w).0)
        × ((consent_and_probe sys now opts is_tty line sig available w).1
            ≡ (probe sys now (derive_server_specs sig) w).1)
  unfolding consent_and_probe apply_mcp_consent_with
  consent_and_probe-runs opts is_tty line sig available w s r (permitted on by boxed) full =
      runs (apply_mcp_consent_with opts is_tty line) sig available w s r on
        (consents_given opts is_tty line on by) boxed full
