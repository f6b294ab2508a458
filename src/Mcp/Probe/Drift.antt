-- ===== src/Mcp/Probe/Drift.antt =====
-- What the probe says of a tool that the baseline approves.
use keelix.Prelude.{ℕ, ◌≡◌, ◌∙◌, ap, Bool, true, false, not, ◌&&◌, List, [], ◌∷◌, some, All}
use keelix.Text.{Text, text_eq}
use keelix.Model.Signals.{McpServerProbe, McpToolFact}
use keelix.Baseline.{Baseline, DiffResult, key_of, diff}
use keelix.Baseline.Drift.{Approval, approved, diff_keeps, diff_judges}
use keelix.Mcp.Client.{Tool}
use keelix.Mcp.Specs.{ServerSpec}
use keelix.Mcp.Probe.{System, observation, diff_tools, probe_one}
use keelix.Mcp.Probe.Facts.{Recorded, refused, silent, listed, probe_one-Recorded}

-- The approval is of the server that the spec names.
abbrev pub approves_server : Approval → ServerSpec → Bool
approves_server a s = text_eq a.server_command s.command && text_eq a.server_url s.url

-- A fact of the tool with this name tells exactly whether its hash differs from the approved one.
pub IsJudged : Approval → Text → McpToolFact → Type 0
IsJudged a name f =
    f.name ≡ name → (f.drifted ≡ not (text_eq a.hash f.desc_hash)) × (f.first_seen ≡ false)

module _ {W : Type 0} (sys : System W) (now : ℕ) where
  diff_tools-IsJudged :
      (s : ServerSpec) (a : Approval) (name : Text) (ts : List Tool) (b : Baseline)
      → approves_server a s ≡ true
      → approved (key_of s.client s.name name) b ≡ some a
      → All (IsJudged a name) (diff_tools sys now s ts b).0
  unfolding diff_tools IsJudged
  diff_tools-IsJudged s a name [] b same h = tt
  diff_tools-IsJudged s a name (t ∷ ts) b same h =
      let o = observation sys now s t in
      let judged : t.name ≡ name → (diff b o).1 ≡ _ =
        λ e. diff_judges b a o (ap (λ n. approved (key_of s.client s.name n) b) e ∙ h) same in
      (
        λ e. (
          ap (λ (d : DiffResult). d.drifted) (judged e),
          ap (λ (d : DiffResult). d.first_seen) (judged e),
        ),
        diff_tools-IsJudged s a name ts (diff b o).0 same
            (diff_keeps (key_of s.client s.name name) b a o h λ _. same),
      )

  Recorded-IsJudged :
      (s : ServerSpec) (b : Baseline) (p : McpServerProbe) (a : Approval) (name : Text)
      → Recorded sys now s b p
      → approves_server a s ≡ true
      → approved (key_of s.client s.name name) b ≡ some a
      → All (IsJudged a name) p.tools
  Recorded-IsJudged s b p a name (refused e) same h = tt
  Recorded-IsJudged s b p a name (silent e c) same h = tt
  Recorded-IsJudged s b p a name (listed tools c) same h =
      diff_tools-IsJudged s a name tools b same h

  -- Where the baseline approves a tool of a server that is still reached by the approved command and
  -- address, every fact that the probe of that server records of the tool says that it is not new and
  -- reports drift exactly when its hash is not the approved one, whatever else the server lists.
  pub probe_one-IsJudged :
      (s : ServerSpec) (b : Baseline) (w : W) (a : Approval) (name : Text)
      → approves_server a s ≡ true
      → approved (key_of s.client s.name name) b ≡ some a
      → All (IsJudged a name) (probe_one sys now s b w).0.tools
  probe_one-IsJudged s b w a name same h =
      Recorded-IsJudged s b _ a name (probe_one-Recorded sys now s b w) same h
