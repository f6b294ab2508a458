-- ===== src/Score/Cap/Rules.antt =====
-- The cap that computeCap imposes, stated without its loop.
use keelix.Prelude.{
  ℕ, ◌≤◌, ◌≡◌, refl, sym, ◌∙◌, Bool, true, false, List, Option, none, some, arith, leb, Mem,
  Bool-cases, inl, inr, ◌⊎◌, leb→le,
}
use mathlib.Core.Bool.{true≢false}
use keelix.Text.{Text}
use keelix.Model.Finding.{Finding, CapDriver}
use keelix.Threatfeed.Record.{Table}
use keelix.Score.Grade.{red, yellow, green}
use keelix.Score.Risk.{risk}
use keelix.Score.Cap.{
  Driver, no_drivers, caps_network, caps_autonomy, caps_yellow, network_cap, autonomy_cap,
  yellow_cap, choose_cap, compute_cap,
}
use keelix.Score.Cap.Best.{IsBest, nobody, somebody, best-IsBest, find_drivers_split}

-- No finding of the list meets the condition.
abbrev pub Nobody : (Finding → Bool) → List Finding → Type 0
Nobody caps fs = (g : Finding) → Mem g fs → caps g ≡ false

-- The risk of every finding that meets the condition is at most `n`.
abbrev pub AtMost : (Finding → Bool) → Table → List Finding → ℕ → Type 0
AtMost caps t fs n = (g : Finding) → Mem g fs → caps g ≡ true → risk t g ≤ n

pub data IsCap (t : Table) (fs : List Finding) : Text → Option CapDriver → Type 0 where
  network :
      (f : Finding)
      → Mem f fs
      → caps_network f ≡ true
      → AtMost caps_network t fs (risk t f)
      → AtMost caps_autonomy t fs (risk t f)
      → IsCap t fs red (some (network_cap f))
  autonomy :
      (f : Finding)
      → Mem f fs
      → caps_autonomy f ≡ true
      → AtMost caps_autonomy t fs (risk t f)
      → AtMost caps_network t fs (risk t f)
      → IsCap t fs red (some (autonomy_cap f))
  unmitigated :
      (f : Finding)
      → Mem f fs
      → caps_yellow f ≡ true
      → AtMost caps_yellow t fs (risk t f)
      → Nobody caps_network fs
      → Nobody caps_autonomy fs
      → IsCap t fs yellow (some (yellow_cap f))
  uncapped :
      Nobody caps_network fs
      → Nobody caps_autonomy fs
      → Nobody caps_yellow fs
      → IsCap t fs green none

module _ (t : Table) (fs : List Finding) where
  abbrev Best : (Finding → Bool) → Driver → Type 0
  Best caps d = IsBest caps t (λ g. Mem g fs) d

  Nobody-AtMost : (caps : Finding → Bool) (n : ℕ) → Nobody caps fs → AtMost caps t fs n
  Nobody-AtMost caps n h g m on = absurd (true≢false (sym on ∙ h g m))

  AtMost-le : (caps : Finding → Bool) (m n : ℕ) → AtMost caps t fs m → m ≤ n → AtMost caps t fs n
  AtMost-le caps m n h le g k on = omega (arith, h g k on)

  choose-IsCap :
      {n a y : Driver}
      → Best caps_network n
      → Best caps_autonomy a
      → Best caps_yellow y
      → IsCap t fs
          (choose_cap n.finding n.risk a.finding a.risk y.finding).0
          (choose_cap n.finding n.risk a.finding a.risk y.finding).1
  unfolding choose_cap
  choose-IsCap (somebody f m e h) (somebody g k e' h') y =
      elim (Bool-cases (leb (risk t g) (risk t f))) [
        | inl le ↦
            rw le
              (network f m e h (AtMost-le caps_autonomy (risk t g) (risk t f) h' (leb→le _ _ le)))
        | inr gt ↦
            rw gt
              (autonomy g k e' h' (AtMost-le caps_network (risk t f) (risk t g) h (ground arith)))
      ]
  choose-IsCap (somebody f m e h) (nobody r h') y =
      network f m e h (Nobody-AtMost caps_autonomy (risk t f) h')
  choose-IsCap (nobody r h) (somebody g k e' h') y =
      autonomy g k e' h' (Nobody-AtMost caps_network (risk t g) h)
  choose-IsCap (nobody r h) (nobody r' h') (somebody f m e k) = unmitigated f m e k h h'
  choose-IsCap (nobody r h) (nobody r' h') (nobody r'' k) = uncapped h h' k

  -- The cap is RED with the network or the autonomy finding of the highest risk among both kinds,
  -- YELLOW with the unmitigated finding of the highest risk where there is neither of those, and
  -- GREEN with no driver where there is none of the three.
  pub compute_cap-IsCap : IsCap t fs (compute_cap t fs).0 (compute_cap t fs).1
  unfolding compute_cap
  compute_cap-IsCap = rw (find_drivers_split t fs no_drivers) (
      choose-IsCap (best-IsBest caps_network t fs) (best-IsBest caps_autonomy t fs)
        (best-IsBest caps_yellow t fs))

-- Where a finding meets a RED condition the cap is RED.
pub red_of_IsCap :
    {t : Table} {fs : List Finding} {grade : Text} {driver : Option CapDriver} (f : Finding)
    → IsCap t fs grade driver
    → Mem f fs
    → (caps_network f ≡ true) ⊎ (caps_autonomy f ≡ true)
    → grade ≡ red
red_of_IsCap f (network g m e h h') k on = refl
red_of_IsCap f (autonomy g m e h h') k on = refl
red_of_IsCap f (unmitigated g m e h n a) k (inl on) = absurd (true≢false (sym on ∙ n f k))
red_of_IsCap f (unmitigated g m e h n a) k (inr on) = absurd (true≢false (sym on ∙ a f k))
red_of_IsCap f (uncapped n a y) k (inl on) = absurd (true≢false (sym on ∙ n f k))
red_of_IsCap f (uncapped n a y) k (inr on) = absurd (true≢false (sym on ∙ a f k))
