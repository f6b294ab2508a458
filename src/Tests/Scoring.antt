-- ===== src/Tests/Scoring.antt =====
-- Scores of a few findings.
use keelix.Prelude.{
  ◌≡◌, ◌≤◌, ◌⊎◌, inl, refl, true, List, [], ◌∷◌, map, select, none, All, here, there, arith,
}
use keelix.Model.Finding.{
  Finding, CapDriver, internet, exposure_multiplier, confidence_multiplier, is_fail, can_cap_red,
}
use keelix.Model.Check.{group_order, domain_of}
use keelix.Text.{text_eq, lookup_text, lookup, equal_fold, to_lower, trim_space}
use keelix.Threatfeed.Cve.{parse_cve, index_byte, parse_uint}
use keelix.Threatfeed.Record.{epss_present, has_kev, percentile}
use keelix.Threatfeed.Lookup.{
  kev_listed, lookup as find_cve, epss_percentile, key_ge, lookup_key, reached, search_loop,
}
use keelix.Score.Grade.{red, band}
use keelix.Score.Risk.{apply_kev_fatal, escalate, exposure_weight, threat, risk, max_risk, cve_of}
use keelix.Score.Numeric.{compute_numeric, info_cap_points, numeric_of, sum_findings, add_finding}
use keelix.Score.Numeric.Parts.{total, max_part}
use keelix.Score.Numeric.Laws.{ratio}
use keelix.Score.Numeric.Changes.{compute_numeric_exposure, compute_numeric-info_noise}
use keelix.Score.Cap.{caps_network, compute_cap}
use keelix.Score.Cap.Rules.{IsCap, compute_cap-IsCap}
use keelix.Score.V2.{compute_v2, compute_sub_scores}
use keelix.Score.V2.Caps.{IsExplained, compute_v2_cap, compute_v2-red, compute_v2-kev}
use keelix.Score.V2.SubScores.{IsScoreOf, has_findings, compute_sub_scores_lem}
use keelix.Tests.Samples.{exploited, open_database, hint, passing, unread, table}

abbrev scan : List Finding
scan = hint ∷ exploited ∷ passing ∷ unread ∷ []

abbrev fatal_one : Finding
fatal_one = record exploited { fatal = true; metadata = [] }

numbers :
    (compute_numeric table (exploited ∷ []) ≡ 0)
    × (compute_numeric table (passing ∷ exploited ∷ []) ≡ 44)
    × (compute_numeric table (hint ∷ []) ≡ 65)
    × (compute_numeric table [] ≡ 100)
unfolding compute_numeric numeric_of sum_findings add_finding is_fail max_risk risk exposure_weight
    domain_of exposure_multiplier threat cve_of lookup_text lookup kev_listed find_cve parse_cve
    confidence_multiplier equal_fold text_eq to_lower trim_space index_byte parse_uint
    epss_percentile key_ge lookup_key reached search_loop epss_present has_kev percentile
numbers = (refl, refl, refl, refl)

compute_v2_cap_example :
    (((compute_v2 table scan).cap ≡ none)
      × ((compute_v2 table scan).rating ≡ band (compute_v2 table scan).numeric))
    ⊎ ((d : CapDriver) × IsExplained table scan d)
compute_v2_cap_example = compute_v2_cap table scan

compute_v2-red_example : (compute_v2 table (hint ∷ fatal_one ∷ [])).rating ≡ red
unfolding apply_kev_fatal caps_network escalate can_cap_red is_fail text_eq cve_of lookup_text
    lookup
compute_v2-red_example =
    compute_v2-red table (hint ∷ fatal_one ∷ []) fatal_one (there here) (inl refl)

compute_v2-kev_example : (compute_v2 table scan).rating ≡ red
unfolding kev_listed can_cap_red cve_of text_eq lookup_text lookup find_cve parse_cve lookup_key
    has_kev
compute_v2-kev_example =
    compute_v2-kev table scan exploited (there here) refl refl refl refl refl refl

compute_cap-IsCap_example : IsCap table scan (compute_cap table scan).0 (compute_cap table scan).1
compute_cap-IsCap_example = compute_cap-IsCap table scan

compute_numeric_exposure_example :
    compute_numeric table (hint ∷ record open_database { exposure_class = internet } ∷ [])
    ≤ compute_numeric table (hint ∷ open_database ∷ [])
unfolding exposure_multiplier
compute_numeric_exposure_example =
    compute_numeric_exposure table (hint ∷ []) [] open_database internet (omega arith)

compute_numeric-info_noise_example :
    ratio info_cap_points (total max_part (hint ∷ passing ∷ []))
    ≤ compute_numeric table (hint ∷ passing ∷ [])
unfolding is_fail total max_part max_risk
compute_numeric-info_noise_example =
    compute_numeric-info_noise table (hint ∷ passing ∷ []) (refl, (refl, tt)) (omega arith)

compute_sub_scores_lem_example :
    (map (λ s. s.group) (compute_sub_scores table scan) ≡ select (has_findings scan) group_order)
    × All (IsScoreOf table scan) (compute_sub_scores table scan)
compute_sub_scores_lem_example = compute_sub_scores_lem table scan
