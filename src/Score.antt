-- ===== src/Score.antt =====
-- internal/score: the posture score and the overall rating of a set of findings.
pub mod Grade
pub mod Regrade
pub mod V1
pub mod Risk
pub mod Numeric
pub mod Cap
pub mod V2
