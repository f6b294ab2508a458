-- ===== src/Tests.antt =====
-- Runs at concrete inputs, and the theorems applied at such inputs.
mod Std
mod Samples
mod Scoring
mod Exposure
mod Stores
mod Probing
mod Scans
mod Rules
