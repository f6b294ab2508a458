-- ===== src/Model.antt =====
-- internal/model: the data that every part of the scanner shares.
pub mod Finding
pub mod Check
pub mod Signals
pub mod Stack
pub mod Scan
pub mod Result
