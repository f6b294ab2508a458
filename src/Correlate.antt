-- ===== src/Correlate.antt =====
-- internal/correlate: the exposure class of a finding, and the report on ports.
pub mod Firewall
pub mod Binds
pub mod Ports
pub mod Controls
pub mod Classify
pub mod Report
