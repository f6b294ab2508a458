-- ===== src/Intel.antt =====
-- internal/intel: reference data on ports and images.
pub mod Ports
pub mod Images
pub mod Capabilities
pub mod Cves
