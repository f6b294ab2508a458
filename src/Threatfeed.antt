-- ===== src/Threatfeed.antt =====
-- internal/threatfeed: the embedded table of known-exploited CVEs and EPSS percentiles. The table
-- itself is generated data and is an argument; percentiles stay in buckets, 200 to the unit.
pub mod Record
pub mod Cve
pub mod Lookup
pub mod Generator
