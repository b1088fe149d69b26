-- ===== src/ThreatIntel.antt =====
-- public/pages/ThreatIntel: what its forms compute.
pub mod ScanConfig
pub mod Sources
mod Tests
