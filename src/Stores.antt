-- ===== src/Stores.antt =====
-- public/store: the stores of the browser plugin, over the services that they call.
pub mod Findings
pub mod Alerts
pub mod Documents
pub mod Rules
mod Tests
