-- ===== src/Argos.antt =====
-- The bridges to the Argos sensors, scripts/argos_bridge/ and scripts/argos_live_pull/.
pub mod Stations
pub mod Names
pub mod Locate
pub mod Bridge
pub mod Heard
pub mod Again
pub mod Sent
pub mod Tally
pub mod Retry
pub mod Live
pub mod Handlers
pub mod Numbers
mod Examples
