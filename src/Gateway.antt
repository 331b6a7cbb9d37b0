-- ===== src/Gateway.antt =====
-- The gateway service, backend/gateway/src/gateway: what it stores, its registry over Firestore,
-- its hot state in Redis, the authentication of devices, and the handler of one device's stream.
pub mod Store
pub mod Registry
pub mod HotState
pub mod Auth
pub mod Session
pub mod Admission
pub mod Stream
pub mod Fixtures
mod Examples
