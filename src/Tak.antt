-- ===== src/Tak.antt =====
-- The publisher of detections to a TAK server, backend/tak_publisher/src/tak_publisher.
pub mod Dedup
pub mod Client
pub mod Event
pub mod Bridge
mod Examples
