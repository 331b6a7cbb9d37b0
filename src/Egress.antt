-- ===== src/Egress.antt =====
-- The egress of detections to a receiver in another project: backend/egress_publisher, which
-- batches them, and backend/egress_receiver, which counts the batches and acknowledges them.
pub mod Forwarder
pub mod Receiver
pub mod Link
pub mod Message
pub mod Lifted
mod Examples
