-- ===== src/Inference.antt =====
-- The inference worker, backend/inference/src/inference: the detection gate over a device's recent
-- scores, its suppression windows, and the routing of detections.
pub mod Float
pub mod Gate
pub mod Memory
pub mod Publisher
pub mod Worker
pub mod Stream
mod Examples
