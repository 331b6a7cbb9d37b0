-- ===== src/Replay.antt =====
-- The load test of scripts/replay_fleet.py: the clip that is played in a loop, the ground truth of a
-- clip, and the collector of detections.
pub mod Clip
pub mod Truth
pub mod Runs
pub mod Collector
pub mod Session
pub mod Puts
pub mod Stuck
mod Examples
