-- ===== src/Egress/Receiver.antt =====
-- `_Stats` and `EgressReceiverServicer` of backend/egress_receiver/src/egress_receiver/main.py.
pub mod Totals
use drone_audio_sensor.Common.{ℕ, ◌+◌, Bool, String, ltb, if◌then◌else◌}

pub record ReceiverStats : Type 0 where
  pub test_run_tag : String
  pub batches_received : ℕ
  pub detections_received : ℕ
  pub wire_bytes_received : ℕ
  pub proto_bytes_received : ℕ
  pub errors : ℕ
  pub max_single_batch_bytes : ℕ
  pub started_at_unix_ms : ℕ
  pub last_batch_at_unix_ms : ℕ

unfoldable pub reset : String → ℕ → ReceiverStats
reset tag now_ms = record {
  test_run_tag = tag;
  batches_received = 0;
  detections_received = 0;
  wire_bytes_received = 0;
  proto_bytes_received = 0;
  errors = 0;
  max_single_batch_bytes = 0;
  started_at_unix_ms = now_ms;
  last_batch_at_unix_ms = 0;
}

unfoldable pub record_batch : ReceiverStats → ℕ → ℕ → ℕ → ReceiverStats
record_batch s proto_bytes detections now_ms = record s {
  batches_received = s.batches_received + 1;
  detections_received = s.detections_received + detections;
  wire_bytes_received = s.wire_bytes_received + proto_bytes;
  proto_bytes_received = s.proto_bytes_received + proto_bytes;
  max_single_batch_bytes =
      if ltb s.max_single_batch_bytes proto_bytes then proto_bytes else s.max_single_batch_bytes;
  last_batch_at_unix_ms = now_ms;
}

-- The end of a stream; where it raises an `RpcError`, that is counted.
unfoldable pub stream_end : ReceiverStats → Bool → ReceiverStats
stream_end s raised = if raised then record s { errors = s.errors + 1 } else s

-- `BatchAck`.
pub record BatchAck : Type 0 where
  pub batch_seq : ℕ
  pub server_received_bytes : ℕ
