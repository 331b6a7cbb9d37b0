-- ===== src/Egress/Receiver/Totals.antt =====
-- What the receiver's statistics say of the batches that it received.
use drone_audio_sensor.Common.{
  ℕ, ◌+◌, ◌≡◌, sym, ◌∙◌, List, [], ◌∷◌, String, ltb, arith, if◌then◌else◌, length,
}
use drone_audio_sensor.Egress.Receiver.{ReceiverStats, reset, record_batch}

-- The bytes, the number of detections and the time of a batch.
pub record Receipt : Type 0 where
  pub bytes : ℕ
  pub detections : ℕ
  pub now_ms : ℕ

abbrev pub record_all : ReceiverStats → List Receipt → ReceiverStats
record_all s [] = s
record_all s (r ∷ rs) = record_all (record_batch s r.bytes r.detections r.now_ms) rs

abbrev pub total : (Receipt → ℕ) → List Receipt → ℕ
total f [] = 0
total f (r ∷ rs) = f r + total f rs

abbrev greater : ℕ → ℕ → ℕ
greater a b = if ltb a b then b else a

-- The bytes of the largest batch, and 0 where there is none.
abbrev pub largest : List Receipt → ℕ
largest [] = 0
largest (r ∷ rs) = greater r.bytes (largest rs)

greater_assoc : (a b c : ℕ) → greater (greater a b) c ≡ greater a (greater b c)
greater_assoc a b c = ground arith

greater_zero : (a : ℕ) → greater a 0 ≡ a
greater_zero a = ground arith

record_all_lem :
    (s : ReceiverStats) (rs : List Receipt)
    → let s' = record_all s rs in
      (s'.batches_received ≡ s.batches_received + length rs)
      × (s'.detections_received ≡ s.detections_received + total (λ r. r.detections) rs)
      × (s'.wire_bytes_received ≡ s.wire_bytes_received + total (λ r. r.bytes) rs)
      × (s'.proto_bytes_received ≡ s.proto_bytes_received + total (λ r. r.bytes) rs)
      × (s'.max_single_batch_bytes ≡ greater s.max_single_batch_bytes (largest rs))
unfolding record_batch
record_all_lem s [] = (
  omega arith,
  omega arith,
  omega arith,
  omega arith,
  sym (greater_zero s.max_single_batch_bytes),
)
record_all_lem s (r ∷ rs) =
    let (a, b, c, d, m) = record_all_lem (record_batch s r.bytes r.detections r.now_ms) rs in
    (
      omega arith,
      omega arith,
      omega arith,
      omega arith,
      m ∙ greater_assoc s.max_single_batch_bytes r.bytes (largest rs),
    )

-- From a reset on, the statistics are those of the batches that were received: their number, their
-- detections, their bytes, counted twice, and the bytes of the largest.
pub record_all-largest :
    (tag : String) (now_ms : ℕ) (rs : List Receipt)
    → let s = record_all (reset tag now_ms) rs in
      (s.batches_received ≡ length rs)
      × (s.detections_received ≡ total (λ r. r.detections) rs)
      × (s.wire_bytes_received ≡ total (λ r. r.bytes) rs)
      × (s.proto_bytes_received ≡ s.wire_bytes_received)
      × (s.max_single_batch_bytes ≡ largest rs)
unfolding reset
record_all-largest tag now_ms rs =
    let (a, b, c, d, m) = record_all_lem (reset tag now_ms) rs in
    (omega arith, omega arith, omega arith, omega arith, m ∙ zero_greater (largest rs))
  where
    zero_greater : (a : ℕ) → greater 0 a ≡ a
    zero_greater a = ground arith
