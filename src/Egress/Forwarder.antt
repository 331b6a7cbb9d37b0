-- ===== src/Egress/Forwarder.antt =====
-- `GrpcForwarder` of backend/egress_publisher/src/egress_publisher/main.py: the buffer, the batches
-- that wait for the stream, and the batches that wait for their acknowledgement. `D` is the type
-- of detections; a Pub/Sub message is acknowledged by its number.
use drone_audio_sensor.Common.{
  ℕ, ◌+◌, Bool, true, false, List, [], ◌∷◌, ◌++◌, Option, none, some, leb, ◌==◌, if◌then◌else◌,
  length, map,
}
use drone_audio_sensor.Egress.Receiver.{BatchAck}

pub record Item (D : Type 0) : Type 0 where
  pub det : D
  pub ack : ℕ
  pub raw_size : ℕ

pub record PendingBatch : Type 0 where
  pub seq : ℕ
  pub acks : List ℕ
  pub proto_bytes : ℕ
  pub detection_count : ℕ

pub record Stats : Type 0 where
  pub batches_sent : ℕ
  pub batches_acked : ℕ
  pub wire_bytes : ℕ
  pub proto_bytes : ℕ
  pub json_input_bytes : ℕ
  pub detections_sent : ℕ
  pub errors : ℕ
  pub reconnects : ℕ

-- `yielded` tells that the writer of the stream stands at its `yield`; `acked` are the messages
-- that were acknowledged to Pub/Sub.
pub record Forwarder (D : Type 0) : Type 0 where
  pub buf : List (Item D)
  pub flush : Bool
  pub out_q : List (List D × PendingBatch)
  pub batch_seq : ℕ
  pub pending : List PendingBatch
  pub yielded : Bool
  pub acked : List ℕ
  pub stats : Stats

-- `pending.pop(seq, None)`.
abbrev pub find : List PendingBatch → ℕ → Option PendingBatch
find [] n = none
find (p ∷ ps) n = let rest = find ps n in if p.seq == n then some p else rest

abbrev pub discard : List PendingBatch → ℕ → List PendingBatch
discard [] n = []
discard (p ∷ ps) n = let rest = discard ps n in if p.seq == n then rest else p ∷ rest

abbrev pub dets : {D : Type 0} → List (Item D) → List D
dets = map (λ x. x.det)

abbrev pub ack_ids : {D : Type 0} → List (Item D) → List ℕ
ack_ids = map (λ x. x.ack)

module _ {D : Type 0} where
  unfoldable pub enqueue : ℕ → Forwarder D → Item D → Forwarder D
  enqueue batch_size f item = record f {
    buf = f.buf ++ item ∷ [];
    flush = if leb batch_size (length (f.buf ++ item ∷ [])) then true else f.flush;
    stats = record (f.stats) { json_input_bytes = f.stats.json_input_bytes + item.raw_size };
  }

  abbrev pub pack : (List D → ℕ) → ℕ → List (Item D) → List D × PendingBatch
  pack byte_size seq items = (
    dets items,
    record {
      seq = seq;
      acks = ack_ids items;
      proto_bytes = byte_size (dets items);
      detection_count = length items;
    },
  )

  abbrev pub packed : (List D → ℕ) → Forwarder D → List (Item D) → Forwarder D
  packed byte_size f [] = record f { flush = false }
  packed byte_size f (item ∷ items) = record f {
    flush = false;
    buf = [];
    batch_seq = f.batch_seq + 1;
    out_q = f.out_q ++ pack byte_size (f.batch_seq + 1) (item ∷ items) ∷ [];
  }

  -- One round of `_drain_into_batches`, from the end of its wait on.
  unfoldable pub drain : (List D → ℕ) → Forwarder D → Forwarder D
  drain byte_size f = packed byte_size f f.buf

  -- The count of the batch that was yielded last.
  abbrev sent_stats : Forwarder D → Stats
  sent_stats f =
      if f.yielded then record (f.stats) { batches_sent = f.stats.batches_sent + 1 } else f.stats

  abbrev pub yield_from : Forwarder D → List (List D × PendingBatch) → Forwarder D × Option (List D)
  yield_from f [] = (record f { stats = sent_stats f; yielded = false }, none)
  yield_from f ((batch, p) ∷ rest) = (
    record f {
      stats = sent_stats f;
      out_q = rest;
      pending = p ∷ discard f.pending p.seq;
      yielded = true;
    },
    some batch,
  )

  -- The writer goes on from its `yield`, and yields the next batch, which is returned.
  unfoldable pub next_request : Forwarder D → Forwarder D × Option (List D)
  next_request f = yield_from f f.out_q

  abbrev pub settle : Forwarder D → BatchAck → Option PendingBatch → Forwarder D
  settle f a none = f
  settle f a (some p) = record f {
    pending = discard f.pending a.batch_seq;
    acked = f.acked ++ p.acks;
    stats = record (f.stats) {
      batches_acked = f.stats.batches_acked + 1;
      wire_bytes = f.stats.wire_bytes + a.server_received_bytes;
      proto_bytes = f.stats.proto_bytes + p.proto_bytes;
      detections_sent = f.stats.detections_sent + p.detection_count;
    };
  }

  unfoldable pub on_ack : Forwarder D → BatchAck → Forwarder D
  on_ack f a = settle f a (find f.pending a.batch_seq)

  -- A session ends, and `run` opens the next. Where the stream raised that is one error, and
  -- otherwise every batch that waits for its acknowledgement is one.
  unfoldable pub reconnect : Forwarder D → Bool → Forwarder D
  reconnect f failed = record f {
    pending = [];
    yielded = false;
    stats = record (f.stats) {
      errors = f.stats.errors + (if failed then 1 else length f.pending);
      reconnects = f.stats.reconnects + 1;
    };
  }
