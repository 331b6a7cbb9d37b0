-- ===== src/Egress/Link.antt =====
-- The publisher and the receiver over one stream after the other, as steps of both.
-- gRPC keeps the order of the messages of a stream in each direction, and loses those that are
-- under way when it ends.
pub mod Invariant
pub mod Safety
pub mod Reconnect
use drone_audio_sensor.Common.{ℕ, ◌+◌, Bool, false, List, [], ◌∷◌, ◌++◌, Option, none, some, length}
use drone_audio_sensor.Egress.Receiver.{ReceiverStats, BatchAck, record_batch, stream_end}
use drone_audio_sensor.Egress.Forwarder.{
  Forwarder, Stats, Item, enqueue, drain, next_request, on_ack, reconnect,
}

-- `seq` is the receiver's count on the stream; `up` and `down` are what is under way. `counted` is
-- the history of the batches that the receiver has counted.
pub record Link (D : Type 0) : Type 0 where
  pub fwd : Forwarder D
  pub up : List (List D)
  pub seq : ℕ
  pub down : List BatchAck
  pub stats : ReceiverStats
  pub counted : List (List D)

-- `lose` ends the stream: whether it raised in the publisher, and in the receiver.
pub data Event (D : Type 0) : Type 0 where
  message : Item D → Event D
  round : Event D
  request : Event D
  receive : ℕ → Event D
  acknowledge : Event D
  lose : Bool → Bool → Event D

-- Both processes as they start.
abbrev pub start : {D : Type 0} → Stats → ReceiverStats → Link D
start sent counts = record {
  fwd = record {
    buf = [];
    flush = false;
    out_q = [];
    batch_seq = 0;
    pending = [];
    yielded = false;
    acked = [];
    stats = sent;
  };
  up = [];
  seq = 0;
  down = [];
  stats = counts;
  counted = [];
}

module _ {D : Type 0} (byte_size : List D → ℕ) (batch_size : ℕ) where
  abbrev push_up : List (List D) → Option (List D) → List (List D)
  push_up up none = up
  push_up up (some batch) = up ++ batch ∷ []

  -- The body of the loop of `StreamBatches`.
  unfoldable pub stream_batch : Link D → ℕ → List D → List (List D) → Link D
  stream_batch l now_ms batch rest = record l {
    up = rest;
    seq = l.seq + 1;
    stats = record_batch l.stats (byte_size batch) (length batch) now_ms;
    down = l.down ++ record { batch_seq = l.seq + 1; server_received_bytes = byte_size batch } ∷ [];
    counted = l.counted ++ batch ∷ [];
  }

  abbrev pub received : Link D → ℕ → List (List D) → Link D
  received l now_ms [] = l
  received l now_ms (batch ∷ rest) = stream_batch l now_ms batch rest

  abbrev pub acknowledged : Link D → List BatchAck → Link D
  acknowledged l [] = l
  acknowledged l (a ∷ rest) = record l { fwd = on_ack l.fwd a; down = rest }

  abbrev pub requested : Link D → Forwarder D × Option (List D) → Link D
  requested l (fwd, out) = record l { fwd = fwd; up = push_up l.up out }

  unfoldable pub step : Link D → Event D → Link D
  step l (message item) = record l { fwd = enqueue batch_size l.fwd item }
  step l round = record l { fwd = drain byte_size l.fwd }
  step l request = requested l (next_request l.fwd)
  step l (receive now_ms) = received l now_ms l.up
  step l acknowledge = acknowledged l l.down
  step l (lose failed raised) = record l {
    fwd = reconnect l.fwd failed;
    up = [];
    down = [];
    seq = 0;
    stats = stream_end l.stats raised;
  }

  abbrev pub steps : Link D → List (Event D) → Link D
  steps l [] = l
  steps l (e ∷ es) = steps (step l e) es
