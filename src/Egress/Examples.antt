-- ===== src/Egress/Examples.antt =====
-- The egress's results at concrete messages.
use drone_audio_sensor.Common.{
  ℕ, ◌≡◌, refl, true, List, [], ◌∷◌, ◌++◌, String, length, All, Bool, false, none, some, ◌==◌,
}
use drone_audio_sensor.Common.Int.{pos}
use drone_audio_sensor.Egress.Receiver.{ReceiverStats}
use drone_audio_sensor.Egress.Forwarder.{Item, Stats, Forwarder}
use drone_audio_sensor.Egress.Message.{
  Body, Detection, missing, body_of, to_proto, on_message, raised,
}
use drone_audio_sensor.Inference.Gate.{DetectionEvent}
use drone_audio_sensor.Inference.Publisher.{Services, Sinks, message_of}
use drone_audio_sensor.Egress.Link.{
  Link, Event, message, round, request, receive, acknowledge, steps, start,
}
use drone_audio_sensor.Egress.Link.Invariant.{IsCounted}
use drone_audio_sensor.Egress.Link.Safety.{steps-IsCounted}
use drone_audio_sensor.Egress.Link.Reconnect.{idle, delivery, reconnect_unacked}

abbrev no_stats : Stats
no_stats = record {
  batches_sent = 0;
  batches_acked = 0;
  wire_bytes = 0;
  proto_bytes = 0;
  json_input_bytes = 0;
  detections_sent = 0;
  errors = 0;
  reconnects = 0;
}

abbrev no_counts : ReceiverStats
no_counts = record {
  test_run_tag = "";
  batches_received = 0;
  detections_received = 0;
  wire_bytes_received = 0;
  proto_bytes_received = 0;
  errors = 0;
  max_single_batch_bytes = 0;
  started_at_unix_ms = 1;
  last_batch_at_unix_ms = 0;
}

abbrev item : Item String
item = record { det = "drone"; ack = 7; raw_size = 20 }

abbrev size : List String → ℕ
size b = 10

abbrev once : List (Event String)
once = message item ∷ round ∷ request ∷ receive 3 ∷ acknowledge ∷ []

abbrev opening : Link String
opening = start no_stats no_counts

steps-IsCounted_example :
    All
      (IsCounted (λ (x : Item String). x.ack ≡ 7) (steps size 100 opening once).counted)
      (steps size 100 opening once).fwd.acked
steps-IsCounted_example =
    steps-IsCounted (λ (x : Item String). x.ack ≡ 7) size 100 no_stats no_counts once
      (refl, (tt, (tt, (tt, (tt, tt)))))

reconnect_unacked_example :
    let l' = steps size 100 (idle 1 opening) (delivery item 3 true) in
    (l'.counted ≡ [] ++ ("drone" ∷ []) ∷ [])
    × (l'.down ≡ [])
    × (l'.fwd.acked ≡ [])
    × (length l'.fwd.pending ≡ 1)
reconnect_unacked_example = reconnect_unacked size 100 opening 0 item 3 true

abbrev services : Services ℕ
services = record { device = none; message_id = some "p1"; takes_doc = true; now_ms = 2000 }

abbrev sinks : Sinks ℕ
sinks = record { topic = []; docs = [] }

abbrev live_event : DetectionEvent ℕ
live_event = record {
  detection_id = "x1";
  device_id = "d1";
  session_id = "s1";
  first_frame_sequence = pos 1;
  last_frame_sequence = pos 4;
  first_frame_timestamp_ms = pos 1000;
  last_frame_timestamp_ms = pos 4000;
  average_score = 80;
  peak_score = 90;
  frames_over_threshold = 3;
  window_frames = 4;
  threshold = 70;
  site_label = "north";
  model_name = "m";
  model_version = "v";
  class_scores = [];
  subtype_label = "no_drone";
  subtype_confidence = 0;
  subtype_probs = [];
  category = "unknown_drone";
  category_display = "Unknown drone";
  chronic_suppressed = false;
  chronic_recent_count = 0;
  suppression_reason = "";
  vetoed_frames = 0;
}

abbrev is_zero : ℕ → Bool
is_zero x = x == 0

abbrev narrow : ℕ → ℕ
narrow x = x

abbrev forwarder : Forwarder (Detection ℕ)
forwarder = (start no_stats no_counts).fwd

-- A message without a category raises in the callback, and is not acknowledged.
abbrev no_category : Body ℕ
no_category = record (body_of (message_of services live_event)) { category = missing }

category_needed : on_message 0 is_zero narrow 100 forwarder 7 20 (some no_category) ≡ raised
unfolding on_message to_proto
category_needed = refl
