-- ===== src/Tak/Examples.antt =====
-- The publisher's results at concrete detections and connections.
use drone_audio_sensor.Common.{
  false, ℕ, ◌≡◌, refl, ◌↔◌, Bool, true, not, [], ◌∷◌, ◌++◌, none, some, String, arith,
}
use drone_audio_sensor.Common.Int.{pos}
use drone_audio_sensor.Tak.Client.{Try, Write, drained, connection_failed, Drains, sent, writes}
use drone_audio_sensor.Tak.Event.{
  Detection, CotEvent, number, refused, placed, CotSettings, Format, build_event, remarks_of,
  detected_at,
}
use drone_audio_sensor.Tak.Bridge.{
  Delivery, IncomingMessage, Bridge, incoming, on_message, handle, turn, handle_lem,
  redelivery_lost,
}

abbrev printing : Format ℕ
printing = record {
  zero = 0;
  two_digits = λ n. "0.90";
  decimal = λ n. "1";
  is_datetime = λ t. true;
}

abbrev settings : CotSettings
settings = record {
  cot_uid_prefix = "drone";
  cot_event_type = "a-u-A";
  cot_stale_seconds = 120;
  cot_group_name = "Cyan";
}

abbrev to_xml_bytes : CotEvent ℕ → String
to_xml_bytes e = e.uid

abbrev body : Detection ℕ
body = record {
  detection_id = some "x1";
  device_id = some "d1";
  site_label = none;
  average_score = number 90;
  peak_score = number 95;
  model_name = some "m";
  model_version = some "v";
  last_frame_timestamp_ms = some (pos 1000);
  published_at_ms = some (pos 1100);
  frames_over_threshold = none;
  window_frames = none;
  device_location =
      some (record { latitude = some 1; longitude = some 2; altitude_m = none; accuracy_m = none });
}

abbrev delivery : ℕ → Delivery ℕ
delivery n = record {
  ack_id = n;
  message_id = "p1";
  detection_id = some "x1";
  device_id = some "d1";
  body = some body;
}

abbrev idle : Bridge ℕ String
idle = record {
  dedup = record { cap = 2; store = "x0" ∷ [] };
  queue = [];
  tak = record { connected = true; attempt = 0; connections = 1; written = []; flushed = [] };
  crashed = false;
  events_sent = 0;
  events_dropped = 0;
  acked = [];
  nacked = [];
}

abbrev try : Write → Try
try o = record { refusals = 1; outcome = o }

abbrev marker : CotEvent ℕ
marker = record {
  uid = "drone.x1";
  cot_type = "a-u-A";
  time = pos 1000;
  start = pos 1000;
  stale = pos 121000;
  lat = 1;
  lon = 2;
  hae = none;
  ce = none;
  le = none;
  callsign = "d1";
  group_name = "Cyan";
  remarks = "Drone audio detection from d1 | avg=0.90 peak=0.90 | model=m/v";
}

built : build_event printing settings body 5 ≡ placed marker
unfolding build_event remarks_of detected_at
built = refl

abbrev queued : IncomingMessage ℕ
queued = incoming printing settings to_xml_bytes (delivery 1) body

handle_lem_example :
    (ok : Bool) × ((ok ≡ true) ↔ Drains connection_failed drained)
    × ((handle printing settings to_xml_bytes idle queued 5
          (try connection_failed)
          (try drained)).tak.flushed
        ≡ [] ++ sent ok (to_xml_bytes marker))
    × ((handle printing settings to_xml_bytes idle queued 5
          (try connection_failed)
          (try drained)).tak.written
        ≡ [] ++ writes connection_failed (to_xml_bytes marker))
    × ((handle printing settings to_xml_bytes idle queued 5
          (try connection_failed)
          (try drained)).acked
        ≡ [] ++ sent ok 1)
    × ((handle printing settings to_xml_bytes idle queued 5
          (try connection_failed)
          (try drained)).nacked
        ≡ [] ++ sent (not ok) 1)
handle_lem_example =
    handle_lem printing settings to_xml_bytes idle queued 5 (try connection_failed) (try drained)
      marker built

redelivery_lost_example :
    let failed =
      turn printing settings to_xml_bytes
        (on_message printing settings to_xml_bytes idle (delivery 1))
        5
        (try connection_failed)
        (try connection_failed) in
    let again = on_message printing settings to_xml_bytes failed (delivery 2) in
    (failed.nacked ≡ [] ++ 1 ∷ [])
    × (again.acked ≡ [] ++ 2 ∷ [])
    × (again.queue ≡ [])
    × (again.tak.flushed ≡ [])
redelivery_lost_example =
    redelivery_lost printing settings to_xml_bytes idle (delivery 1) (delivery 2) body 5
      (try connection_failed) (try connection_failed) marker refl (omega arith) refl refl refl refl
      built (λ d. ground arith)

-- A score that is null raises outside of the handler's `try`: the loop ends, and the message is
-- neither acknowledged nor refused.
abbrev null_score : IncomingMessage ℕ
null_score = record queued { body = record body { peak_score = refused } }

null_score_crashes :
    let after =
      handle printing settings to_xml_bytes idle null_score 5 (try drained) (try drained) in
    (after.crashed ≡ true) × (after.acked ≡ []) × (after.nacked ≡ [])
unfolding handle build_event detected_at
null_score_crashes = (refl, refl, refl)
