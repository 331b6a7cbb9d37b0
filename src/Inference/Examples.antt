-- ===== src/Inference/Examples.antt =====
-- The worker's results at concrete frames, with natural numbers for the floats, and tests.
use drone_audio_sensor.Common.{
  suc, ◌*◌, ◌≤◌, ◌||◌, length, ◌↔◌, ℕ, ◌+◌, ◌≡◌, refl, ◌⊎◌, inl, true, false, not, ◌&&◌, List, [],
  ◌∷◌, ◌++◌, none, some, String, arith, leb, ltb, str_eq, str_eq_iff,
}
use drone_audio_sensor.Common.Int.{ℤ, pos, eq_ℤ}
use drone_audio_sensor.Inference.Float.{Float, IsIeee}
use drone_audio_sensor.Inference.Gate.{
  FrameInput, FrameScore, Entry, DetectionEvent, Settings, evaluate, gate, gate_without_veto,
  build_detection, categorize,
}
use drone_audio_sensor.Inference.Gate.Veto.{without_veto, veto_only_suppresses}
use drone_audio_sensor.Inference.Worker.Watchdog.{
  second, check_interval, watchdog, Sleeps, ExitsAt, watchdog-exits,
}
use drone_audio_sensor.Inference.Memory.{
  Redis, is_old, append_score, is_suppressed, mark_suppressed, record_fire_and_chronic,
}
use drone_audio_sensor.Inference.Memory.Chronic.{has_time, IsDistinct, record_fire_and_chronic_lem}
use drone_audio_sensor.Inference.Memory.Buffer.{appended, appended-take}
use drone_audio_sensor.Inference.Publisher.{
  Services, publish, message_of, attributes_of, effective_reason, write_doc, lookup_device_fields,
}
use drone_audio_sensor.Inference.Publisher.Routing.{written, publish_suppressed}
use drone_audio_sensor.Inference.Worker.{
  Worker, Moment, Outside, handle_frame, decode_payload, entry_of, judge, decide, audit, fire,
}
use drone_audio_sensor.Inference.Worker.Alerts.{
  Silent, Alerted, extended, evidence, handle_frame-cases,
}
use drone_audio_sensor.Inference.Worker.Cooldown.{about, run, run_cooldown}

-- Scores in hundredths, and whole seconds.
abbrev numbers : Float
numbers = record {
  Num = ℕ;
  zero = 0;
  le = leb;
  lt = ltb;
  add = λ a b. a + b;
  divide = λ a n. a;
  seconds = λ bytes rate. bytes;
}

numbers-IsIeee : IsIeee numbers
numbers-IsIeee = record {
  le_zero = refl;
  le_trans = λ a b c h g. ground arith;
  add_nonneg = λ a x h g. ground arith;
  add_mono = λ a b x h g k. ground arith;
  le_add = λ a x h g. ground arith;
}

abbrev settings : Settings ℕ
settings = record {
  score_buffer_size = 5;
  redis_ttl_seconds = 600;
  detection_threshold = 70;
  min_seconds_over_threshold = 3;
  suppression_window_seconds = 60;
  confounder_veto_enabled = true;
  confounder_veto_threshold = 30;
  chronic_mute_enabled = true;
  chronic_window_seconds = 600;
  chronic_alert_threshold = 4;
  model_name = "Angels Envy";
  model_version = "angels-envy-2026.06-hardneg";
  drone_trigger = 50;
  uncertain_low = 20;
}

abbrev heard : ℕ → Entry ℕ
heard conf = record { seq = pos 1; ts = pos 1000; drone = 90; aux = 0; frame_s = 4; conf = conf }

abbrev score : FrameScore ℕ
score = record {
  drone_score = 90;
  auxiliary_score = 0;
  class_scores = [];
  subtype_label = "no_drone";
  subtype_confidence = 0;
  subtype_probs = [];
  confounder_score = 0;
}

abbrev outside : Outside ℕ
outside = record { sound_file = λ bytes. none; infer_pcm16 = λ pcm rate. some score }

abbrev frame : String → FrameInput
frame d = record {
  device_id = d;
  session_id = "s1";
  sequence = pos 1;
  capture_timestamp_ms = pos 1000;
  sample_rate_hz = pos 16000;
  site_label = "north";
  pcm16_mono = 1 ∷ 2 ∷ 3 ∷ 4 ∷ [];
  codec = "";
}

abbrev services : Services ℕ
services = record { device = none; message_id = some "p1"; takes_doc = true; now_ms = 2000 }

abbrev moment : ℕ → Moment ℕ
moment t = record {
  detection_id = "x1";
  services = services;
  append_at = t;
  scored_at = t;
  check_at = t;
  fire_at = t;
  mark_at = t;
}

abbrev worker : Worker ℕ
worker = record {
  redis = record { scores = λ id. none; suppression = λ id. none; fires = λ id. none };
  sinks = record { topic = []; docs = [] };
  counters = record {
    frames_processed = 0;
    detections_emitted = 0;
    detections_chronic_muted = 0;
    detections_veto_suppressed = 0;
    detections_cooldown_suppressed = 0;
  };
  last_frame_at = 0;
}

abbrev detection : String → DetectionEvent ℕ
detection reason = record {
  detection_id = "x1";
  device_id = "d1";
  session_id = "s1";
  first_frame_sequence = pos 1;
  last_frame_sequence = pos 1;
  first_frame_timestamp_ms = pos 1000;
  last_frame_timestamp_ms = pos 1000;
  average_score = 90;
  peak_score = 90;
  frames_over_threshold = 1;
  window_frames = 1;
  threshold = 70;
  site_label = "north";
  model_name = "m";
  model_version = "v";
  class_scores = [];
  subtype_label = "no_drone";
  subtype_confidence = 0;
  subtype_probs = [];
  category = "unknown_drone";
  category_display = "Unknown drone";
  chronic_suppressed = false;
  chronic_recent_count = 0;
  suppression_reason = reason;
  vetoed_frames = 0;
}

fires : (evaluate numbers settings (heard 0 ∷ [])).should_trigger ≡ true
unfolding evaluate gate
fires = refl

veto_only_suppresses_example :
    (evaluate numbers (without_veto settings) (heard 0 ∷ [])).should_trigger ≡ true
veto_only_suppresses_example =
    veto_only_suppresses numbers numbers-IsIeee settings (heard 0 ∷ []) (refl, tt) fires

publish_suppressed_example :
    ((publish services worker.sinks (detection "cooldown")).1 ≡ some "")
    × ((publish services worker.sinks (detection "cooldown")).0.topic ≡ [])
    × ((publish services worker.sinks (detection "cooldown")).0.docs
        ≡ [] ++ written true (message_of services (detection "cooldown")) "")
    × (str_eq (message_of services (detection "cooldown")).suppression_reason "" ≡ false)
publish_suppressed_example =
    publish_suppressed services worker.sinks (detection "cooldown")
      (inl (λ e. ground (arith, (str_eq_iff "cooldown" "").1 e)))

handle_frame-cases_example :
    (Silent numbers settings outside worker
      (handle_frame numbers settings outside (moment 10) (frame "d1") worker))
    ⊎ ((pcm : List ℕ) × (rate : ℤ) × (s : FrameScore ℕ) × (decode_payload numbers settings outside
            (frame "d1")
          ≡ some (pcm, rate))
        × (outside.infer_pcm16 pcm rate ≡ some s)
        × (let entry = entry_of numbers settings outside (frame "d1") pcm rate s in
            ((evaluate numbers settings (
                evidence numbers settings outside
                  (moment 10)
                  (frame "d1")
                  worker
                  entry)).should_trigger
              ≡ true)
            × Alerted numbers settings outside
                (moment 10)
                (frame "d1")
                (extended numbers settings outside (moment 10) (frame "d1") worker entry)
                (handle_frame numbers settings outside (moment 10) (frame "d1") worker)))
handle_frame-cases_example =
    handle_frame-cases numbers settings outside (moment 10) (frame "d1") worker

run_cooldown_example :
    (Silent numbers settings outside worker
      (handle_frame numbers settings outside (moment 10) (frame "d1") worker))
    ⊎ (about "d1"
          (run numbers settings outside
            ((moment 10, frame "d1") ∷ (moment 20, frame "d1") ∷ (moment 90, frame "d2") ∷ [])
            worker).sinks.topic
        ≡ about "d1"
            (handle_frame numbers settings outside (moment 10) (frame "d1") worker).0.sinks.topic)
run_cooldown_example =
    run_cooldown numbers settings outside (moment 10) (frame "d1") worker
      ((moment 20, frame "d1") ∷ (moment 90, frame "d2") ∷ [])
      ((λ same. omega arith), ((λ same. ground (arith, (str_eq_iff "d2" "d1").1 same)), tt))

-- The first frame alerts, the second comes in its window, the third after it.
three_frames :
    about "d1"
      (run numbers settings outside
        ((moment 10, frame "d1") ∷ (moment 20, frame "d1") ∷ (moment 70, frame "d1") ∷ [])
        worker).sinks.topic
    ≡ 2
unfolding handle_frame decode_payload entry_of judge decide audit fire evaluate gate build_detection
    categorize append_score is_suppressed mark_suppressed record_fire_and_chronic publish
    effective_reason message_of attributes_of write_doc lookup_device_fields gate_without_veto
three_frames = refl

abbrev three_scores : List (ℕ × Entry ℕ)
three_scores = (30, heard 3) ∷ (20, heard 2) ∷ (10, heard 1) ∷ []

abbrev small : Settings ℕ
small = record settings { score_buffer_size = 2 }

appended-take_example : (appended small worker.redis "d1" three_scores).1 ≡ heard 3 ∷ heard 2 ∷ []
appended-take_example =
    appended-take small worker.redis "d1" three_scores (omega arith) refl
      (omega arith, (omega arith, tt))

abbrev fired_thrice : Redis ℕ
fired_thrice = record (worker.redis) {
  fires = λ id. some (record { value = pos 5000 ∷ pos 1000 ∷ pos 3000 ∷ []; expires_at = 100 });
}

record_fire_and_chronic_lem_example :
    let o = record_fire_and_chronic settings fired_thrice 7 "d1" (pos 601000) in
    (fires : List ℤ) × IsDistinct fires
    × ((x : ℤ)
        → has_time fires x ≡ (
            (has_time (pos 5000 ∷ pos 1000 ∷ pos 3000 ∷ []) x || eq_ℤ (pos 601000) x)
            && not (is_old (pos 601000) 600000 x)))
    × (o.0.fires "d1" ≡ some (record { value = fires; expires_at = 667 }))
    × (o.2 ≡ length fires)
    × ((o.1 ≡ true) ↔ (4 ≤ length fires))
record_fire_and_chronic_lem_example =
    record_fire_and_chronic_lem settings fired_thrice 7 "d1" (pos 601000) refl
      (refl, (refl, (refl, tt)))

-- Sleeps of 75 seconds, and no frame at all.
abbrev wakes : ℕ → ℕ
wakes k = suc k * (75 * second)

wakes-Sleeps : Sleeps 300 wakes (λ k. 0) (check_interval 0 300)
unfolding check_interval
wakes-Sleeps k = omega arith

watchdog-exits_example :
    (r : ℕ) × (r ≤ 301)
    × (watchdog 300 wakes (λ k. 0) 302 0 ≡ some r)
    × ExitsAt 300 wakes (λ k. 0) 0 r
watchdog-exits_example = watchdog-exits 0 300 0 wakes (λ k. 0) wakes-Sleeps (λ k. omega arith)
