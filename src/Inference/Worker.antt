-- ===== src/Inference/Worker.antt =====
-- `InferenceWorker._handle_frame` of backend/inference/src/inference/worker.py, whole: decoding,
-- scoring, the gate, the suppression mechanisms in their order, and publication.
-- The decoder of FLAC and WAV (libsndfile) and the model are parameters.
pub mod Alerts
pub mod Windows
pub mod Cooldown
pub mod Watchdog
use drone_audio_sensor.Common.{
  ℕ, ◌+◌, Bool, true, false, not, List, [], ◌∷◌, Option, none, some, String, if◌then◌else◌, str_eq,
  ◌||◌, length,
}
use drone_audio_sensor.Common.Int.{ℤ, is_zero}
use drone_audio_sensor.Inference.Float.{Float}
use drone_audio_sensor.Inference.Gate.{
  FrameInput, FrameScore, Entry, EvaluateResult, DetectionEvent, Settings, evaluate,
  build_detection,
}
use drone_audio_sensor.Inference.Memory.{
  Redis, append_score, is_suppressed, mark_suppressed, record_fire_and_chronic,
}
use drone_audio_sensor.Inference.Publisher.{Services, Sinks, publish}

pub record Counters : Type 0 where
  pub frames_processed : ℕ
  pub detections_emitted : ℕ
  pub detections_chronic_muted : ℕ
  pub detections_veto_suppressed : ℕ
  pub detections_cooldown_suppressed : ℕ

pub record Worker (N : Type 0) : Type 0 where
  pub redis : Redis N
  pub sinks : Sinks N
  pub counters : Counters
  pub last_frame_at : ℕ

-- What surrounds one frame: the id that `uuid4` makes, the answers of the services to the one call
-- of `publish`, the server's clock at the four visits of Redis, and the reading of `time.monotonic`, in
-- nanoseconds, at which the frame is counted.
pub record Moment (N : Type 0) : Type 0 where
  pub detection_id : String
  pub services : Services N
  pub append_at : ℕ
  pub scored_at : ℕ
  pub check_at : ℕ
  pub fire_at : ℕ
  pub mark_at : ℕ

-- The state that is left, and whether the handler returns (`false` where it raises).
abbrev pub Handled : Type 0 → Type 0
Handled N = Worker N × Bool

-- What is outside the source: libsndfile on FLAC and WAV bytes, with the samples' bytes and rate,
-- and the model on 16-bit samples. `none` is an exception.
pub record Outside (N : Type 0) : Type 0 where
  pub sound_file : List ℕ → Option (List ℕ × ℤ)
  pub infer_pcm16 : List ℕ → ℤ → Option (FrameScore N)

abbrev returned : Option String → Bool
returned none = false
returned (some id) = true

module _ (fl : Float) (cfg : Settings (fl.Num)) (out : Outside (fl.Num)) where
  open fl use {Num}

  -- `_decode_payload`.
  unfoldable pub decode_payload : FrameInput → Option (List ℕ × ℤ)
  decode_payload f =
      if str_eq f.codec "" || str_eq f.codec "pcm16"
      then some (f.pcm16_mono, f.sample_rate_hz)
      else if str_eq f.codec "flac" || str_eq f.codec "wav"
      then out.sound_file f.pcm16_mono
      else none

  abbrev label : DetectionEvent Num → String → DetectionEvent Num
  label e reason = record e { suppression_reason = reason }

  -- An audited attempt: the event goes out with its reason, and then it is counted.
  unfoldable pub audit :
      Moment Num → Worker Num → DetectionEvent Num → (Counters → Counters) → Handled Num
  audit m w e count =
      let (sinks, id) = publish m.services w.sinks e in
      if returned id
      then (record w { sinks = sinks; counters = count w.counters }, true)
      else (record w { sinks = sinks }, false)

  abbrev one_veto : Counters → Counters
  one_veto c = record c { detections_veto_suppressed = c.detections_veto_suppressed + 1 }

  abbrev one_cooldown : Counters → Counters
  one_cooldown c = record c {
    detections_cooldown_suppressed = c.detections_cooldown_suppressed + 1;
  }

  abbrev one_alert : Bool → Counters → Counters
  one_alert chronic c =
      if chronic
      then record c { detections_chronic_muted = c.detections_chronic_muted + 1 }
      else record c { detections_emitted = c.detections_emitted + 1 }

  -- The event of a fire, with what the chronic gate found.
  abbrev fired : DetectionEvent Num → Bool → ℕ → DetectionEvent Num
  fired e chronic count = record e {
    chronic_suppressed = chronic;
    chronic_recent_count = count;
    suppression_reason = if chronic then "chronic" else e.suppression_reason;
  }

  -- The gate fired and no window is open: the fire is recorded, the window opens, the event goes.
  unfoldable pub fire : Moment Num → FrameInput → Worker Num → DetectionEvent Num → Handled Num
  fire m f w e =
      let (redis, chronic, count) =
        record_fire_and_chronic cfg w.redis m.fire_at f.device_id f.capture_timestamp_ms in
      audit m (record w { redis = mark_suppressed cfg redis m.mark_at f.device_id e.detection_id })
        (fired e chronic count) (one_alert chronic)

  -- `build_detection` raises where it gives no event.
  abbrev with_event :
      Option (DetectionEvent Num) → Worker Num → (DetectionEvent Num → Handled Num) → Handled Num
  with_event none w k = (w, false)
  with_event (some e) w k = k e

  -- The outcomes of the gate. The event is the one that `build_detection` makes in each branch.
  unfoldable pub decide :
      Moment Num
      → FrameInput
      → Worker Num
      → EvaluateResult Num
      → Option (DetectionEvent Num)
      → Handled Num
  decide m f w ev event =
      if not ev.should_trigger
      then (if ev.veto_blocked_trigger
          then with_event event w (λ e. audit m w (label e "audioset_veto") one_veto)
          else (w, true))
      else if is_suppressed cfg w.redis m.check_at f.device_id
      then with_event event w (λ e. audit m w (label e "cooldown") one_cooldown)
      else with_event event w (fire m f w)

  unfoldable pub entry_of : FrameInput → List ℕ → ℤ → FrameScore Num → Entry Num
  entry_of f pcm rate score = record {
    seq = f.sequence;
    ts = f.capture_timestamp_ms;
    drone = score.drone_score;
    aux = score.auxiliary_score;
    frame_s = fl.seconds (length pcm) rate;
    conf = score.confounder_score;
  }

  -- From the scored frame on: the buffer is extended, the frame is counted, the gate is evaluated.
  unfoldable pub judge :
      Moment Num → FrameInput → Worker Num → Entry Num → FrameScore Num → Handled Num
  judge m f w entry score =
      let (redis, buffer) = append_score cfg w.redis m.append_at f.device_id entry in
      let w' = record w {
        redis = redis;
        counters = record (w.counters) { frames_processed = w.counters.frames_processed + 1 };
        last_frame_at = m.scored_at;
      } in
      let ev = evaluate fl cfg buffer in
      decide m f w' ev (build_detection fl cfg m.detection_id f buffer score ev)

  unfoldable pub handle_frame : Moment Num → FrameInput → Worker Num → Handled Num
  handle_frame m f w = elim (decode_payload f) [
    | none ↦ (w, false)
    | some (pcm, rate) ↦ if is_zero rate then (w, false) else (elim (out.infer_pcm16 pcm rate) [
      | none ↦ (w, false)
      | some score ↦ judge m f w (entry_of f pcm rate score) score
    ])
  ]
