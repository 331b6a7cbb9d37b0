-- ===== src/Inference/Gate.antt =====
-- The detection gate: `evaluate` and `build_detection` of
-- backend/inference/src/inference/detection.py, and `categorize` of model.py.
pub mod Veto
use drone_audio_sensor.Common.{
  ℕ, ◌+◌, Bool, true, false, not, ◌&&◌, List, [], ◌∷◌, Option, none, some, String, if◌then◌else◌,
  str_eq, length, map,
}
use drone_audio_sensor.Common.Int.{ℤ}
use drone_audio_sensor.Inference.Float.{Float}

-- `FrameInput`.
pub record FrameInput : Type 0 where
  pub device_id : String
  pub session_id : String
  pub sequence : ℤ
  pub capture_timestamp_ms : ℤ
  pub sample_rate_hz : ℤ
  pub site_label : String
  pub pcm16_mono : List ℕ
  pub codec : String

-- `FrameScore`, over the type of floats. The dictionaries are kept as lists.
pub record FrameScore (N : Type 0) : Type 0 where
  pub drone_score : N
  pub auxiliary_score : N
  pub class_scores : List (String × N)
  pub subtype_label : String
  pub subtype_confidence : N
  pub subtype_probs : List (String × N)
  pub confounder_score : N

-- One entry of the score buffer.
pub record Entry (N : Type 0) : Type 0 where
  pub seq : ℤ
  pub ts : ℤ
  pub drone : N
  pub aux : N
  pub frame_s : N
  pub conf : N

pub record EvaluateResult (N : Type 0) : Type 0 where
  pub should_trigger : Bool
  pub avg_score : N
  pub peak_score : N
  pub frames_over_threshold : ℕ
  pub seconds_over : N
  pub vetoed_frames : ℕ
  pub veto_blocked_trigger : Bool

pub record DetectionEvent (N : Type 0) : Type 0 where
  pub detection_id : String
  pub device_id : String
  pub session_id : String
  pub first_frame_sequence : ℤ
  pub last_frame_sequence : ℤ
  pub first_frame_timestamp_ms : ℤ
  pub last_frame_timestamp_ms : ℤ
  pub average_score : N
  pub peak_score : N
  pub frames_over_threshold : ℕ
  pub window_frames : ℕ
  pub threshold : N
  pub site_label : String
  pub model_name : String
  pub model_version : String
  pub class_scores : List (String × N)
  pub subtype_label : String
  pub subtype_confidence : N
  pub subtype_probs : List (String × N)
  pub category : String
  pub category_display : String
  pub chronic_suppressed : Bool
  pub chronic_recent_count : ℕ
  pub suppression_reason : String
  pub vetoed_frames : ℕ

-- The settings of config.py that the worker's decisions read, and the two constants of model.py.
pub record Settings (N : Type 0) : Type 0 where
  pub score_buffer_size : ℕ
  pub redis_ttl_seconds : ℕ
  pub detection_threshold : N
  pub min_seconds_over_threshold : N
  pub suppression_window_seconds : ℕ
  pub confounder_veto_enabled : Bool
  pub confounder_veto_threshold : N
  pub chronic_mute_enabled : Bool
  pub chronic_window_seconds : ℕ
  pub chronic_alert_threshold : ℕ
  pub model_name : String
  pub model_version : String
  pub drone_trigger : N
  pub uncertain_low : N

module _ (fl : Float) where
  open fl use {Num, zero, le, lt, add, divide}

  -- `categorize`, with its default thresholds: the token and the display text.
  unfoldable pub categorize : Settings Num → Num → String → String × String
  categorize cfg drone_score subtype_label =
      if le cfg.drone_trigger drone_score
      then (if str_eq subtype_label "no_drone"
          then ("unknown_drone", "Unknown drone")
          else ("known_drone", subtype_label))
      else if le cfg.uncertain_low drone_score
      then ("unknown_source", "Unknown source")
      else ("no_drone", "no_drone")

  -- `sum(...)`, from the left.
  abbrev pub sum_from : Num → List Num → Num
  sum_from acc [] = acc
  sum_from acc (x ∷ xs) = sum_from (add acc x) xs

  -- `max(scores)`: the first of the greatest.
  abbrev pub max_from : Num → List Num → Num
  max_from m [] = m
  max_from m (x ∷ xs) = max_from (if le m x && not (le x m) then x else m) xs

  abbrev pub is_over : Settings Num → Entry Num → Bool
  is_over cfg b = le cfg.detection_threshold b.drone

  -- `_vetoed`.
  abbrev pub is_vetoed : Settings Num → Entry Num → Bool
  is_vetoed cfg b =
      if lt b.drone cfg.detection_threshold
      then false
      else if not cfg.confounder_veto_enabled
      then false
      else le cfg.confounder_veto_threshold b.conf

  -- `_counts`.
  abbrev pub counts : Settings Num → Entry Num → Bool
  counts cfg b = is_over cfg b && not (is_vetoed cfg b)

  -- `sum(1 for b in buffer if p(b))`.
  abbrev pub count_if : (Entry Num → Bool) → List (Entry Num) → ℕ
  count_if p [] = 0
  count_if p (b ∷ bs) = let rest = count_if p bs in if p b then rest + 1 else rest

  -- `sum(frame_s for b in buffer if p(b))`.
  abbrev pub seconds_if : (Entry Num → Bool) → Num → List (Entry Num) → Num
  seconds_if p acc [] = acc
  seconds_if p acc (b ∷ bs) = seconds_if p (if p b then add acc b.frame_s else acc) bs

  unfoldable pub gate : Settings Num → List (Entry Num) → Bool
  gate cfg buffer = le cfg.min_seconds_over_threshold (seconds_if (counts cfg) zero buffer)

  -- The gate as it would be with the veto off.
  unfoldable pub gate_without_veto : Settings Num → List (Entry Num) → Bool
  gate_without_veto cfg buffer =
      le cfg.min_seconds_over_threshold (seconds_if (is_over cfg) zero buffer)

  unfoldable pub evaluate : Settings Num → List (Entry Num) → EvaluateResult Num
  evaluate cfg [] = record {
    should_trigger = false;
    avg_score = zero;
    peak_score = zero;
    frames_over_threshold = 0;
    seconds_over = zero;
    vetoed_frames = 0;
    veto_blocked_trigger = false;
  }
  evaluate cfg (b ∷ bs) =
      let scores = map (λ (e : Entry Num). e.drone) (b ∷ bs) in
      record {
        should_trigger = gate cfg (b ∷ bs);
        avg_score = divide (sum_from zero scores) (length (b ∷ bs));
        peak_score = max_from b.drone (map (λ (e : Entry Num). e.drone) bs);
        frames_over_threshold = count_if (is_over cfg) (b ∷ bs);
        seconds_over = seconds_if (counts cfg) zero (b ∷ bs);
        vetoed_frames = count_if (is_vetoed cfg) (b ∷ bs);
        veto_blocked_trigger = not (gate cfg (b ∷ bs)) && gate_without_veto cfg (b ∷ bs);
      }

  -- `buffer[-1]`.
  abbrev pub last_of : Entry Num → List (Entry Num) → Entry Num
  last_of b [] = b
  last_of b (c ∷ bs) = last_of c bs

  -- `build_detection`; an empty buffer would raise. The id is the one that `uuid4` makes.
  unfoldable pub build_detection :
      Settings Num
      → String
      → FrameInput
      → List (Entry Num)
      → FrameScore Num
      → EvaluateResult Num
      → Option (DetectionEvent Num)
  unfolding categorize
  build_detection cfg detection_id frame [] score ev = none
  build_detection cfg detection_id frame (b ∷ bs) score ev =
      let first = last_of b bs in
      let (category, display) = categorize cfg ev.peak_score score.subtype_label in
      some (record {
        detection_id = detection_id;
        device_id = frame.device_id;
        session_id = frame.session_id;
        first_frame_sequence = first.seq;
        last_frame_sequence = b.seq;
        first_frame_timestamp_ms = first.ts;
        last_frame_timestamp_ms = b.ts;
        average_score = ev.avg_score;
        peak_score = ev.peak_score;
        frames_over_threshold = ev.frames_over_threshold;
        window_frames = length (b ∷ bs);
        threshold = cfg.detection_threshold;
        site_label = frame.site_label;
        model_name = cfg.model_name;
        model_version = cfg.model_version;
        class_scores = score.class_scores;
        subtype_label = score.subtype_label;
        subtype_confidence = score.subtype_confidence;
        subtype_probs = score.subtype_probs;
        category = category;
        category_display = display;
        chronic_suppressed = false;
        chronic_recent_count = 0;
        suppression_reason = "";
        vetoed_frames = ev.vetoed_frames;
      })
