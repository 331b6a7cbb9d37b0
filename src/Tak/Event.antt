-- ===== src/Tak/Event.antt =====
-- `build_event` of backend/tak_publisher/src/tak_publisher/cot.py: the marker of a detection.
-- The numbers of a detection are floats of a type `F`, which the code only prints and passes on.
-- Apart from its scores, the fields of a detection have the types that inference gives them.
use drone_audio_sensor.Common.{
  ℕ, ◌+◌, ◌*◌, List, [], ◌∷◌, ◌++◌, Option, none, some, String, if◌then◌else◌, str_eq, get_or, Bool,
  ◌&&◌, ◌-◌, ltb,
}
use drone_audio_sensor.Common.Int.{ℤ, pos, negsuc, is_zero}
use Prim.Native.String.{◌++◌ as ◌+++◌}

-- `device_location` of a detection; a key that is absent or null is `none`.
pub record TakLocation (F : Type 0) : Type 0 where
  pub latitude : Option F
  pub longitude : Option F
  pub altitude_m : Option F
  pub accuracy_m : Option F

-- A score: the key is absent, `float` takes the value, or it raises, as it does on null.
pub data Score (F : Type 0) : Type 0 where
  absent refused : Score F
  number : F → Score F

pub record Detection (F : Type 0) : Type 0 where
  pub detection_id : Option String
  pub device_id : Option String
  pub site_label : Option String
  pub average_score : Score F
  pub peak_score : Score F
  pub model_name : Option String
  pub model_version : Option String
  pub last_frame_timestamp_ms : Option ℤ
  pub published_at_ms : Option ℤ
  pub frames_over_threshold : Option ℕ
  pub window_frames : Option ℕ
  pub device_location : Option (TakLocation F)

pub record CotEvent (F : Type 0) : Type 0 where
  pub uid : String
  pub cot_type : String
  pub time : ℤ
  pub start : ℤ
  pub stale : ℤ
  pub lat : F
  pub lon : F
  pub hae : Option F
  pub ce : Option F
  pub le : Option F
  pub callsign : String
  pub group_name : String
  pub remarks : String

pub record CotSettings : Type 0 where
  pub cot_uid_prefix : String
  pub cot_event_type : String
  pub cot_stale_seconds : ℕ
  pub cot_group_name : String

-- Python's printing: a float with two digits, and an integer; the float 0; and whether a time in
-- milliseconds is one that `datetime` can hold: `fromtimestamp` and the sum of a date and a
-- `timedelta` raise on all others.
pub record Format (F : Type 0) : Type 0 where
  pub zero : F
  pub two_digits : F → String
  pub decimal : ℕ → String
  pub is_datetime : ℤ → Bool

-- `a or b`, for strings and for numbers.
abbrev pub or_str : String → String → String
or_str a b = if str_eq a "" then b else a

abbrev or_num : Option ℤ → ℤ → ℤ
or_num none b = b
or_num (some a) b = if is_zero a then b else a

abbrev later_by : ℕ → ℤ → ℤ
later_by n (pos a) = pos (a + n)
later_by n (negsuc a) = if ltb a n then pos (n - (a + 1)) else negsuc (a - n)

-- What `build_event` comes to: the marker, `None`, or an exception.
pub data Built (F : Type 0) : Type 0 where
  placed : CotEvent F → Built F
  unplaced raises : Built F

abbrev join : String → List String → String
join first [] = first
join first (x ∷ xs) = join (first +++ (" | " +++ x)) xs

module _ {F : Type 0} (fmt : Format F) (cfg : CotSettings) where
  unfoldable pub detected_at : Detection F → ℕ → ℤ
  detected_at d now_ms =
      or_num (some (or_num d.last_frame_timestamp_ms (or_num d.published_at_ms (pos 0))))
        (pos now_ms)

  abbrev site_part : String → List String
  site_part site = if str_eq site "" then [] else ("site=" +++ site) ∷ []

  abbrev window_text : Option ℕ → String
  window_text none = "?"
  window_text (some n) = fmt.decimal n

  abbrev frames_part : Option ℕ → Option ℕ → List String
  frames_part none window = []
  frames_part (some n) window =
      ("frames_over_threshold=" +++ (fmt.decimal n +++ ("/" +++ window_text window))) ∷ []

  unfoldable pub remarks_of : Detection F → String → F → F → String
  remarks_of d device_id avg peak = join ("Drone audio detection from " +++ device_id) (
      (("avg=" +++ (fmt.two_digits avg +++ (" peak=" +++ fmt.two_digits peak)))
        ∷ ("model=" +++ (get_or d.model_name "" +++ ("/" +++ get_or d.model_version "")))
        ∷ site_part (get_or d.site_label ""))
      ++ frames_part d.frames_over_threshold d.window_frames)

  abbrev marker : Detection F → ℤ → TakLocation F → F → F → F → F → CotEvent F
  marker d at loc lat lon avg peak =
      let device_id = get_or d.device_id "unknown" in
      record {
        uid = cfg.cot_uid_prefix +++ ("." +++ or_str (get_or d.detection_id "") device_id);
        cot_type = cfg.cot_event_type;
        time = at;
        start = at;
        stale = later_by (cfg.cot_stale_seconds * 1000) at;
        lat = lat;
        lon = lon;
        hae = loc.altitude_m;
        ce = loc.accuracy_m;
        le = none;
        callsign = device_id;
        group_name = cfg.cot_group_name;
        remarks = remarks_of d device_id avg peak;
      }

  -- `float(detection.get(key, 0.0))`.
  abbrev float_of : Score F → Option F
  float_of absent = some fmt.zero
  float_of refused = none
  float_of (number x) = some x

  -- Now is a time that `datetime` holds.
  abbrev at_time : Detection F → ℤ → TakLocation F → F → F → F → F → Built F
  at_time d at loc lat lon avg peak =
      if fmt.is_datetime at && fmt.is_datetime (later_by (cfg.cot_stale_seconds * 1000) at)
      then placed (marker d at loc lat lon avg peak)
      else raises

  abbrev with_scores : Detection F → ℤ → TakLocation F → F → F → Option F → Option F → Built F
  with_scores d at loc lat lon none peak = raises
  with_scores d at loc lat lon (some avg) none = raises
  with_scores d at loc lat lon (some avg) (some peak) = at_time d at loc lat lon avg peak

  abbrev at_point : Detection F → ℤ → TakLocation F → Option F → Option F → Built F
  at_point d at loc (some lat) (some lon) =
      with_scores d at loc lat lon (float_of d.average_score) (float_of d.peak_score)
  at_point d at loc none lon = unplaced
  at_point d at loc (some lat) none = unplaced

  abbrev at_location : Detection F → ℤ → Option (TakLocation F) → Built F
  at_location d at none = unplaced
  at_location d at (some loc) = at_point d at loc loc.latitude loc.longitude

  -- There is no marker where the location, or one of its coordinates, is missing; and a score that is
  -- no number, or a time that is no date, raises.
  unfoldable pub build_event : Detection F → ℕ → Built F
  unfolding remarks_of detected_at
  build_event d now_ms = at_location d (detected_at d now_ms) d.device_location
