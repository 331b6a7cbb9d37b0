-- ===== src/Egress/Message.antt =====
-- `to_proto` and `Subscriber._on_message` of backend/egress_publisher/src/egress_publisher/main.py:
-- from the JSON of a Pub/Sub message to a detection in the forwarder's buffer. Numbers of the JSON
-- are taken to lie in the ranges of the protobuf fields; `N` is the type of floats.
use drone_audio_sensor.Common.{ℕ, Bool, Option, none, some, String, if◌then◌else◌, get_or}
use drone_audio_sensor.Common.Int.{ℤ, pos}
use drone_audio_sensor.Egress.Forwarder.{Forwarder, enqueue}
use drone_audio_sensor.Inference.Publisher.{Message, DeviceLocation}

-- The field `category`: missing, null or empty; an object with its token, if any; a text.
pub data Category : Type 0 where
  missing : Category
  object : Option String → Category
  token : String → Category

-- The fields that are read; one that is missing or null is none, and an object of them that is
-- missing or no object is none.
pub record Body (N : Type 0) : Type 0 where
  pub device_id : Option String
  pub detection_id : Option String
  pub first_frame_timestamp_ms : Option ℤ
  pub last_frame_timestamp_ms : Option ℤ
  pub peak_score : Option N
  pub average_score : Option N
  pub threshold : Option N
  pub frames_over_threshold : Option ℤ
  pub window_frames : Option ℤ
  pub category : Category
  pub subtype : Option (Option String × Option N)
  pub site : Option String
  pub device_location : Option (Option N × Option N)
  pub published_at_ms : Option ℤ
  pub model : Option (Option String × Option String)

-- The protobuf message.
pub record Detection (N : Type 0) : Type 0 where
  pub device_id : String
  pub detection_id : String
  pub first_frame_ts_ms : ℤ
  pub last_frame_ts_ms : ℤ
  pub peak_score : N
  pub average_score : N
  pub threshold : N
  pub frames_over_threshold : ℤ
  pub window_frames : ℤ
  pub category : String
  pub subtype_label : String
  pub subtype_confidence : N
  pub site : String
  pub location_lat : N
  pub location_lon : N
  pub published_at_ms : ℤ
  pub model_name : String
  pub model_version : String

-- The token; none where it is `None`, which no text field takes: the assignment raises.
abbrev pub category_of : Category → Option String
category_of missing = none
category_of (object t) = t
category_of (token t) = some t

abbrev pub first_of : {A B : Type 0} → Option (Option A × Option B) → Option A
first_of none = none
first_of (some (a, b)) = a

abbrev pub second_of : {A B : Type 0} → Option (Option A × Option B) → Option B
second_of none = none
second_of (some (a, b)) = b

-- `narrow` is the assignment of a number to a `float` field of the protobuf message, which has 32
-- bits; the `double` fields keep it.
module _ {N : Type 0} (zero : N) (is_zero : N → Bool) where
  -- `float(x or 0.0)`.
  abbrev pub float_or : Option N → N
  float_or none = zero
  float_or (some x) = if is_zero x then zero else x

module _ {N : Type 0} (zero : N) (is_zero : N → Bool) (narrow : N → N) where
  abbrev pub with_category : Body N → Option String → Option (Detection N)
  with_category b none = none
  with_category b (some category) = some (record {
    device_id = get_or b.device_id "";
    detection_id = get_or b.detection_id "";
    first_frame_ts_ms = get_or b.first_frame_timestamp_ms (pos 0);
    last_frame_ts_ms = get_or b.last_frame_timestamp_ms (pos 0);
    peak_score = narrow (float_or zero is_zero b.peak_score);
    average_score = narrow (float_or zero is_zero b.average_score);
    threshold = narrow (float_or zero is_zero b.threshold);
    frames_over_threshold = get_or b.frames_over_threshold (pos 0);
    window_frames = get_or b.window_frames (pos 0);
    category = category;
    subtype_label = get_or (first_of b.subtype) "";
    subtype_confidence = narrow (float_or zero is_zero (second_of b.subtype));
    site = get_or b.site "";
    location_lat = float_or zero is_zero (first_of b.device_location);
    location_lon = float_or zero is_zero (second_of b.device_location);
    published_at_ms = get_or b.published_at_ms (pos 0);
    model_name = get_or (first_of b.model) "";
    model_version = get_or (second_of b.model) "";
  })

  -- `to_proto`; none where it raises.
  unfoldable pub to_proto : Body N → Option (Detection N)
  to_proto b = with_category b (category_of b.category)

  -- How the callback ends: it acknowledges the message, it raises, which leaves the message to be
  -- sent again, or it hands the detection on.
  pub data Received : Type 0 where
    acknowledged raised : Received
    enqueued : Forwarder (Detection N) → Received

  abbrev pub received : ℕ → Forwarder (Detection N) → ℕ → ℕ → Option (Detection N) → Received
  received batch_size f ack raw_size none = raised
  received batch_size f ack raw_size (some d) =
      enqueued (enqueue batch_size f (record { det = d; ack = ack; raw_size = raw_size }))

  -- `_on_message`, on the body, or none where the data are no JSON.
  unfoldable pub on_message : ℕ → Forwarder (Detection N) → ℕ → ℕ → Option (Body N) → Received
  on_message batch_size f ack raw_size none = acknowledged
  on_message batch_size f ack raw_size (some b) = received batch_size f ack raw_size (to_proto b)

-- The fields of the JSON that the inference publisher writes.
module _ {N : Type 0} where
  abbrev pub place_of : Option (DeviceLocation N) → Option (Option N × Option N)
  place_of none = none
  place_of (some l) = some (some l.latitude, some l.longitude)

  unfoldable pub body_of : Message N → Body N
  body_of m = record {
    device_id = some m.event.device_id;
    detection_id = some m.event.detection_id;
    first_frame_timestamp_ms = some m.event.first_frame_timestamp_ms;
    last_frame_timestamp_ms = some m.event.last_frame_timestamp_ms;
    peak_score = some m.event.peak_score;
    average_score = some m.event.average_score;
    threshold = some m.event.threshold;
    frames_over_threshold = some (pos m.event.frames_over_threshold);
    window_frames = some (pos m.event.window_frames);
    category = object (some m.event.category);
    subtype = some (some m.event.subtype_label, some m.event.subtype_confidence);
    site = some m.site;
    device_location = place_of m.device_location;
    published_at_ms = some (pos m.published_at_ms);
    model = some (some m.event.model_name, some m.event.model_version);
  }
