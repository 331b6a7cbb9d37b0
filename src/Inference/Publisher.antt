-- ===== src/Inference/Publisher.antt =====
-- `DetectionPublisher` of backend/inference/src/inference/publisher.py: a detection goes to the
-- Pub/Sub topic and to Firestore, or, if it carries a reason for its suppression, to Firestore only.
pub mod Routing
use drone_audio_sensor.Common.{
  ℕ, Bool, true, false, not, ◌&&◌, List, [], ◌∷◌, ◌++◌, Option, none, some, String, if◌then◌else◌,
  str_eq, get_or,
}
use drone_audio_sensor.Inference.Gate.{DetectionEvent}

-- What the publisher reads of a device's document.
pub record DeviceDoc (N : Type 0) : Type 0 where
  pub site : Option String
  pub current_location : Option (N × N)
  pub location_accuracy_m : Option N
  pub location_status : Option String
  pub location_timestamp_ms : Option ℕ

pub record DeviceLocation (N : Type 0) : Type 0 where
  pub latitude : N
  pub longitude : N
  pub accuracy_m : Option N
  pub status : Option String
  pub timestamp_ms : Option ℕ

pub record Message (N : Type 0) : Type 0 where
  pub event : DetectionEvent N
  pub site : String
  pub device_location : Option (DeviceLocation N)
  pub published_at_ms : ℕ
  pub suppression_reason : String

pub record Attributes : Type 0 where
  pub device_id : String
  pub detection_id : String
  pub site : String
  pub site_label : String
  pub model_name : String

-- A document of the detections collection.
pub record Doc (N : Type 0) : Type 0 where
  pub message : Message N
  pub pubsub_message_id : String

-- What was published, and what was written, in order.
pub record Sinks (N : Type 0) : Type 0 where
  pub topic : List (Message N × Attributes)
  pub docs : List (Doc N)

-- What the services answer during one call: the read of the device's document (`none` where it
-- raises), the id that Pub/Sub gives (`none` where the wait for it raises, a time-out
-- included, after which Pub/Sub may still take the message: `topic` counts what is confirmed), whether Firestore takes the write.
pub record Services (N : Type 0) : Type 0 where
  pub device : Option (Option (DeviceDoc N))
  pub message_id : Option String
  pub takes_doc : Bool
  pub now_ms : ℕ

module _ {N : Type 0} where
  -- `_location_from_doc`.
  abbrev location_from_doc : DeviceDoc N → Option (N × N) → Option (DeviceLocation N)
  location_from_doc d none = none
  location_from_doc d (some (lat, lon)) = some (record {
    latitude = lat;
    longitude = lon;
    accuracy_m = d.location_accuracy_m;
    status = d.location_status;
    timestamp_ms = d.location_timestamp_ms;
  })

  -- `_lookup_device_fields`: an exception and a missing document both give nothing.
  unfoldable pub lookup_device_fields :
      Option (Option (DeviceDoc N)) → Option (Option (DeviceLocation N) × Option String)
  lookup_device_fields none = none
  lookup_device_fields (some none) = none
  lookup_device_fields (some (some d)) = some (location_from_doc d d.current_location, d.site)

  abbrev location_of :
      Option (Option (DeviceLocation N) × Option String) → Option (DeviceLocation N)
  location_of none = none
  location_of (some (loc, site)) = loc

  abbrev site_of : Option (Option (DeviceLocation N) × Option String) → String
  site_of none = ""
  site_of (some (loc, site)) = get_or site ""

  -- The label that is written: the legacy flag counts as `chronic`.
  unfoldable pub effective_reason : DetectionEvent N → String
  effective_reason e =
      if str_eq e.suppression_reason "" && e.chronic_suppressed
      then "chronic"
      else e.suppression_reason

  unfoldable pub message_of : Services N → DetectionEvent N → Message N
  unfolding lookup_device_fields effective_reason
  message_of sv e = record {
    event = e;
    site = site_of (lookup_device_fields sv.device);
    device_location = location_of (lookup_device_fields sv.device);
    published_at_ms = sv.now_ms;
    suppression_reason = effective_reason e;
  }

  unfoldable pub attributes_of : Services N → DetectionEvent N → Attributes
  unfolding lookup_device_fields
  attributes_of sv e = record {
    device_id = e.device_id;
    detection_id = e.detection_id;
    site = site_of (lookup_device_fields sv.device);
    site_label = e.site_label;
    model_name = e.model_name;
  }

  -- The write of the document, whose exceptions are only logged.
  unfoldable pub write_doc : Services N → Sinks N → Message N → String → Sinks N
  write_doc sv s m id =
      if sv.takes_doc
      then record s { docs = s.docs ++ record { message = m; pubsub_message_id = id } ∷ [] }
      else s

  -- The message id that is returned; `none` where the call raises.
  unfoldable pub publish : Services N → Sinks N → DetectionEvent N → Sinks N × Option String
  unfolding message_of attributes_of write_doc effective_reason
  publish sv s e =
      if not (str_eq (effective_reason e) "")
      then (write_doc sv s (message_of sv e) "", some "")
      else elim sv.message_id [
        | none ↦ (s, none)
        | some id ↦ (
          write_doc sv (record s { topic = s.topic ++ (message_of sv e, attributes_of sv e) ∷ [] })
              (message_of sv e) id,
          some id,
        )
      ]
