-- ===== src/Egress/Lifted.antt =====
-- The way of a detection from the inference publisher to the egress publisher's buffer.
use drone_audio_sensor.Common.{Bool, Option, none, some}
use drone_audio_sensor.Common.Int.{pos}
use drone_audio_sensor.Egress.Forwarder.{Forwarder}
use drone_audio_sensor.Egress.Message.{Detection, float_or}
use drone_audio_sensor.Inference.Publisher.{DeviceLocation, Message}

module _ {N : Type 0} (zero : N) (is_zero : N → Bool) (narrow : N → N) where
  -- A coordinate of the device, 0.0 where it is not known.
  abbrev pub latitude_of : Option (DeviceLocation N) → N
  latitude_of none = zero
  latitude_of (some l) = float_or zero is_zero (some l.latitude)

  abbrev pub longitude_of : Option (DeviceLocation N) → N
  longitude_of none = zero
  longitude_of (some l) = float_or zero is_zero (some l.longitude)

  -- The detection with the values of the event, the site and the location of its device, the scores,
  -- the threshold and the confidence narrowed to 32 bits.
  abbrev pub lifted : Message N → Detection N
  lifted m = record {
    device_id = m.event.device_id;
    detection_id = m.event.detection_id;
    first_frame_ts_ms = m.event.first_frame_timestamp_ms;
    last_frame_ts_ms = m.event.last_frame_timestamp_ms;
    peak_score = narrow (float_or zero is_zero (some m.event.peak_score));
    average_score = narrow (float_or zero is_zero (some m.event.average_score));
    threshold = narrow (float_or zero is_zero (some m.event.threshold));
    frames_over_threshold = pos m.event.frames_over_threshold;
    window_frames = pos m.event.window_frames;
    category = m.event.category;
    subtype_label = m.event.subtype_label;
    subtype_confidence = narrow (float_or zero is_zero (some m.event.subtype_confidence));
    site = m.site;
    location_lat = latitude_of m.device_location;
    location_lon = longitude_of m.device_location;
    published_at_ms = pos m.published_at_ms;
    model_name = m.event.model_name;
    model_version = m.event.model_version;
  }
