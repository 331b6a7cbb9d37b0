-- ===== src/Gateway/Store.antt =====
-- What the gateway reads and writes: the device documents of Firestore, the hot state and the
-- frame stream of Redis, and the messages of proto/drone_audio.proto.
-- A field of a document is `none` where the key is absent or null. `F` is the type of floats, which
-- the gateway only passes on.
use drone_audio_sensor.Common.{
  ℕ, List, Option, none, some, String, ◌==◌, if◌then◌else◌, str_eq, get_or,
}
use drone_audio_sensor.Common.Int.{ℤ}

pub record GeoPoint (F : Type 0) : Type 0 where
  pub latitude : F
  pub longitude : F

pub record Device (F : Type 0) : Type 0 where
  pub device_id : Option String
  pub state : Option String
  pub status : Option String
  pub public_key_pem : Option String
  pub session_id : Option String
  pub first_seen_ms : Option ℕ
  pub last_handshake_ms : Option ℕ
  pub last_seen_ms : Option ℕ
  pub app_version : Option String
  pub device_model : Option String
  pub os_version : Option String
  pub assigned_site_label : Option String
  pub sample_rate_hz : Option ℤ
  pub frame_duration_ms : Option ℤ
  pub auth_token_id : Option String
  pub current_location : Option (GeoPoint F)
  pub location_accuracy_m : Option F
  pub location_status : Option String
  pub location_timestamp_ms : Option ℤ
  pub audio_codec : Option String
  pub setup_completed_at_ms : Option ℕ
  pub setup_completed_session_id : Option String
  pub wipe_requested_at_ms : Option ℕ
  pub wipe_sent_at_ms : Option ℕ
  pub last_wipe_session_id : Option String
  pub last_disconnect_ms : Option ℕ
  pub last_disconnect_reason : Option String

-- A document with no key yet.
abbrev pub empty : {F : Type 0} → Device F
empty = record {
  device_id = none;
  state = none;
  status = none;
  public_key_pem = none;
  session_id = none;
  first_seen_ms = none;
  last_handshake_ms = none;
  last_seen_ms = none;
  app_version = none;
  device_model = none;
  os_version = none;
  assigned_site_label = none;
  sample_rate_hz = none;
  frame_duration_ms = none;
  auth_token_id = none;
  current_location = none;
  location_accuracy_m = none;
  location_status = none;
  location_timestamp_ms = none;
  audio_codec = none;
  setup_completed_at_ms = none;
  setup_completed_session_id = none;
  wipe_requested_at_ms = none;
  wipe_sent_at_ms = none;
  last_wipe_session_id = none;
  last_disconnect_ms = none;
  last_disconnect_reason = none;
}

-- A collection: the document at each id.
abbrev pub Table : Type 0 → Type 0
Table V = String → Option V

abbrev pub write : {V : Type 0} → Table V → String → V → Table V
write m k v j = if str_eq k j then some v else m j

-- `document(id).set(payload, merge=True)`: the payload's keys are written, into a new document
-- where there is none.
abbrev pub merge :
    {F : Type 0} → Table (Device F) → String → (Device F → Device F) → Table (Device F)
merge m k f = write m k (f (get_or (m k) empty))

pub record DeviceState : Type 0 where
  pub device_id : String
  pub session_id : String
  pub last_seen_ms : ℕ
  pub last_sequence : ℤ
  pub frames_received : ℕ
  pub dropped_frames : ℤ
  pub reconnect_count : ℤ
  pub app_version : String
  pub network_type : String
  pub battery_percent : ℤ
  pub thermal_state : String
  pub site_label : String
  pub battery_temperature_deci_c : ℤ
  pub battery_voltage_mv : ℤ
  pub battery_health : ℤ
  pub cellular_rssi_dbm : ℤ
  pub wifi_rssi_dbm : ℤ
  pub free_disk_bytes : ℤ
  pub tx_bytes_cumulative : ℤ

-- One entry of the stream `audio_frames`. The field `c` is written only for a codec that is named.
pub record FrameEntry : Type 0 where
  pub d : String
  pub ses : String
  pub s : ℕ
  pub t : ℤ
  pub r : ℤ
  pub l : String
  pub p : List ℕ
  pub c : Option String

-- The two databases. `frames` holds the entries in the order in
-- which they were added; the trimming of the stream to its maximal length is Redis's.
pub record World (F : Type 0) : Type 0 where
  pub devices : Table (Device F)
  pub hot : Table DeviceState
  pub frames : List FrameEntry

pub record Location (F : Type 0) : Type 0 where
  pub latitude : F
  pub longitude : F
  pub horizontal_accuracy_meters : F
  pub location_timestamp_ms : ℤ
  pub status : ℕ

pub record Health : Type 0 where
  pub battery_percent : ℤ
  pub network_type : ℕ
  pub dropped_frames : ℤ
  pub reconnect_count : ℤ
  pub thermal_state : ℕ
  pub battery_temperature_deci_c : ℤ
  pub battery_voltage_mv : ℤ
  pub battery_health : ℤ
  pub cellular_rssi_dbm : ℤ
  pub wifi_rssi_dbm : ℤ
  pub free_disk_bytes : ℤ
  pub tx_bytes_cumulative : ℤ

pub record Handshake (F : Type 0) : Type 0 where
  pub device_id : String
  pub app_version : String
  pub device_model : String
  pub os_version : String
  pub assigned_site_label : String
  pub location : Option (Location F)
  pub health : Health
  pub auth_token_id : String
  pub sample_rate_hz : ℤ
  pub frame_duration_ms : ℤ

pub record AudioFrame : Type 0 where
  pub capture_timestamp_ms : ℤ
  pub sequence_number : ℕ
  pub sample_rate_hz : ℤ
  pub pcm16_mono : List ℕ
  pub codec : String

pub data Payload (F : Type 0) : Type 0 where
  handshake : Handshake F → Payload F
  audio_frame : AudioFrame → Payload F
  health : Health → Payload F
  location_update : Location F → Payload F
  unset : Payload F

-- `NETWORK_NAMES.get(…, "unspecified")`, by the numbers of the enums.
abbrev pub network_name : ℕ → String
network_name n =
    if n == 1
    then "wifi"
    else if n == 2
    then "lte"
    else if n == 3
    then "5g"
    else if n == 4
    then "cellular"
    else if n == 5
    then "ethernet"
    else if n == 6
    then "none"
    else "unspecified"

-- `THERMAL_NAMES.get(…, "unspecified")`.
abbrev pub thermal_name : ℕ → String
thermal_name n =
    if n == 1
    then "nominal"
    else if n == 2
    then "light"
    else if n == 3
    then "moderate"
    else if n == 4
    then "severe"
    else if n == 5
    then "critical"
    else if n == 6
    then "emergency"
    else "unspecified"

-- `LOCATION_NAMES.get(…, "unspecified")`.
abbrev pub location_name : ℕ → String
location_name n =
    if n == 1
    then "current"
    else if n == 2
    then "last_known"
    else if n == 3
    then "manual"
    else if n == 4
    then "unavailable"
    else "unspecified"
