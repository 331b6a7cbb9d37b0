-- ===== src/Gateway/Fixtures.antt =====
-- A small fleet, a handshake and a session's messages, for the tests.
use drone_audio_sensor.Common.{
  ℕ, ◌≡◌, refl, Bool, List, [], ◌∷◌, none, some, String, str_eq, if◌then◌else◌,
}
use drone_audio_sensor.Common.Int.{pos, minus_one}
use drone_audio_sensor.Common.Results.{ok}
use drone_audio_sensor.Common.Text.{strip, lower}
use drone_audio_sensor.Lifecycle.{active, normalize}
use drone_audio_sensor.Gateway.Store.{World, Device, Table, empty, Handshake, Health, audio_frame}
use drone_audio_sensor.Gateway.Registry.{state_of, get_state, lookup}
use drone_audio_sensor.Gateway.Auth.{Jwt}
use drone_audio_sensor.Gateway.Session.{Arrival}
use drone_audio_sensor.Gateway.Admission.{Config}
use drone_audio_sensor.Gateway.Stream.{Readings, session_state}

-- A PyJWT that accepts every token, for the device "d1".
abbrev pub lenient : Jwt
lenient = record {
  get_unverified_header = λ token. ok (some "d1");
  decode = λ token key. ok (some "d1");
}

abbrev pub config : Bool → Config
config on = record {
  require_auth = on;
  auth = some (lenient, 300);
  ack_interval_frames = 2;
  health_report_interval_seconds = 30;
}

abbrev pub readings : Readings
readings = record {
  monotonic = 5;
  session_id = "s1";
  setup_ms = 1000;
  handshake_ms = 1001;
  hot_ms = 1002;
  ack_id = "c1";
  ack_ms = 1003;
  wipe_id = "c2";
  wipe_ms = 1004;
  wipe_sent_ms = 1005;
  closed_ms = 2000;
}

abbrev pub phone : String → Device ℕ
phone s = record empty { state = some s; public_key_pem = some "pem" }

abbrev pub legacy : Device ℕ
legacy = record empty { status = some "revoked" }

abbrev pub fleet : Device ℕ → Table (Device ℕ)
fleet d id = if str_eq id "d1" then some d else none

abbrev pub world : Device ℕ → World ℕ
world d = record { devices = fleet d; hot = λ id. none; frames = [] }

abbrev pub health_now : Health
health_now = record {
  battery_percent = pos 80;
  network_type = 2;
  dropped_frames = pos 0;
  reconnect_count = pos 0;
  thermal_state = 1;
  battery_temperature_deci_c = pos 250;
  battery_voltage_mv = pos 4000;
  battery_health = pos 2;
  cellular_rssi_dbm = minus_one;
  wifi_rssi_dbm = minus_one;
  free_disk_bytes = pos 1000;
  tx_bytes_cumulative = pos 0;
}

abbrev pub hello : Handshake ℕ
hello = record {
  device_id = "d1";
  app_version = "1";
  device_model = "m";
  os_version = "14";
  assigned_site_label = "north";
  location = none;
  health = health_now;
  auth_token_id = "t";
  sample_rate_hz = pos 16000;
  frame_duration_ms = pos 1000;
}

abbrev pub audio : ℕ → Arrival ℕ
audio n = record {
  payload = audio_frame (record {
    capture_timestamp_ms = pos 1500;
    sequence_number = n;
    sample_rate_hz = pos 16000;
    pcm16_mono = 1 ∷ 2 ∷ [];
    codec = "";
  });
  seen_ms = 1501;
  sent_ms = 1502;
  command_id = "a";
  raises = none;
}

abbrev pub two_frames : List (Arrival ℕ)
two_frames = audio 3 ∷ audio 4 ∷ []

abbrev pub bearer : List (String × String)
bearer = ("authorization", "Bearer x") ∷ []

pub session_state_active : session_state (fleet (phone "active")) "d1" ≡ active
unfolding session_state get_state lookup state_of normalize strip lower
session_state_active = refl
