-- ===== src/Admin/Simulate.antt =====
-- The simulator's request of backend/admin/src/admin/server.py, with `upsert_simulated_devices` of
-- firestore_repo.py and `refresh_simulated_devices` of redis_repo.py. The body passed its
-- validation, and the caller is let in. The ids of the sessions and the float 5.0 are inputs; when
-- a live state expires is Redis's.
use drone_audio_sensor.Common.{
  ℕ, ◌+◌, ◌-◌, Bool, not, ◌&&◌, List, [], ◌∷◌, Option, none, some, String, if◌then◌else◌, str_eq,
  ltb, ◌==◌, get_or, length,
}
use drone_audio_sensor.Common.Int.{ℤ, pos}
use drone_audio_sensor.Gateway.Store.{Device, Table, write, merge}
use drone_audio_sensor.Admin.Live.{LiveDoc, text_or, int_or}

pub record SimulatedPhone (F : Type 0) : Type 0 where
  pub device_id : String
  pub lat : F
  pub lon : F
  pub site_label : String
  pub battery_percent : ℤ
  pub network_type : String

pub record Settings : Type 0 where
  pub simulator_enabled : Bool
  pub simulator_token : String

pub record Stores (F : Type 0) : Type 0 where
  pub devices : Table (Device F)
  pub live : Table LiveDoc

-- The number of phones and the time, or the status of an `HTTPException`.
pub data Answer : Type 0 where
  refreshed : ℕ → ℕ → Answer
  http_error : ℕ → Answer

-- `payload.timestamp_ms or int(time.time() * 1000)`.
abbrev pub time_or : Option ℕ → ℕ → ℕ
time_or none now = now
time_or (some t) now = if t == 0 then now else t

module _ {F : Type 0} (five : F) (session_ids : ℕ → String) where
  abbrev pub upserted : SimulatedPhone F → ℕ → Device F → Device F
  upserted p timestamp_ms d = record d {
    device_id = some p.device_id;
    state = some "active";
    assigned_site_label = some p.site_label;
    app_version = some "sim-soh-1.0";
    device_model = some "SOH simulator";
    os_version = some "local-url";
    first_seen_ms = some timestamp_ms;
    last_seen_ms = some timestamp_ms;
    last_handshake_ms = some timestamp_ms;
    current_location = some (record { latitude = p.lat; longitude = p.lon });
    location_accuracy_m = some five;
    location_status = some "current";
    location_timestamp_ms = some (pos timestamp_ms);
  }

  -- `upsert_simulated_devices`.
  unfoldable pub upsert_simulated_devices :
      List (SimulatedPhone F) → ℕ → Table (Device F) → Table (Device F)
  upsert_simulated_devices [] timestamp_ms m = m
  upsert_simulated_devices (p ∷ phones) timestamp_ms m =
      upsert_simulated_devices phones timestamp_ms (merge m p.device_id (upserted p timestamp_ms))

  -- `max(35, 96 - n)`: from the sixty-second phone on it is 35.
  abbrev pub level : ℕ → ℕ
  level n = if ltb (96 - n) 35 then 35 else 96 - n

  -- The live state of the `n`-th phone.
  abbrev pub live_state : SimulatedPhone F → ℕ → ℕ → ℕ → LiveDoc
  live_state p timestamp_ms tick n = record {
    device_id = some p.device_id;
    session_id = some (session_ids n);
    site_label = some p.site_label;
    last_seen_ms = some (pos timestamp_ms);
    last_sequence = some (pos tick);
    frames_received = some (pos tick);
    dropped_frames = some (pos 0);
    reconnect_count = some (pos (tick - 1));
    network_type = some (text_or (some p.network_type) "wifi");
    battery_percent = some (int_or (some p.battery_percent) (pos (level n)));
    thermal_state = some "nominal";
    app_version = some "sim-soh-1.0";
    battery_temperature_deci_c = none;
    battery_voltage_mv = none;
    battery_health = none;
    cellular_rssi_dbm = none;
    wifi_rssi_dbm = none;
    free_disk_bytes = none;
    tx_bytes_cumulative = none;
  }

  -- `refresh_simulated_devices`, from the `n`-th phone on.
  unfoldable pub refresh_simulated_devices :
      ℕ → List (SimulatedPhone F) → ℕ → ℕ → Table LiveDoc → Table LiveDoc
  refresh_simulated_devices n [] timestamp_ms tick m = m
  refresh_simulated_devices n (p ∷ phones) timestamp_ms tick m =
      refresh_simulated_devices (n + 1) phones timestamp_ms tick
        (write m p.device_id (live_state p timestamp_ms tick n))

  abbrev pub refreshed_stores : List (SimulatedPhone F) → ℕ → ℕ → Stores F → Stores F
  refreshed_stores phones timestamp_ms tick s = record {
    devices = upsert_simulated_devices phones timestamp_ms s.devices;
    live = refresh_simulated_devices 1 phones timestamp_ms tick s.live;
  }

  -- `api_simulate_phones`, with the token of the header.
  unfoldable pub api_simulate_phones :
      Settings
      → Option String
      → List (SimulatedPhone F)
      → Option ℕ
      → ℕ
      → ℕ
      → Stores F
      → Answer × Stores F
  api_simulate_phones settings supplied phones timestamp_ms tick now s =
      if not settings.simulator_enabled
      then (http_error 404, s)
      else if not (str_eq settings.simulator_token "")
          && not (str_eq (get_or supplied "") settings.simulator_token)
      then (http_error 403, s)
      else if ltb 100 (length phones)
      then (http_error 400, s)
      else (
        refreshed (length phones) (time_or timestamp_ms now),
        refreshed_stores phones (time_or timestamp_ms now) tick s,
      )
