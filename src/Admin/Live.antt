-- ===== src/Admin/Live.antt =====
-- The live states of backend/admin/src/admin/redis_repo.py: the documents that the gateway and the
-- simulator leave in Redis, and the rows that the admin's page reads out of them.
use Prim.Native.Nat.{Ordering}
use Prim.Native.String.{compare}
use drone_audio_sensor.Common.{List, [], ◌∷◌, Option, none, some, String, if◌then◌else◌, get_or}
use drone_audio_sensor.Common.Int.{ℤ, pos, minus_one, eq_ℤ}
use drone_audio_sensor.Gateway.Store.{DeviceState}
use drone_audio_sensor.Admin.{or_text}

-- A document of JSON: a key that is absent or null is `none`.
pub record LiveDoc : Type 0 where
  pub device_id : Option String
  pub session_id : Option String
  pub site_label : Option String
  pub last_seen_ms : Option ℤ
  pub last_sequence : Option ℤ
  pub frames_received : Option ℤ
  pub dropped_frames : Option ℤ
  pub reconnect_count : Option ℤ
  pub network_type : Option String
  pub battery_percent : Option ℤ
  pub thermal_state : Option String
  pub app_version : Option String
  pub battery_temperature_deci_c : Option ℤ
  pub battery_voltage_mv : Option ℤ
  pub battery_health : Option ℤ
  pub cellular_rssi_dbm : Option ℤ
  pub wifi_rssi_dbm : Option ℤ
  pub free_disk_bytes : Option ℤ
  pub tx_bytes_cumulative : Option ℤ

pub record LiveDeviceState : Type 0 where
  pub device_id : String
  pub session_id : String
  pub site_label : String
  pub last_seen_ms : ℤ
  pub last_sequence : ℤ
  pub frames_received : ℤ
  pub dropped_frames : ℤ
  pub reconnect_count : ℤ
  pub network_type : String
  pub battery_percent : ℤ
  pub thermal_state : String
  pub app_version : String
  pub battery_temperature_deci_c : ℤ
  pub battery_voltage_mv : ℤ
  pub battery_health : ℤ
  pub cellular_rssi_dbm : ℤ
  pub wifi_rssi_dbm : ℤ
  pub free_disk_bytes : ℤ
  pub tx_bytes_cumulative : ℤ

-- `str(data.get(k) or y)` and `int(data.get(k) or y)`: an empty text and a zero count as missing.
abbrev pub text_or : Option String → String → String
text_or x y = get_or (or_text x none) y

abbrev pub int_or : Option ℤ → ℤ → ℤ
int_or none y = y
int_or (some x) y = if eq_ℤ x (pos 0) then y else x

-- `_to_live`.
unfoldable pub to_live : LiveDoc → LiveDeviceState
to_live d = record {
  device_id = text_or d.device_id "";
  session_id = text_or d.session_id "";
  site_label = text_or d.site_label "";
  last_seen_ms = int_or d.last_seen_ms (pos 0);
  last_sequence = int_or d.last_sequence minus_one;
  frames_received = int_or d.frames_received (pos 0);
  dropped_frames = int_or d.dropped_frames (pos 0);
  reconnect_count = int_or d.reconnect_count (pos 0);
  network_type = text_or d.network_type "unspecified";
  battery_percent = int_or d.battery_percent minus_one;
  thermal_state = text_or d.thermal_state "unspecified";
  app_version = text_or d.app_version "";
  battery_temperature_deci_c = int_or d.battery_temperature_deci_c (pos 0);
  battery_voltage_mv = int_or d.battery_voltage_mv (pos 0);
  battery_health = int_or d.battery_health (pos 0);
  cellular_rssi_dbm = int_or d.cellular_rssi_dbm (pos 0);
  wifi_rssi_dbm = int_or d.wifi_rssi_dbm (pos 0);
  free_disk_bytes = int_or d.free_disk_bytes (pos 0);
  tx_bytes_cumulative = int_or d.tx_bytes_cumulative (pos 0);
}

-- `asdict` of the gateway's state.
unfoldable pub live_doc : DeviceState → LiveDoc
live_doc s = record {
  device_id = some s.device_id;
  session_id = some s.session_id;
  site_label = some s.site_label;
  last_seen_ms = some (pos s.last_seen_ms);
  last_sequence = some s.last_sequence;
  frames_received = some (pos s.frames_received);
  dropped_frames = some s.dropped_frames;
  reconnect_count = some s.reconnect_count;
  network_type = some s.network_type;
  battery_percent = some s.battery_percent;
  thermal_state = some s.thermal_state;
  app_version = some s.app_version;
  battery_temperature_deci_c = some s.battery_temperature_deci_c;
  battery_voltage_mv = some s.battery_voltage_mv;
  battery_health = some s.battery_health;
  cellular_rssi_dbm = some s.cellular_rssi_dbm;
  wifi_rssi_dbm = some s.wifi_rssi_dbm;
  free_disk_bytes = some s.free_disk_bytes;
  tx_bytes_cumulative = some s.tx_bytes_cumulative;
}

abbrev pub insert_live : LiveDeviceState → List LiveDeviceState → List LiveDeviceState
insert_live r [] = r ∷ []
insert_live r (x ∷ xs) =
    let rest = insert_live r xs in
    elim (compare r.device_id x.device_id) [ Ordering.gt ↦ x ∷ rest | _ ↦ r ∷ x ∷ xs ]

-- `list_live_devices`, over what the scan's keys hold: a key that has expired, or whose text is no
-- JSON, gives none.
unfoldable pub list_live_devices : List (Option LiveDoc) → List LiveDeviceState
list_live_devices [] = []
list_live_devices (none ∷ keys) = list_live_devices keys
list_live_devices (some d ∷ keys) = insert_live (to_live d) (list_live_devices keys)
