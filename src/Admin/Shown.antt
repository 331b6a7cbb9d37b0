-- ===== src/Admin/Shown.antt =====
-- What the admin reads of a state that the gateway wrote.
use drone_audio_sensor.Common.{
  ◌≡◌, refl, sym, inl, inr, false, some, String, str_eq, str_eq_iff, Bool-cases,
}
use drone_audio_sensor.Common.Int.{ℤ, pos, minus_one, eq_ℤ, eq_ℤ_sound}
use drone_audio_sensor.Gateway.Store.{DeviceState}
use drone_audio_sensor.Admin.Live.{LiveDeviceState, text_or, int_or, to_live, live_doc}

int_or-same : (x : ℤ) → int_or (some x) (pos 0) ≡ x
int_or-same x = elim (Bool-cases (eq_ℤ x (pos 0))) [
  | inl zero ↦ rw zero (sym (eq_ℤ_sound x (pos 0) zero))
  | inr other ↦ rw other refl
]

int_or-set : (x y : ℤ) → eq_ℤ x (pos 0) ≡ false → int_or (some x) y ≡ x
int_or-set x y h = rw h refl

text_or-same : (x : String) → text_or (some x) "" ≡ x
text_or-same x = elim (Bool-cases (str_eq x "")) [
  | inl empty ↦ rw empty (sym ((str_eq_iff x "").0 empty))
  | inr other ↦ rw other refl
]

text_or-set : (x y : String) → str_eq x "" ≡ false → text_or (some x) y ≡ x
text_or-set x y h = rw h refl

-- The state as a row of the page.
abbrev pub shown : DeviceState → LiveDeviceState
shown s = record {
  device_id = s.device_id;
  session_id = s.session_id;
  site_label = s.site_label;
  last_seen_ms = pos s.last_seen_ms;
  last_sequence = s.last_sequence;
  frames_received = pos s.frames_received;
  dropped_frames = s.dropped_frames;
  reconnect_count = s.reconnect_count;
  network_type = s.network_type;
  battery_percent = s.battery_percent;
  thermal_state = s.thermal_state;
  app_version = s.app_version;
  battery_temperature_deci_c = s.battery_temperature_deci_c;
  battery_voltage_mv = s.battery_voltage_mv;
  battery_health = s.battery_health;
  cellular_rssi_dbm = s.cellular_rssi_dbm;
  wifi_rssi_dbm = s.wifi_rssi_dbm;
  free_disk_bytes = s.free_disk_bytes;
  tx_bytes_cumulative = s.tx_bytes_cumulative;
}

-- A state that the gateway wrote is read back with every field as it was, if its last sequence
-- number and its battery are not 0, and its network and its thermal state are named.
pub to_live-live_doc :
    (s : DeviceState)
    → eq_ℤ s.last_sequence (pos 0) ≡ false
    → eq_ℤ s.battery_percent (pos 0) ≡ false
    → str_eq s.network_type "" ≡ false
    → str_eq s.thermal_state "" ≡ false
    → to_live (live_doc s) ≡ shown s
unfolding to_live live_doc
to_live-live_doc s sequence battery network thermal = λ i. record {
  device_id = text_or-same s.device_id i;
  session_id = text_or-same s.session_id i;
  site_label = text_or-same s.site_label i;
  last_seen_ms = int_or-same (pos s.last_seen_ms) i;
  last_sequence = int_or-set s.last_sequence minus_one sequence i;
  frames_received = int_or-same (pos s.frames_received) i;
  dropped_frames = int_or-same s.dropped_frames i;
  reconnect_count = int_or-same s.reconnect_count i;
  network_type = text_or-set s.network_type "unspecified" network i;
  battery_percent = int_or-set s.battery_percent minus_one battery i;
  thermal_state = text_or-set s.thermal_state "unspecified" thermal i;
  app_version = text_or-same s.app_version i;
  battery_temperature_deci_c = int_or-same s.battery_temperature_deci_c i;
  battery_voltage_mv = int_or-same s.battery_voltage_mv i;
  battery_health = int_or-same s.battery_health i;
  cellular_rssi_dbm = int_or-same s.cellular_rssi_dbm i;
  wifi_rssi_dbm = int_or-same s.wifi_rssi_dbm i;
  free_disk_bytes = int_or-same s.free_disk_bytes i;
  tx_bytes_cumulative = int_or-same s.tx_bytes_cumulative i;
}
