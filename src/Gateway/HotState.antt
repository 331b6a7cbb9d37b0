-- ===== src/Gateway/HotState.antt =====
-- `DeviceStateStore` of backend/gateway/src/gateway/state.py: the live state of each device, and
-- the stream of frames. A key that has expired is a missing key.
use drone_audio_sensor.Common.{ℕ, List, [], ◌∷◌, ◌++◌, none, some, String, if◌then◌else◌, str_eq}
use drone_audio_sensor.Common.Int.{pos}
use drone_audio_sensor.Gateway.Store.{
  DeviceState, FrameEntry, AudioFrame, Health, Table, write, network_name, thermal_name,
}

unfoldable pub init_session : Table DeviceState → DeviceState → Table DeviceState
init_session m state = write m state.device_id state

-- A read, an edit and a write; nothing happens to a device that has no key.
unfoldable pub edit : Table DeviceState → String → (DeviceState → DeviceState) → Table DeviceState
edit m device_id f = elim (m device_id) [ none ↦ m | some s ↦ write m device_id (f s) ]

unfoldable pub touch : Table DeviceState → String → ℕ → ℕ → ℕ → Table DeviceState
unfolding edit
touch m device_id sequence frames_received now_ms = edit m device_id (λ s. record s {
  last_seen_ms = now_ms;
  last_sequence = pos sequence;
  frames_received = frames_received;
})

unfoldable pub update_health : Table DeviceState → String → Health → ℕ → Table DeviceState
unfolding edit
update_health m device_id h now_ms = edit m device_id (λ s. record s {
  dropped_frames = h.dropped_frames;
  reconnect_count = h.reconnect_count;
  network_type = network_name h.network_type;
  battery_percent = h.battery_percent;
  thermal_state = thermal_name h.thermal_state;
  battery_temperature_deci_c = h.battery_temperature_deci_c;
  battery_voltage_mv = h.battery_voltage_mv;
  battery_health = h.battery_health;
  cellular_rssi_dbm = h.cellular_rssi_dbm;
  wifi_rssi_dbm = h.wifi_rssi_dbm;
  free_disk_bytes = h.free_disk_bytes;
  tx_bytes_cumulative = h.tx_bytes_cumulative;
  last_seen_ms = now_ms;
})

unfoldable pub clear : Table DeviceState → String → Table DeviceState
clear m device_id j = if str_eq device_id j then none else m j

-- The entry that `publish_frame` builds: the payload passes through as it came.
unfoldable pub entry : String → String → String → AudioFrame → FrameEntry
entry device_id session_id site_label f = record {
  d = device_id;
  ses = session_id;
  s = f.sequence_number;
  t = f.capture_timestamp_ms;
  r = f.sample_rate_hz;
  l = site_label;
  p = f.pcm16_mono;
  c = if str_eq f.codec "" then none else some f.codec;
}

unfoldable pub publish_frame : List FrameEntry → FrameEntry → List FrameEntry
publish_frame frames e = frames ++ e ∷ []
