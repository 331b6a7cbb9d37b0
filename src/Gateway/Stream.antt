-- ===== src/Gateway/Stream.antt =====
-- The handler `StreamAudio` of backend/gateway/src/gateway/service.py, whole: the admission of
-- Gateway/Admission.antt, the lifecycle, the loop of Gateway/Session.antt and the end of the session.
-- The calls made before the loop, and the last one, are taken to return.
pub mod Gate
pub mod History
pub mod Audio
pub mod Effects
use drone_audio_sensor.Common.{
  ℕ, ◌-◌, Bool, true, false, not, List, [], ◌∷◌, ◌++◌, Option, none, some, String, if◌then◌else◌,
  str_eq, leb, ◌==◌, ◌&&◌,
}
use drone_audio_sensor.Common.Results.{Result, ok, err, ◌>>=◌, ◌>>◌}
use drone_audio_sensor.Common.Text.{codes, strip, lower, text_eq}
use drone_audio_sensor.Common.Int.{ℤ, minus_one}
use drone_audio_sensor.Lifecycle.{
  State, setup_pending, active, wipe_requested, text, normalize, state_eq, may_publish_audio,
}
use drone_audio_sensor.Gateway.Store.{
  World, Device, Table, Handshake, Payload, DeviceState, Location, GeoPoint, handshake,
  network_name, thermal_name, location_name,
}
use drone_audio_sensor.Gateway.Registry.{
  HandshakeFields, get_state, complete_setup, upsert_handshake, mark_wipe_sent, mark_disconnected,
}
use drone_audio_sensor.Gateway.HotState.{init_session}
use drone_audio_sensor.Gateway.Auth.{Jwt, AuthError, KeyCache, validate}
use drone_audio_sensor.Gateway.Session.{
  Fault, rpc_error, exception, cancelled, Arrival, Command, session_ack, wipe_device, Session, Loop,
  serve,
}
use Prim.Native.String.{◌++◌ as ◌+++◌}
use drone_audio_sensor.Gateway.Admission.{Config, Abort, authenticate, check_first}

-- The ids that the handler makes, and what its clocks read.
pub record Readings : Type 0 where
  pub monotonic : ℕ
  pub session_id : String
  pub setup_ms : ℕ
  pub handshake_ms : ℕ
  pub hot_ms : ℕ
  pub ack_id : String
  pub ack_ms : ℕ
  pub wipe_id : String
  pub wipe_ms : ℕ
  pub wipe_sent_ms : ℕ
  pub closed_ms : ℕ

-- What a call of the handler leaves and sends.
pub record Reply (F : Type 0) : Type 0 where
  pub world : World F
  pub cache : KeyCache
  pub sent : List Command
  pub aborted : Option Abort

-- `disconnect_reason`; a cancellation leaves it as it was set first.
abbrev reason_of : Option Fault → String
reason_of none = "client_closed"
reason_of (some (rpc_error code)) = "rpc_error:" +++ code
reason_of (some (exception name)) = "exception:" +++ name
reason_of (some cancelled) = "client_closed"

module _ {F : Type 0} where
  abbrev location_field : {A : Type 0} → Option (Location F) → (Location F → A) → Option A
  location_field none f = none
  location_field (some l) f = some (f l)

  unfoldable pub handshake_fields : Handshake F → String → HandshakeFields F
  handshake_fields h session_id = record {
    session_id = session_id;
    app_version = h.app_version;
    device_model = h.device_model;
    os_version = h.os_version;
    site_label = h.assigned_site_label;
    sample_rate_hz = h.sample_rate_hz;
    frame_duration_ms = h.frame_duration_ms;
    latitude = location_field h.location (λ l. l.latitude);
    longitude = location_field h.location (λ l. l.longitude);
    location_accuracy_m = location_field h.location (λ l. l.horizontal_accuracy_meters);
    location_status = location_field h.location (λ l. location_name l.status);
    auth_token_id = h.auth_token_id;
  }

  unfoldable pub initial_state : Handshake F → Readings → DeviceState
  initial_state h r = record {
    device_id = h.device_id;
    session_id = r.session_id;
    last_seen_ms = r.hot_ms;
    last_sequence = minus_one;
    frames_received = 0;
    dropped_frames = h.health.dropped_frames;
    reconnect_count = h.health.reconnect_count;
    app_version = h.app_version;
    network_type = network_name h.health.network_type;
    battery_percent = h.health.battery_percent;
    thermal_state = thermal_name h.health.thermal_state;
    site_label = h.assigned_site_label;
    battery_temperature_deci_c = h.health.battery_temperature_deci_c;
    battery_voltage_mv = h.health.battery_voltage_mv;
    battery_health = h.health.battery_health;
    cellular_rssi_dbm = h.health.cellular_rssi_dbm;
    wifi_rssi_dbm = h.health.wifi_rssi_dbm;
    free_disk_bytes = h.health.free_disk_bytes;
    tx_bytes_cumulative = h.health.tx_bytes_cumulative;
  }

  -- The state that the session goes by: a device in setup is promoted, and treated as active
  -- whether or not this session made the change.
  unfoldable pub session_state : Table (Device F) → String → State
  unfolding get_state
  session_state devices device_id =
      let s = normalize (get_state devices device_id) in
      if state_eq s setup_pending then active else s

  -- The databases after the handshake: the promotion, the document, the hot state.
  unfoldable pub open_world : World F → Handshake F → Readings → World F
  unfolding get_state complete_setup upsert_handshake init_session handshake_fields initial_state
  open_world w h r =
      let promoted =
        if state_eq (normalize (get_state w.devices h.device_id)) setup_pending
        then (complete_setup w.devices h.device_id r.session_id r.setup_ms).0
        else w.devices in
      record w {
        devices =
            (upsert_handshake promoted h.device_id (handshake_fields h r.session_id)
              r.handshake_ms).0;
        hot = init_session w.hot (initial_state h r);
      }

  unfoldable pub open_ack : Config → Handshake F → Readings → Command
  open_ack cfg h r = record {
    command_id = r.ack_id;
    server_timestamp_ms = r.ack_ms;
    payload =
        session_ack h.device_id r.session_id cfg.ack_interval_frames
          cfg.health_report_interval_seconds;
  }

  -- The wipe of a device that connects in `wipe_requested`: the session ends here.
  unfoldable pub wipe_session : Handshake F → Readings → World F → World F × Command
  unfolding mark_wipe_sent
  wipe_session h r w = (
    record w { devices = mark_wipe_sent w.devices h.device_id r.session_id r.wipe_sent_ms },
    record {
      command_id = r.wipe_id;
      server_timestamp_ms = r.wipe_ms;
      payload = wipe_device r.session_id;
    },
  )

  unfoldable pub session_of : Config → Handshake F → Readings → State → Session
  unfolding may_publish_audio
  session_of cfg h r s = record {
    device_id = h.device_id;
    session_id = r.session_id;
    site_label = h.assigned_site_label;
    publish_audio = may_publish_audio (text s);
    ack_interval_frames = cfg.ack_interval_frames;
  }

  abbrev loop_start : World F → List Command → Loop F
  loop_start w sent = record {
    world = w;
    frames_received = 0;
    last_acked_seq = minus_one;
    codec_persisted = none;
    sent = sent;
  }

  -- The loop, and the `finally` that records the end of the session.
  unfoldable pub stream_session :
      Session
      → Readings
      → World F
      → List Command
      → List (Arrival F)
      → Option Fault
      → World F × List Command
  unfolding serve mark_disconnected
  stream_session s r w sent arrivals end =
      let (l, fault) = serve s arrivals end (loop_start w sent) in
      (
        record (l.world) {
          devices = mark_disconnected l.world.devices s.device_id (reason_of fault) r.closed_ms;
        },
        l.sent,
      )

  -- From the accepted handshake on.
  unfoldable pub run_session :
      Config
      → Readings
      → World F
      → Handshake F
      → List (Arrival F)
      → Option Fault
      → World F × List Command
  unfolding session_state open_world open_ack wipe_session session_of stream_session
  run_session cfg r w h arrivals end =
      let s = session_state w.devices h.device_id in
      let opened = open_world w h r in
      let ack = open_ack cfg h r in
      if state_eq s wipe_requested
      then (let (w', wipe) = wipe_session h r opened in (w', ack ∷ wipe ∷ []))
      else stream_session (session_of cfg h r s) r opened (ack ∷ []) arrivals end

  abbrev refuse : World F → KeyCache → Abort → Reply F
  refuse w cache a = record { world = w; cache = cache; sent = []; aborted = some a }

  unfoldable pub stream_audio :
      Config
      → Readings
      → World F
      → KeyCache
      → List (String × String)
      → Option (Payload F)
      → List (Arrival F)
      → Option Fault
      → Reply F
  unfolding authenticate check_first run_session
  stream_audio cfg r w cache metadata first arrivals end =
      let (cache', authed) = authenticate cfg cache w.devices r.monotonic metadata in
      elim authed [
        | err a ↦ refuse w cache' a
        | ok sub ↦ elim (check_first sub first) [
          | err a ↦ refuse w cache' a
          | ok h ↦
              let (w', sent) = run_session cfg r w h arrivals end in
              record { world = w'; cache = cache'; sent = sent; aborted = none }
        ]
      ]
