-- ===== src/Gateway/Registry.antt =====
-- `DeviceRegistry` of backend/gateway/src/gateway/registry.py. Each method takes the time that its
-- `time.time()` read, and returns the collection that it leaves.
pub mod States
use drone_audio_sensor.Common.{
  ℕ, Bool, true, false, List, [], ◌∷◌, Option, none, some, String, if◌then◌else◌, str_eq, get_or,
}
use drone_audio_sensor.Common.Int.{ℤ, pos}
use drone_audio_sensor.Lifecycle.{
  State, setup_pending, active, wipe_sent, text, normalize, state_eq, is_connectable,
}
use drone_audio_sensor.Gateway.Store.{GeoPoint, Device, empty, Table, write, merge}

-- The arguments of `upsert_handshake`.
pub record HandshakeFields (F : Type 0) : Type 0 where
  pub session_id : String
  pub app_version : String
  pub device_model : String
  pub os_version : String
  pub site_label : String
  pub sample_rate_hz : ℤ
  pub frame_duration_ms : ℤ
  pub latitude : Option F
  pub longitude : Option F
  pub location_accuracy_m : Option F
  pub location_status : Option String
  pub auth_token_id : String

pub record DeviceRegistration : Type 0 where
  pub device_id : String
  pub session_id : String
  pub first_seen_ms : ℕ
  pub handshake_ms : ℕ

pub record DeviceLookup : Type 0 where
  pub device_id : String
  pub state : State
  pub public_key_pem : Option String

-- `data.get("state") or data.get("status")`: an empty text counts as none.
abbrev pub present : Option String → Option String
present none = none
present (some s) = if str_eq s "" then none else some s

abbrev pub or_else : Option String → Option String → Option String
or_else none b = b
or_else (some a) b = some a

module _ {F : Type 0} where
  -- The lifecycle state of a document.
  unfoldable pub state_of : Device F → State
  state_of d = normalize (or_else (present d.state) d.status)

  -- The part of the payload that the location decides.
  unfoldable pub put_location :
      Option F → Option F → Option F → Option String → ℤ → Device F → Device F
  put_location (some lat) (some lon) acc status ms d = record d {
    current_location = some (record { latitude = lat; longitude = lon });
    location_accuracy_m = acc;
    location_status = status;
    location_timestamp_ms = some ms;
  }
  put_location none lon acc status ms d = d
  put_location (some lat) none acc status ms d = d

  -- The state is seeded only where the document that was read has none.
  abbrev pub seed_state : Option String → Device F → Device F
  seed_state none d = record d { state = some (text active) }
  seed_state (some s) d = d

  abbrev pub field_of : {A : Type 0} → Option (Device F) → (Device F → Option A) → Option A
  field_of none f = none
  field_of (some d) f = f d

  -- The payload that is merged, from the document that was read before.
  unfoldable pub handshake_payload :
      Option (Device F) → String → HandshakeFields F → ℕ → Device F → Device F
  unfolding put_location
  handshake_payload snap device_id h now_ms d =
      put_location h.latitude h.longitude h.location_accuracy_m h.location_status (pos now_ms) (
        seed_state (field_of snap (λ s. s.state)) (record d {
          device_id = some device_id;
          session_id = some h.session_id;
          first_seen_ms = some (get_or (field_of snap (λ s. s.first_seen_ms)) now_ms);
          last_handshake_ms = some now_ms;
          last_seen_ms = some now_ms;
          app_version = some h.app_version;
          device_model = some h.device_model;
          os_version = some h.os_version;
          assigned_site_label = some h.site_label;
          sample_rate_hz = some h.sample_rate_hz;
          frame_duration_ms = some h.frame_duration_ms;
          auth_token_id = some h.auth_token_id;
        }))

  unfoldable pub upsert_handshake :
      Table (Device F) → String → HandshakeFields F → ℕ → Table (Device F) × DeviceRegistration
  unfolding handshake_payload
  upsert_handshake m device_id h now_ms = (
    merge m device_id (handshake_payload (m device_id) device_id h now_ms),
    record {
      device_id = device_id;
      session_id = h.session_id;
      first_seen_ms = get_or (field_of (m device_id) (λ s. s.first_seen_ms)) now_ms;
      handshake_ms = now_ms;
    },
  )

  unfoldable pub location_payload : F → F → Option F → Option String → ℤ → ℕ → Device F → Device F
  location_payload lat lon acc status timestamp_ms now_ms d = record d {
    current_location = some (record { latitude = lat; longitude = lon });
    location_accuracy_m = acc;
    location_status = status;
    location_timestamp_ms = some timestamp_ms;
    last_seen_ms = some now_ms;
  }

  unfoldable pub update_location :
      Table (Device F) → String → F → F → Option F → Option String → ℤ → ℕ → Table (Device F)
  unfolding location_payload
  update_location m device_id lat lon acc status timestamp_ms now_ms =
      merge m device_id (location_payload lat lon acc status timestamp_ms now_ms)

  unfoldable pub codec_payload : String → Device F → Device F
  codec_payload codec d = record d {
    audio_codec = some (if str_eq codec "" then "pcm16" else codec);
  }

  unfoldable pub update_audio_codec : Table (Device F) → String → String → Table (Device F)
  unfolding codec_payload
  update_audio_codec m device_id codec = merge m device_id (codec_payload codec)

  unfoldable pub lookup : Table (Device F) → String → Option DeviceLookup
  unfolding state_of
  lookup m device_id = elim (m device_id) [
    | none ↦ none
    | some d ↦ some (record {
      device_id = device_id;
      state = state_of d;
      public_key_pem = present d.public_key_pem;
    })
  ]

  -- None for an unknown device and for one that may not authenticate.
  unfoldable pub get_public_key : Table (Device F) → String → Option String
  unfolding lookup is_connectable
  get_public_key m device_id = elim (lookup m device_id) [
    | none ↦ none
    | some l ↦ if is_connectable (text l.state) then l.public_key_pem else none
  ]

  unfoldable pub get_state : Table (Device F) → String → Option String
  unfolding lookup
  get_state m device_id = elim (lookup m device_id) [ none ↦ none | some l ↦ some (text l.state) ]

  unfoldable pub setup_payload : String → ℕ → Device F → Device F
  setup_payload session_id now_ms d = record d {
    state = some (text active);
    setup_completed_at_ms = some now_ms;
    setup_completed_session_id = some session_id;
  }

  -- The transaction of `complete_setup`, from the document that it reads.
  unfoldable pub setup_txn :
      Table (Device F) → String → String → ℕ → Option (Device F) → Table (Device F) × Bool
  unfolding state_of setup_payload
  setup_txn m device_id session_id now_ms none = (m, false)
  setup_txn m device_id session_id now_ms (some d) =
      if state_eq (state_of d) setup_pending
      then (merge m device_id (setup_payload session_id now_ms), true)
      else (m, false)

  -- Whether this call made the change comes with the collection.
  unfoldable pub complete_setup : Table (Device F) → String → String → ℕ → Table (Device F) × Bool
  unfolding setup_txn
  complete_setup m device_id session_id now_ms =
      setup_txn m device_id session_id now_ms (m device_id)

  unfoldable pub wipe_payload : String → ℕ → Device F → Device F
  wipe_payload session_id now_ms d = record d {
    state = some (text wipe_sent);
    wipe_sent_at_ms = some now_ms;
    last_wipe_session_id = some session_id;
  }

  unfoldable pub mark_wipe_sent : Table (Device F) → String → String → ℕ → Table (Device F)
  unfolding wipe_payload
  mark_wipe_sent m device_id session_id now_ms = merge m device_id (wipe_payload session_id now_ms)

  unfoldable pub disconnect_payload : String → ℕ → Device F → Device F
  disconnect_payload reason now_ms d = record d {
    last_disconnect_ms = some now_ms;
    last_disconnect_reason = some reason;
  }

  unfoldable pub mark_disconnected : Table (Device F) → String → String → ℕ → Table (Device F)
  unfolding disconnect_payload
  mark_disconnected m device_id reason now_ms = merge m device_id (disconnect_payload reason now_ms)
