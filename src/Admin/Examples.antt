-- ===== src/Admin/Examples.antt =====
-- The admin's operations at a small fleet.
use drone_audio_sensor.Common.{ℕ, ◌≡◌, refl, true, List, [], ◌∷◌, none, some, String, Option}
use drone_audio_sensor.Gateway.Fixtures.{phone, fleet}
use drone_audio_sensor.Admin.{current_state, change, set_state}
use drone_audio_sensor.Admin.Devices.{SiteDoc, Snap, to_device_row, get_device, list_sites}
use drone_audio_sensor.Admin.ChangeState.{
  Response, redirect, http_error, change_state, Verdict, change_state_lem,
}
use drone_audio_sensor.Admin.Live.{to_live, live_doc}
use drone_audio_sensor.Admin.Shown.{shown, to_live-live_doc}
use drone_audio_sensor.Admin.Simulate.{
  SimulatedPhone, Settings, Stores, upserted, upsert_simulated_devices, api_simulate_phones,
}
use drone_audio_sensor.Admin.Simulated.{Outcome as SimulationOutcome, api_simulate_phones_lem}
use drone_audio_sensor.Common.Int.{ℤ, pos, minus_one}
use drone_audio_sensor.Common.Text.{strip, lower, lstrip}
use drone_audio_sensor.Lifecycle.Mirror.{
  normalize, requires_extra_confirmation, validate_admin_transition, validate,
}
use drone_audio_sensor.Gateway.Store.{Device, DeviceState}
use drone_audio_sensor.Admin.SetState.{Outcome, set_state_lem}

set_state_lem_example : Outcome (fleet (phone "active")) "d1" "wipe_requested" 7 (phone "active")
set_state_lem_example =
    set_state_lem (fleet (phone "active")) "d1" "wipe_requested" 7 (phone "active") refl

abbrev site_doc : Option String → SiteDoc ℕ
site_doc s = record { device = phone "active"; site = s }

abbrev snaps : List (Snap ℕ)
snaps =
    ("d1", site_doc (some "Shaw"))
    ∷ ("d2", site_doc none)
    ∷ ("d3", site_doc (some "Patrick"))
    ∷ ("d4", site_doc (some "Shaw"))
    ∷ []

two_sites : list_sites snaps ≡ "Patrick" ∷ "Shaw" ∷ []
unfolding list_sites
two_sites = refl

-- An operator confirms the wipe of a device that is active.
change_state_lem_example :
    Verdict
      (λ id. some (site_doc none))
      (fleet (phone "active"))
      "d1"
      "wipe_requested"
      "yes"
      (some "Shaw")
      7
      (site_doc none)
      (phone "active")
change_state_lem_example =
    change_state_lem (λ id. some (site_doc none)) (fleet (phone "active")) "d1" "wipe_requested"
      "yes" (some "Shaw") 7 (site_doc none) (phone "active") refl refl

abbrev state_after : Response ℕ → String → Option (Option String)
state_after (http_error code) id = none
state_after (redirect page m) id = elim (m id) [ none ↦ none | some d ↦ some d.state ]

abbrev lost_doc : SiteDoc ℕ
lost_doc = record { device = phone "lost"; site = none }

-- The device was read as lost, and another operator revoked it before the transaction: it is active
-- again, and nobody confirmed that a revoked device comes back.
reinstated_unconfirmed :
    state_after
      (change_state (λ id. some lost_doc) (fleet (phone "revoked")) "d1" "active" "" none 7)
      "d1"
    ≡ some (some "active")
unfolding change_state get_device to_device_row current_state normalize strip lower lstrip set_state
    requires_extra_confirmation validate_admin_transition validate change
reinstated_unconfirmed = refl

abbrev live_phone : ℤ → DeviceState
live_phone sequence = record {
  device_id = "d1";
  session_id = "s1";
  last_seen_ms = 5;
  last_sequence = sequence;
  frames_received = 3;
  dropped_frames = pos 0;
  reconnect_count = pos 1;
  app_version = "1.0";
  network_type = "wifi";
  battery_percent = pos 80;
  thermal_state = "nominal";
  site_label = "";
  battery_temperature_deci_c = pos 0;
  battery_voltage_mv = pos 0;
  battery_health = pos 0;
  cellular_rssi_dbm = pos 0;
  wifi_rssi_dbm = pos 0;
  free_disk_bytes = pos 0;
  tx_bytes_cumulative = pos 0;
}

to_live-live_doc_example : to_live (live_doc (live_phone (pos 3))) ≡ shown (live_phone (pos 3))
to_live-live_doc_example = to_live-live_doc (live_phone (pos 3)) refl refl refl refl

-- The sequence number 0 is shown as -1.
zero_hidden : (to_live (live_doc (live_phone (pos 0)))).last_sequence ≡ minus_one
unfolding to_live live_doc
zero_hidden = refl

abbrev one : SimulatedPhone ℕ
one = record {
  device_id = "d1";
  lat = 1;
  lon = 2;
  site_label = "";
  battery_percent = pos 90;
  network_type = "wifi";
}

abbrev simulated : List (SimulatedPhone ℕ)
simulated = one ∷ []

abbrev simulator : Settings
simulator = record { simulator_enabled = true; simulator_token = "t" }

abbrev stores : String → Stores ℕ
stores s = record { devices = fleet (phone s); live = λ id. none }

api_simulate_phones_lem_example :
    SimulationOutcome 5
      (λ n. "s")
      simulator
      (some "t")
      simulated
      none
      9
      (stores "active")
      (api_simulate_phones 5 (λ n. "s") simulator (some "t") simulated none 1 9 (stores "active"))
api_simulate_phones_lem_example =
    api_simulate_phones_lem 5 (λ n. "s") simulator (some "t") simulated none 1 9 (stores "active")

-- The simulator's request brings back a device that was to be wiped.
abbrev after_simulation : Option (Device ℕ)
after_simulation =
    (api_simulate_phones 5 (λ n. "s") simulator (some "t") simulated none 1 9
        (stores "wipe_requested")).1.devices
      "d1"

wipe_undone : after_simulation ≡ some (upserted 5 (λ n. "s") one 9 (phone "wipe_requested"))
unfolding api_simulate_phones upsert_simulated_devices
wipe_undone = refl
