-- ===== src/Provision/Examples.antt =====
-- The tool's commands at a small collection.
use drone_audio_sensor.Common.{ℕ, refl, false, none, some, String, str_eq, if◌then◌else◌}
use drone_audio_sensor.Gateway.Store.{Table}
use drone_audio_sensor.Gateway.Fixtures.{phone}
use drone_audio_sensor.Provision.{Doc, blank}
use drone_audio_sensor.Provision.Commands.{Outcome, set_state_outcome}

abbrev sheet : String → Table (Doc ℕ)
sheet s id = if str_eq id "d1" then some (record blank { device = phone s }) else none

set_state_outcome_example :
    Outcome
      (sheet "revoked")
      "d1"
      "active"
      false
      7
      "ops"
      (record blank { device = phone "revoked" })
set_state_outcome_example =
    set_state_outcome (sheet "revoked") "d1" "active" false 7 "ops"
      (record blank { device = phone "revoked" }) refl
