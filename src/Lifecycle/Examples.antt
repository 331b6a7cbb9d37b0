-- ===== src/Lifecycle/Examples.antt =====
-- The lifecycle's results at concrete texts, and tests.
use drone_audio_sensor.Common.{◌≡◌, refl, ◌↔◌, some}
use drone_audio_sensor.Common.Results.{ok}
use drone_audio_sensor.Common.Text.{strip, lower}
use drone_audio_sensor.Lifecycle.{
  active, lost, normalize, validate, validate_admin_transition, requires_extra_confirmation,
  allowed_next_states,
}
use drone_audio_sensor.Lifecycle.Graph.{AdminStep}
use drone_audio_sensor.Lifecycle.Rules.{validate_iff_AdminStep}
use drone_audio_sensor.Lifecycle.Mirror

normalize_folds : normalize (some "  LOST ") ≡ lost
unfolding normalize strip lower
normalize_folds = refl

normalize_offline : normalize (some "offline") ≡ active
unfolding normalize strip lower
normalize_offline = refl

validate_iff_AdminStep_example :
    (validate_admin_transition "Active" "lost" ≡ ok tt)
    ↔ AdminStep (normalize (some "Active")) (normalize (some "lost"))
validate_iff_AdminStep_example = validate_iff_AdminStep "Active" "lost"

refused : ¬ (validate_admin_transition "wipe_requested" "active" ≡ ok tt)
unfolding validate_admin_transition validate normalize strip lower
refused h = cc

Mirror-agrees_example :
    (Mirror.allowed_next_states "lost" ≡ allowed_next_states "lost")
    × (Mirror.requires_extra_confirmation "lost" "active"
        ≡ requires_extra_confirmation "lost" "active")
    × (Mirror.validate_admin_transition "lost" "active" ≡ validate_admin_transition "lost" "active")
Mirror-agrees_example = Mirror.Mirror-agrees "lost" "active"
