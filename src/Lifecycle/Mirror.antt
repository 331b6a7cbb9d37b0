-- ===== src/Lifecycle/Mirror.antt =====
-- backend/admin/src/admin/state_machine.py: the copy of the rule set that the admin service
-- carries. Its docstring asks that both copies stay the same.
use drone_audio_sensor.Common.{
  ◌≡◌, refl, List, [], ◌∷◌, Bool, not, Option, none, some, String, if◌then◌else◌,
}
use drone_audio_sensor.Common.Results.{Result, ok, err}
use drone_audio_sensor.Common.Text.{codes, strip, lower}
use drone_audio_sensor.Lifecycle
use drone_audio_sensor.Lifecycle.{
  State, setup_pending, active, lost, revoked, wipe_requested, wipe_sent, contains, contains_pair,
  state_eq, recognise, is_empty, TransitionError, unknown_target, gateway_internal, not_allowed,
}

abbrev pub all_states : List State
all_states = setup_pending ∷ active ∷ lost ∷ revoked ∷ wipe_requested ∷ wipe_sent ∷ []

abbrev pub admin_transitions : State → List State
admin_transitions setup_pending = active ∷ revoked ∷ wipe_requested ∷ []
admin_transitions active = lost ∷ revoked ∷ wipe_requested ∷ []
admin_transitions lost = active ∷ revoked ∷ wipe_requested ∷ []
admin_transitions revoked = active ∷ []
admin_transitions wipe_requested = []
admin_transitions wipe_sent = []

abbrev pub extra_confirm : List (State × State)
extra_confirm =
    (revoked, active)
    ∷ (active, wipe_requested)
    ∷ (lost, wipe_requested)
    ∷ (setup_pending, wipe_requested)
    ∷ []

unfoldable pub normalize : Option String → State
normalize none = active
normalize (some s) =
    if is_empty (codes s)
    then active
    else elim (recognise all_states (lower (strip (codes s)))) [ none ↦ active | some x ↦ x ]

unfoldable pub allowed_next_states : String → List State
allowed_next_states current = admin_transitions (normalize (some current))

unfoldable pub requires_extra_confirmation : String → String → Bool
requires_extra_confirmation current target =
    contains_pair extra_confirm (normalize (some current)) (normalize (some target))

unfoldable pub validate : State → State → String → Result TransitionError (Unit {0})
validate cur tgt target =
    if not (contains all_states tgt)
    then err (unknown_target target)
    else if state_eq tgt wipe_sent
    then err gateway_internal
    else if not (contains (admin_transitions cur) tgt)
    then err (not_allowed cur tgt)
    else ok tt

unfoldable pub validate_admin_transition : String → String → Result TransitionError (Unit {0})
validate_admin_transition current target =
    validate (normalize (some current)) (normalize (some target)) target

pub normalize_agrees : (o : Option String) → normalize o ≡ Lifecycle.normalize o
unfolding normalize Lifecycle.normalize
normalize_agrees none = refl
normalize_agrees (some s) = refl

validate_agrees : (s t : State) (x : String) → validate s t x ≡ Lifecycle.validate s t x
unfolding validate Lifecycle.validate
validate_agrees setup_pending t x = refl
validate_agrees active t x = refl
validate_agrees lost t x = refl
validate_agrees revoked t x = refl
validate_agrees wipe_requested t x = refl
validate_agrees wipe_sent t x = refl

transitions_agree : (s : State) → admin_transitions s ≡ Lifecycle.admin_transitions s
transitions_agree setup_pending = refl
transitions_agree active = refl
transitions_agree lost = refl
transitions_agree revoked = refl
transitions_agree wipe_requested = refl
transitions_agree wipe_sent = refl

-- The admin's copy and the gateway's agree on every text: they offer the same next states, ask for
-- the same confirmations, and accept and refuse the same changes with the same messages.
pub Mirror-agrees :
    (current target : String)
    → (allowed_next_states current ≡ Lifecycle.allowed_next_states current)
      × (requires_extra_confirmation current target
          ≡ Lifecycle.requires_extra_confirmation current target)
      × (validate_admin_transition current target
          ≡ Lifecycle.validate_admin_transition current target)
unfolding allowed_next_states requires_extra_confirmation validate_admin_transition
    Lifecycle.allowed_next_states Lifecycle.requires_extra_confirmation
    Lifecycle.validate_admin_transition
Mirror-agrees current target = (
  rw (normalize_agrees (some current)) (transitions_agree _),
  rw (normalize_agrees (some current), normalize_agrees (some target)) refl,
  rw (normalize_agrees (some current), normalize_agrees (some target)) (validate_agrees _ _ target),
)
