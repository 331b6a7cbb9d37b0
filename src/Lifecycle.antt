-- ===== src/Lifecycle.antt =====
-- The device lifecycle of backend/gateway/src/gateway/state_machine.py: its six states, the
-- coercion of stored text, and the admin's transitions. backend/admin/src/admin/state_machine.py is
-- the copy that the admin service carries; its rule set is modelled in Lifecycle/Mirror.antt.
pub mod Graph
pub mod Rules
pub mod Mirror
mod Examples
use drone_audio_sensor.Common.{
  ℕ, Bool, true, false, ◌&&◌, ◌||◌, not, List, [], ◌∷◌, Option, none, some, String, ◌==◌,
  if◌then◌else◌,
}
use drone_audio_sensor.Common.Results.{Result, ok, err}
use drone_audio_sensor.Common.Text.{codes, strip, lower, text_eq}

pub data State : Type 0 where
  setup_pending active lost revoked wipe_requested wipe_sent : State

abbrev pub all_states : List State
all_states = setup_pending ∷ active ∷ lost ∷ revoked ∷ wipe_requested ∷ wipe_sent ∷ []

-- The canonical text of a state, as Firestore holds it.
abbrev pub text : State → String
text setup_pending = "setup_pending"
text active = "active"
text lost = "lost"
text revoked = "revoked"
text wipe_requested = "wipe_requested"
text wipe_sent = "wipe_sent"

-- States are compared by their place in the list above.
abbrev pub index : State → ℕ
index setup_pending = 0
index active = 1
index lost = 2
index revoked = 3
index wipe_requested = 4
index wipe_sent = 5

abbrev pub state_eq : State → State → Bool
state_eq a b = index a == index b

abbrev pub contains : List State → State → Bool
contains [] s = false
contains (x ∷ xs) s = state_eq s x || contains xs s

abbrev pub contains_pair : List (State × State) → State → State → Bool
contains_pair [] s t = false
contains_pair ((x, y) ∷ ps) s t = (state_eq s x && state_eq t y) || contains_pair ps s t

-- `_ADMIN_TRANSITIONS`.
abbrev pub admin_transitions : State → List State
admin_transitions setup_pending = active ∷ revoked ∷ wipe_requested ∷ []
admin_transitions active = lost ∷ revoked ∷ wipe_requested ∷ []
admin_transitions lost = active ∷ revoked ∷ wipe_requested ∷ []
admin_transitions revoked = active ∷ []
admin_transitions wipe_requested = []
admin_transitions wipe_sent = []

abbrev pub extra_confirm : List (State × State)
extra_confirm =
    (revoked, active)
    ∷ (active, wipe_requested)
    ∷ (lost, wipe_requested)
    ∷ (setup_pending, wipe_requested)
    ∷ []

abbrev pub connectable_states : List State
connectable_states = setup_pending ∷ active ∷ lost ∷ wipe_requested ∷ []

abbrev pub publish_audio_states : List State
publish_audio_states = active ∷ []

abbrev pub terminal_states : List State
terminal_states = wipe_sent ∷ []

-- The state of a list whose text is the given one: the test `s in ALL_STATES`, and the state that
-- the text stands for.
abbrev pub recognise : List State → List ℕ → Option State
recognise [] s = none
recognise (x ∷ xs) s = if text_eq s (codes (text x)) then some x else recognise xs s

abbrev pub is_empty : List ℕ → Bool
is_empty [] = true
is_empty (c ∷ s) = false

-- A missing, empty or unknown text is `active`; so is the legacy `offline`.
unfoldable pub normalize : Option String → State
normalize none = active
normalize (some s) =
    if is_empty (codes s)
    then active
    else elim (recognise all_states (lower (strip (codes s)))) [ none ↦ active | some x ↦ x ]

unfoldable pub is_setup_pending : String → Bool
is_setup_pending s = state_eq (normalize (some s)) setup_pending

unfoldable pub allowed_next_states : String → List State
allowed_next_states current = admin_transitions (normalize (some current))

unfoldable pub requires_extra_confirmation : String → String → Bool
requires_extra_confirmation current target =
    contains_pair extra_confirm (normalize (some current)) (normalize (some target))

-- The three messages of `InvalidTransitionError`, and the one of a missing device in `set_state`.
pub data TransitionError : Type 0 where
  unknown_target : String → TransitionError
  gateway_internal : TransitionError
  not_allowed : State → State → TransitionError
  unknown_device : String → TransitionError

-- The tests of `validate_admin_transition`, in order, on the two states that it read.
unfoldable pub validate : State → State → String → Result TransitionError (Unit {0})
validate cur tgt target =
    if not (contains all_states tgt)
    then err (unknown_target target)
    else if state_eq tgt wipe_sent
    then err gateway_internal
    else if not (contains (admin_transitions cur) tgt)
    then err (not_allowed cur tgt)
    else ok tt

unfoldable pub validate_admin_transition : String → String → Result TransitionError (Unit {0})
validate_admin_transition current target =
    validate (normalize (some current)) (normalize (some target)) target

unfoldable pub is_connectable : String → Bool
is_connectable s = contains connectable_states (normalize (some s))

unfoldable pub may_publish_audio : String → Bool
may_publish_audio s = contains publish_audio_states (normalize (some s))

unfoldable pub is_terminal : String → Bool
is_terminal s = contains terminal_states (normalize (some s))
