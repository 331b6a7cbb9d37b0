-- ===== src/Provision.antt =====
-- The command line tool of scripts/provision_device.py, with its own copy of the state machine.
-- The reading of keys (`cryptography`), the clock and the user's name are inputs.
pub mod Commands
mod Examples
use drone_audio_sensor.Common.{
  ℕ, ◌≡◌, refl, Bool, true, false, not, ◌&&◌, List, [], ◌∷◌, Option, none, some, String,
  if◌then◌else◌, str_eq, get_or,
}
use drone_audio_sensor.Common.Results.{Result, ok, err, ◌>>=◌}
use drone_audio_sensor.Common.Text.{codes, strip, lower}
use drone_audio_sensor.Lifecycle.{
  State, setup_pending, active, lost, revoked, wipe_requested, wipe_sent, text, contains,
  contains_pair, state_eq, recognise, is_empty,
}
use drone_audio_sensor.Gateway.Store.{Device, Table, empty, write}
use drone_audio_sensor.Admin.{or_text}

abbrev pub all_states : List State
all_states = setup_pending ∷ active ∷ lost ∷ revoked ∷ wipe_requested ∷ wipe_sent ∷ []

-- `_ADMIN_TRANSITIONS`.
abbrev pub admin_transitions : State → List State
admin_transitions setup_pending = active ∷ revoked ∷ wipe_requested ∷ []
admin_transitions active = lost ∷ revoked ∷ wipe_requested ∷ []
admin_transitions lost = active ∷ revoked ∷ wipe_requested ∷ []
admin_transitions revoked = active ∷ []
admin_transitions wipe_requested = []
admin_transitions wipe_sent = []

abbrev pub extra_confirm : List (State × State)
extra_confirm =
    (revoked, active)
    ∷ (active, wipe_requested)
    ∷ (lost, wipe_requested)
    ∷ (setup_pending, wipe_requested)
    ∷ []

-- `_normalize_state`.
unfoldable pub normalize_state : Option String → State
normalize_state none = active
normalize_state (some s) =
    if is_empty (codes s)
    then active
    else elim (recognise all_states (lower (strip (codes s)))) [ none ↦ active | some x ↦ x ]

-- The messages of `click.UsageError`.
pub data UsageError : Type 0 where
  unknown_target : State → UsageError
  gateway_internal : UsageError
  not_allowed : State → State → UsageError
  unknown_device : String → UsageError
  requires_confirm : State → State → UsageError
  pass_confirm : UsageError

-- `_validate_transition`, on states that are normal already, as both callers' are.
unfoldable pub validate_transition : State → State → Result UsageError (Unit {0})
validate_transition cur tgt =
    if not (contains all_states tgt)
    then err (unknown_target tgt)
    else if state_eq tgt wipe_sent
    then err gateway_internal
    else if not (contains (admin_transitions cur) tgt)
    then err (not_allowed cur tgt)
    else ok tt

-- A device's document with the fields that only this tool writes.
pub record Doc (F : Type 0) : Type 0 where
  pub device : Device F
  pub admin_notes : Option String
  pub registered_at_ms : Option ℕ
  pub last_wipe_request_admin : Option String
  pub last_revocation_reason : Option String
  pub revoked_at_ms : Option ℕ

abbrev pub blank : {F : Type 0} → Doc F
blank = record {
  device = empty;
  admin_notes = none;
  registered_at_ms = none;
  last_wipe_request_admin = none;
  last_revocation_reason = none;
  revoked_at_ms = none;
}

abbrev pub merge_doc : {F : Type 0} → Table (Doc F) → String → (Doc F → Doc F) → Table (Doc F)
merge_doc m k f = write m k (f (get_or (m k) blank))

module _ {F : Type 0} where
  -- The payload of `register` for a device that is there.
  abbrev pub registered : String → String → String → String → ℕ → Doc F → Doc F
  registered device_id pem site notes now d = record d {
    device = record (d.device) {
      device_id = some device_id;
      public_key_pem = some pem;
      assigned_site_label = some site;
    };
    admin_notes = some notes;
    registered_at_ms = some now;
  }

  abbrev pub first_registered : String → String → String → String → ℕ → Doc F → Doc F
  first_registered device_id pem site notes now d =
      let r = registered device_id pem site notes now d in
      record r {
        device = record (r.device) { first_seen_ms = some now; state = some (text setup_pending) };
      }

  abbrev pub register_found :
      Table (Doc F) → String → String → String → String → ℕ → Option (Doc F) → Table (Doc F)
  register_found m device_id pem site notes now none =
      merge_doc m device_id (first_registered device_id pem site notes now)
  register_found m device_id pem site notes now (some d) =
      merge_doc m device_id (registered device_id pem site notes now)

  -- `register`, with the key that `_validate_public_key` returned.
  unfoldable pub register : Table (Doc F) → String → String → String → String → ℕ → Table (Doc F)
  register m device_id pem site notes now =
      register_found m device_id pem site notes now (m device_id)

  unfoldable pub current_of : Doc F → State
  current_of d = normalize_state (or_text d.device.state d.device.status)

  -- The payload of the transaction.
  unfoldable pub update : State → ℕ → String → Doc F → Doc F
  update target now user d =
      if state_eq target wipe_requested
      then record d {
        device = record (d.device) { state = some (text target); wipe_requested_at_ms = some now };
        last_wipe_request_admin = some user;
      }
      else if state_eq target active
      then record d {
        device = record (d.device) { state = some (text target); wipe_requested_at_ms = none };
      }
      else record d { device = record (d.device) { state = some (text target) } }

  abbrev pub confirmed :
      Table (Doc F) → String → State → State → Bool → ℕ → String → Result UsageError (Table (Doc F))
  confirmed m device_id current target confirm now user =
      if contains_pair extra_confirm current target && not confirm
      then err (requires_confirm current target)
      else ok (merge_doc m device_id (update target now user))

  abbrev pub found :
      Table (Doc F)
      → String
      → State
      → Bool
      → ℕ
      → String
      → Option (Doc F)
      → Result UsageError (Table (Doc F))
  found m device_id target confirm now user none = err (unknown_device device_id)
  found m device_id target confirm now user (some d) =
      validate_transition (current_of d) target >>= λ _.
      confirmed m device_id (current_of d) target confirm now user

  -- `set_state`.
  unfoldable pub set_state :
      Table (Doc F) → String → String → Bool → ℕ → String → Result UsageError (Table (Doc F))
  set_state m device_id target_state confirm now user =
      found m device_id (normalize_state (some target_state)) confirm now user (m device_id)

  unfoldable pub request_wipe :
      Table (Doc F) → String → String → ℕ → String → Result UsageError (Table (Doc F))
  request_wipe m device_id confirm now user =
      if not (str_eq confirm "WIPE")
      then err pass_confirm
      else set_state m device_id (text wipe_requested) true now user

  abbrev pub revoke_found :
      Table (Doc F)
      → String
      → String
      → ℕ
      → ℕ
      → String
      → Option (Doc F)
      → Result UsageError (Table (Doc F))
  revoke_found m device_id reason now later user none = err (unknown_device device_id)
  revoke_found m device_id reason now later user (some d) =
      set_state m device_id (text revoked) false now user >>= λ m'. ok (
        merge_doc m' device_id
          (λ x. record x { last_revocation_reason = some reason; revoked_at_ms = some later }))

  -- `revoke`; the clock is read again for the second write.
  unfoldable pub revoke :
      Table (Doc F) → String → String → ℕ → ℕ → String → Result UsageError (Table (Doc F))
  revoke m device_id reason now later user =
      revoke_found m device_id reason now later user (m device_id)

  unfoldable pub unrevoke :
      Table (Doc F) → String → Bool → ℕ → String → Result UsageError (Table (Doc F))
  unrevoke m device_id confirm now user = set_state m device_id (text active) confirm now user
