-- ===== src/Admin.antt =====
-- The admin service, backend/admin/src/admin/firestore_repo.py: the change of a device's state, and
-- the lists of recent and of suppressed detections. Its copy of the state machine is in
-- Lifecycle/Mirror.antt. What a query of Firestore returns, in its order, is an input.
pub mod SetState
pub mod Lists
pub mod Devices
pub mod Sites
pub mod ChangeState
pub mod Live
pub mod Simulate
pub mod Simulated
pub mod Shown
mod Examples
use drone_audio_sensor.Common.{
  ℕ, ◌+◌, ◌*◌, ◌-◌, Bool, true, false, not, ◌&&◌, ◌||◌, List, [], ◌∷◌, Option, none, some, String,
  if◌then◌else◌, str_eq, ltb, ◌==◌, take, get_or,
}
use drone_audio_sensor.Common.Results.{Result, ok, err}
use drone_audio_sensor.Lifecycle.{
  State, active, wipe_requested, state_eq, text, TransitionError, unknown_device,
}
use drone_audio_sensor.Lifecycle.Mirror.{normalize, validate_admin_transition}
use drone_audio_sensor.Gateway.Store.{Device, Table, merge}

-- `x or y` on texts: a missing and an empty text count as none.
abbrev pub or_text : Option String → Option String → Option String
or_text none y = y
or_text (some x) y = if str_eq x "" then y else some x

module _ {F : Type 0} where
  -- `normalize(data.get("state") or data.get("status"))`.
  unfoldable pub current_state : Device F → State
  current_state d = normalize (or_text d.state d.status)

  -- The payload of the transaction.
  unfoldable pub change : State → ℕ → Device F → Device F
  change tgt now_ms d =
      if state_eq tgt wipe_requested
      then record d { state = some (text tgt); wipe_requested_at_ms = some now_ms }
      else if state_eq tgt active
      then record d { state = some (text tgt); wipe_requested_at_ms = none }
      else record d { state = some (text tgt) }

  abbrev pub set_checked :
      Table (Device F)
      → String
      → State
      → ℕ
      → Result TransitionError (Unit {0})
      → Result TransitionError (Table (Device F))
  set_checked m device_id tgt now_ms (err e) = err e
  set_checked m device_id tgt now_ms (ok tt) = ok (merge m device_id (change tgt now_ms))

  abbrev pub set_known :
      Table (Device F)
      → String
      → String
      → ℕ
      → Option (Device F)
      → Result TransitionError (Table (Device F))
  set_known m device_id target now_ms none = err (unknown_device device_id)
  set_known m device_id target now_ms (some d) =
      set_checked m device_id (normalize (some target)) now_ms
        (validate_admin_transition (text (current_state d)) target)

  -- `set_state`: the documents that are left, or the error, which leaves them as they are.
  unfoldable pub set_state :
      Table (Device F) → String → String → ℕ → Result TransitionError (Table (Device F))
  set_state m device_id target now_ms = set_known m device_id target now_ms (m device_id)

-- The fields of a detection's document that the two lists read; `chronic_suppressed` is its truth.
pub record DetectionDoc : Type 0 where
  pub detection_id : String
  pub published_at_ms : Option ℕ
  pub suppression_reason : Option String
  pub chronic_suppressed : Bool
  pub site : Option String

-- The fields of `DetectionRow` that come from these.
pub record DetectionRow : Type 0 where
  pub detection_id : String
  pub published_at_ms : Option ℕ
  pub suppression_reason : String
  pub site : String

unfoldable pub to_detection_row : DetectionDoc → DetectionRow
to_detection_row d = record {
  detection_id = d.detection_id;
  published_at_ms = d.published_at_ms;
  suppression_reason = get_or d.suppression_reason "";
  site = get_or d.site "";
}

-- `published and published < cutoff_ms`.
unfoldable pub is_old : ℕ → DetectionDoc → Bool
is_old cutoff_ms d =
    let published = get_or d.published_at_ms 0 in not (published == 0) && ltb published cutoff_ms

-- The reason, with the one that old documents stand for.
unfoldable pub reason_of : DetectionDoc → String
reason_of d =
    let sr = get_or d.suppression_reason "" in
    if str_eq sr "" && d.chronic_suppressed then "chronic" else sr

-- `data.get("suppression_reason") or data.get("chronic_suppressed")`.
unfoldable pub is_suppressed : DetectionDoc → Bool
is_suppressed d = not (str_eq (get_or d.suppression_reason "") "") || d.chronic_suppressed

-- An argument that is `None` filters nothing.
abbrev pub differs : Option String → String → Bool
differs none x = false
differs (some y) x = not (str_eq x y)

unfoldable pub recent : Option String → ℕ → List DetectionDoc → List DetectionRow
recent site cutoff_ms [] = []
recent site cutoff_ms (d ∷ ds) =
    let rest = recent site cutoff_ms ds in
    let row = to_detection_row d in
    if is_old cutoff_ms d
    then rest
    else if is_suppressed d
    then rest
    else if differs site row.site
    then rest
    else row ∷ rest

unfoldable pub suppressed :
    Option String → Option String → ℕ → List DetectionDoc → List DetectionRow
suppressed site reason cutoff_ms [] = []
suppressed site reason cutoff_ms (d ∷ ds) =
    let rest = suppressed site reason cutoff_ms ds in
    let row = record (to_detection_row d) { suppression_reason = reason_of d } in
    if is_old cutoff_ms d
    then rest
    else if str_eq (reason_of d) ""
    then rest
    else if differs reason (reason_of d)
    then rest
    else if differs site row.site
    then rest
    else row ∷ rest

-- `list_recent_detections`, on the documents in the order of the query. The cutoff is taken not to
-- lie before 1970.
unfoldable pub list_recent_detections :
    Option String → ℕ → ℕ → ℕ → List DetectionDoc → List DetectionRow
list_recent_detections site now_ms window_seconds limit docs =
    recent site (now_ms - window_seconds * 1000) (take limit docs)

-- `list_suppressed_detections`: it looks at three times as many documents.
unfoldable pub list_suppressed_detections :
    Option String → Option String → ℕ → ℕ → ℕ → List DetectionDoc → List DetectionRow
list_suppressed_detections site reason now_ms window_seconds limit docs =
    suppressed site reason (now_ms - window_seconds * 1000) (take (limit * 3) docs)
