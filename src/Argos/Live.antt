-- ===== src/Argos/Live.antt =====
-- `LiveSubscriber` of scripts/argos_live_pull/subscriber.py: what becomes of the notifications of
-- clips, with the numbers of each device's frames and the counts. The handlers run side by side on
-- the event loop, which may switch between them only where they await: a handler's next stretch is
-- one step, and any handler may take the next step. What the downloads give, and whether the stream
-- to the gateway raises, are inputs. The event loop is there, as `run` sets it up, and the `+= 1` on
-- a count is taken as one step, whichever thread runs it. `F` is the type of floats.
use drone_audio_sensor.Common.{
  ℕ, ◌+◌, Bool, not, ◌&&◌, List, [], ◌∷◌, ◌++◌, Option, none, some, if◌then◌else◌, get_or, ltb,
}
use mathlib.Core.List.{reverse}
use drone_audio_sensor.Common.Text.{codes, lower, text_eq}
use drone_audio_sensor.Argos.Stations.{starts_with, device_id_for, sensor_from_path}

-- A position: a coordinate that the object lacks is none.
pub record Position (F : Type 0) : Type 0 where
  pub latitude : Option F
  pub longitude : Option F
  pub altitude : Option F

-- A sidecar that is no object, or whose `location` is none, has no position.
pub record LiveSidecar (F : Type 0) : Type 0 where
  pub location : Option (Position F)
  pub start_time_ms : Option ℕ

-- `sensor_location`, with the roster's entry for the device.
module _ {F : Type 0} (zero : F) (is_zero : F → Bool) where
  abbrev pub position_or : Option (Position F) → Option (Position F) → Option (Position F)
  position_or none roster = roster
  position_or (some p) roster =
      if is_zero (get_or p.latitude zero) && is_zero (get_or p.longitude zero)
      then roster
      else some p

  unfoldable pub sensor_location :
      Option (LiveSidecar F) → Option (Position F) → Option (Position F)
  sensor_location none roster = roster
  sensor_location (some sidecar) roster = position_or sidecar.location roster

  -- The latitude, the longitude and the altitude of the handshake.
  abbrev pub handshake_location : Option (Position F) → F × F × F
  handshake_location none = (zero, zero, zero)
  handshake_location (some p) =
      (get_or p.latitude zero, get_or p.longitude zero, get_or p.altitude zero)

-- A notification: its two attributes, what the downloads give (none is an exception; a sidecar's
-- text that is no JSON raises as well), and whether the forwarding returns.
pub record Notification : Type 0 where
  pub object_id : Option (List ℕ)
  pub object_id_snake : Option (List ℕ)
  pub downloads : Bool
  pub parses : Bool
  pub forwards : Bool

-- A frame that was handed to `forward_one_clip`: the device and the number.
pub record Sent : Type 0 where
  pub device_id : List ℕ
  pub sequence : ℕ

-- How `_handle` ends.
pub data Ending : Type 0 where
  returns raises : Ending

-- A call of `_handle`: it waits for the semaphore; it loads the files of a device; it forwards its
-- frame, which will return or raise; it has ended, and is not counted yet.
pub data Handler : Type 0 where
  waiting : Notification → Handler
  loading : Notification → List ℕ → Handler
  forwarding : Bool → Handler
  ended : Ending → Handler

pub record Subscriber : Type 0 where
  pub seq : List ℕ → ℕ
  pub sent : List Sent
  pub received : ℕ
  pub forwarded : ℕ
  pub failed : ℕ
  pub handlers : List Handler

-- `a or b` on the attributes.
abbrev pub attribute_or : Option (List ℕ) → Option (List ℕ) → Option (List ℕ)
attribute_or none b = b
attribute_or (some []) b = b
attribute_or (some (c ∷ t)) b = some (c ∷ t)

-- `text.endswith(suffix)`.
abbrev pub ends_with : List ℕ → List ℕ → Bool
ends_with suffix t = starts_with (reverse suffix) (reverse t)

-- `_enqueue`, which starts the handler and acknowledges the message at once.
abbrev pub enqueue : Notification → Subscriber → Subscriber
enqueue n s = record s { received = s.received + 1; handlers = s.handlers ++ waiting n ∷ [] }

abbrev pub with_sensor : Notification → Option (List ℕ) → Handler
with_sensor n none = ended returns
with_sensor n (some []) = ended returns
with_sensor n (some (c ∷ t)) = loading n (device_id_for (c ∷ t))

abbrev pub with_object : Notification → Option (List ℕ) → Handler
with_object n none = ended returns
with_object n (some object_id) =
    if not (ends_with (codes ".wav") (lower object_id))
    then ended returns
    else with_sensor n (sensor_from_path object_id)

-- `_handle`, from the semaphore up to the downloads.
unfoldable pub begin : Notification → Handler
begin n = with_object n (attribute_or n.object_id n.object_id_snake)

-- The device's next number, and the call of `forward_one_clip` with it.
abbrev pub numbered : List ℕ → Subscriber → Subscriber
numbered device_id s = record s {
  seq = λ d. if text_eq device_id d then s.seq device_id + 1 else s.seq d;
  sent = s.sent ++ record { device_id = device_id; sequence = s.seq device_id + 1 } ∷ [];
}

-- `_handle`, from the downloads to the call of `forward_one_clip`.
abbrev pub load : Notification → List ℕ → Subscriber → Handler × Subscriber
load n device_id s =
    if n.downloads && n.parses
    then (forwarding n.forwards, numbered device_id s)
    else (ended raises, s)

abbrev pub conclude : Bool → Handler
conclude ok = ended (if ok then returns else raises)

-- `_after_handle`.
abbrev pub after_handle : Ending → Subscriber → Subscriber
after_handle returns s = record s { forwarded = s.forwarded + 1 }
after_handle raises s = record s { failed = s.failed + 1 }

abbrev pub total : (Handler → ℕ) → List Handler → ℕ
total w [] = 0
total w (h ∷ hs) = w h + total w hs

-- The places of the semaphore that a handler holds.
abbrev pub place_of : Handler → ℕ
place_of (waiting n) = 0
place_of (loading n device_id) = 1
place_of (forwarding ok) = 1
place_of (ended e) = 0

abbrev pub resumed : List Handler → List Handler → Handler × Subscriber → Subscriber
resumed before after (h, s) = record s { handlers = before ++ h ∷ after }

-- A handler's next step, between those before and after it in the list.
unfoldable pub advance : ℕ → List Handler → Handler → List Handler → Subscriber → Subscriber
advance max_inflight before (waiting n) after s =
    if ltb (total place_of s.handlers) max_inflight
    then record s { handlers = before ++ begin n ∷ after }
    else s
advance max_inflight before (loading n device_id) after s =
    resumed before after (load n device_id s)
advance max_inflight before (forwarding ok) after s = record s {
  handlers = before ++ conclude ok ∷ after;
}
advance max_inflight before (ended e) after s =
    after_handle e (record s { handlers = before ++ after })

-- The message of a notification arrives, or the handler at a place of the list takes its next step.
pub data Event : Type 0 where
  arrives : Notification → Event
  turn : ℕ → Event

abbrev pub behind :
    Handler
    → Option (List Handler × Handler × List Handler)
    → Option (List Handler × Handler × List Handler)
behind h none = none
behind h (some (before, x, after)) = some (h ∷ before, x, after)

abbrev pub pick : ℕ → List Handler → Option (List Handler × Handler × List Handler)
pick i [] = none
pick ℕ.zero (h ∷ hs) = some ([], h, hs)
pick (ℕ.suc i) (h ∷ hs) = behind h (pick i hs)

abbrev pub advance_picked :
    ℕ → Option (List Handler × Handler × List Handler) → Subscriber → Subscriber
advance_picked max_inflight none s = s
advance_picked max_inflight (some (before, h, after)) s = advance max_inflight before h after s

abbrev pub step : ℕ → Event → Subscriber → Subscriber
step max_inflight (arrives n) s = enqueue n s
step max_inflight (turn i) s = advance_picked max_inflight (pick i s.handlers) s

abbrev pub run : ℕ → List Event → Subscriber → Subscriber
run max_inflight [] s = s
run max_inflight (e ∷ es) s = run max_inflight es (step max_inflight e s)

abbrev pub fresh : Subscriber
fresh = record { seq = λ d. 0; sent = []; received = 0; forwarded = 0; failed = 0; handlers = [] }
