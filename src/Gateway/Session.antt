-- ===== src/Gateway/Session.antt =====
-- The message loop of `StreamAudio` in backend/gateway/src/gateway/service.py: what one message of
-- an open session does to the databases and what is sent back.
-- A call of a database may raise; the arrival of a message says which one does, if any. The calls
-- are made in the source's order, and what was done before the exception stays done.
pub mod Acks
pub mod Frames
use drone_audio_sensor.Common.{
  ℕ, ◌+◌, Bool, true, false, List, [], ◌∷◌, ◌++◌, Option, none, some, String, if◌then◌else◌, str_eq,
}
use drone_audio_sensor.Common.Int.{ℤ, pos, minus_one, diff_ge}
use drone_audio_sensor.Gateway.Store.{
  World, AudioFrame, Health, Location, Payload, handshake, audio_frame, health, location_update,
  unset, location_name,
}
use drone_audio_sensor.Gateway.Registry.{update_location, update_audio_codec}
use drone_audio_sensor.Gateway.HotState.{touch, update_health, publish_frame, entry}

-- What raises: gRPC, any other exception, or the cancellation of the handler.
pub data Fault : Type 0 where
  rpc_error : String → Fault
  exception : String → Fault
  cancelled : Fault

pub data Call : Type 0 where
  at_touch at_codec at_publish at_ack at_health at_location : Call

abbrev pub same_call : Call → Call → Bool
same_call at_touch at_touch = true
same_call at_codec at_codec = true
same_call at_publish at_publish = true
same_call at_ack at_ack = true
same_call at_health at_health = true
same_call at_location at_location = true
same_call _ _ = false

-- A message, the times that its handler reads, and the id that it makes for an acknowledgement.
pub record Arrival (F : Type 0) : Type 0 where
  pub payload : Payload F
  pub seen_ms : ℕ
  pub sent_ms : ℕ
  pub command_id : String
  pub raises : Option (Call × Fault)

pub data CommandPayload : Type 0 where
  session_ack : String → String → ℕ → ℕ → CommandPayload
  frame_ack : ℕ → CommandPayload
  wipe_device : String → CommandPayload

pub record Command : Type 0 where
  pub command_id : String
  pub server_timestamp_ms : ℕ
  pub payload : CommandPayload

-- What the loop takes from the handshake, and the settings it reads.
pub record Session : Type 0 where
  pub device_id : String
  pub session_id : String
  pub site_label : String
  pub publish_audio : Bool
  pub ack_interval_frames : ℕ

pub record Loop (F : Type 0) : Type 0 where
  pub world : World F
  pub frames_received : ℕ
  pub last_acked_seq : ℤ
  pub codec_persisted : Option String
  pub sent : List Command

-- The loop's state, and what was raised.
abbrev pub Outcome : Type 0 → Type 0
Outcome F = Loop F × Option Fault

infixl 5 ◌▸◌
abbrev pub ◌▸◌ : {F : Type 0} → Outcome F → (Loop F → Outcome F) → Outcome F
(l, none) ▸ k = k l
(l, some e) ▸ k = (l, some e)

abbrev pub raised_at : Call → Option (Call × Fault) → Option Fault
raised_at c none = none
raised_at c (some (c', e)) = if same_call c c' then some e else none

-- `frame.codec or "pcm16"`.
abbrev pub frame_codec : AudioFrame → String
frame_codec f = if str_eq f.codec "" then "pcm16" else f.codec

abbrev pub is_persisted : Option String → String → Bool
is_persisted none codec = false
is_persisted (some c) codec = str_eq c codec

module _ {F : Type 0} where
  -- One call: it does its work, or it raises and does nothing.
  unfoldable pub perform : Arrival F → Call → (Loop F → Loop F) → Loop F → Outcome F
  perform a c f l = elim (raised_at c a.raises) [ none ↦ (f l, none) | some e ↦ (l, some e) ]

  -- `frames_received += 1` and the write of the hot state.
  unfoldable pub count_frame : Session → Arrival F → AudioFrame → Loop F → Outcome F
  unfolding perform touch
  count_frame s a f l =
      let n = l.frames_received + 1 in
      perform a at_touch
        (λ m. record m {
          world = record (m.world) {
            hot = touch m.world.hot s.device_id f.sequence_number n a.seen_ms;
          };
        })
        (record l { frames_received = n })

  -- The codec is persisted when it is the first of the session or changes.
  unfoldable pub persist_codec : Session → Arrival F → AudioFrame → Loop F → Outcome F
  unfolding perform update_audio_codec
  persist_codec s a f l =
      if is_persisted l.codec_persisted (frame_codec f)
      then (l, none)
      else perform a at_codec
          (λ m. record m {
            world = record (m.world) {
              devices = update_audio_codec m.world.devices s.device_id (frame_codec f);
            };
            codec_persisted = some (frame_codec f);
          })
          l

  unfoldable pub publish : Session → Arrival F → AudioFrame → Loop F → Outcome F
  unfolding perform publish_frame
  publish s a f l =
      if s.publish_audio
      then perform a at_publish
          (λ m. record m {
            world = record (m.world) {
              frames = publish_frame m.world.frames (entry s.device_id s.session_id s.site_label f);
            };
          })
          l
      else (l, none)

  -- The acknowledgement, if the interval has passed since the last one. The state is moved first.
  unfoldable pub acknowledge : Session → Arrival F → AudioFrame → Loop F → Outcome F
  unfolding perform
  acknowledge s a f l =
      if diff_ge (pos f.sequence_number) l.last_acked_seq s.ack_interval_frames
      then perform a at_ack
          (λ m. record m {
            sent =
                m.sent
                ++ record {
                  command_id = a.command_id;
                  server_timestamp_ms = a.sent_ms;
                  payload = frame_ack f.sequence_number;
                }
                  ∷ [];
          })
          (record l { last_acked_seq = pos f.sequence_number })
      else (l, none)

  unfoldable pub on_audio : Session → Arrival F → AudioFrame → Loop F → Outcome F
  unfolding count_frame persist_codec publish acknowledge
  on_audio s a f l = count_frame s a f l ▸ persist_codec s a f ▸ publish s a f ▸ acknowledge s a f

  unfoldable pub on_health : Session → Arrival F → Health → Loop F → Outcome F
  unfolding perform update_health
  on_health s a h l =
      perform a at_health
        (λ m. record m {
          world = record (m.world) { hot = update_health m.world.hot s.device_id h a.seen_ms };
        })
        l

  unfoldable pub on_location : Session → Arrival F → Location F → Loop F → Outcome F
  unfolding perform update_location
  on_location s a loc l =
      perform a at_location
        (λ m. record m {
          world = record (m.world) {
            devices =
                update_location m.world.devices s.device_id loc.latitude loc.longitude
                  (some loc.horizontal_accuracy_meters) (some (location_name loc.status))
                  loc.location_timestamp_ms a.seen_ms;
          };
        })
        l

  -- A second handshake and an unknown payload are logged and ignored.
  unfoldable pub dispatch : Session → Arrival F → Payload F → Loop F → Outcome F
  unfolding on_audio on_health on_location
  dispatch s a (audio_frame f) l = on_audio s a f l
  dispatch s a (health h) l = on_health s a h l
  dispatch s a (location_update loc) l = on_location s a loc l
  dispatch s a (handshake h) l = (l, none)
  dispatch s a unset l = (l, none)

  unfoldable pub on_message : Session → Arrival F → Loop F → Outcome F
  unfolding dispatch
  on_message s a l = dispatch s a a.payload l

  -- The `async for`, up to the first exception; `end` is what the stream itself ends with.
  unfoldable pub serve : Session → List (Arrival F) → Option Fault → Loop F → Outcome F
  unfolding on_message
  serve s [] end l = (l, end)
  serve s (a ∷ rest) end l = on_message s a l ▸ serve s rest end
