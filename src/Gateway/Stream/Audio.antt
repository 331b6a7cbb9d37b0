-- ===== src/Gateway/Stream/Audio.antt =====
-- The audio that a session lets through to inference, and its acknowledgements.
use drone_audio_sensor.Common.{
  ◌≡◌, refl, ◌∙◌, ◌≢◌, true, false, List, [], ◌∷◌, ◌++◌, Option, arith, map, Bool-cases, none, some,
  str_eq, if◌then◌else◌, inl, inr,
}
use drone_audio_sensor.Common.Int.{ℤ, minus_one}
use drone_audio_sensor.Lifecycle.{State, active, wipe_requested, state_eq, text, may_publish_audio}
use drone_audio_sensor.Lifecycle.Rules.{normalize-text}
use drone_audio_sensor.Gateway.Store.{World, Handshake, AudioFrame, FrameEntry}
use drone_audio_sensor.Gateway.HotState.{entry}
use drone_audio_sensor.Gateway.Session.{Fault, Arrival, serve}
use drone_audio_sensor.Gateway.Session.Acks.{acks, Spaced, serve-Acked}
use drone_audio_sensor.Gateway.Session.Frames.{audio_frames, IsQuiet, serve_muted, serve-Forwards}
use drone_audio_sensor.Gateway.Admission.{Config}
use drone_audio_sensor.Gateway.Stream.{
  Readings, session_state, open_world, open_ack, wipe_session, session_of, stream_session,
  run_session, loop_start,
}

publishes : (s : State) → may_publish_audio (text s) ≡ state_eq s active
unfolding may_publish_audio
publishes s = rw (normalize-text s) (ground arith)

eq_of_state_eq : (s t : State) → state_eq s t ≡ true → s ≡ t
eq_of_state_eq s t h = ground arith

ne_of_state : (s : State) → s ≢ active → state_eq s active ≡ false
ne_of_state s h = ground (arith, eq_of_state_eq s active)

-- What an entry of the stream has to say of a frame.
abbrev pub entry_for : {F : Type 0} → Handshake F → Readings → AudioFrame → FrameEntry
entry_for h r f = record {
  d = h.device_id;
  ses = r.session_id;
  s = f.sequence_number;
  t = f.capture_timestamp_ms;
  r = f.sample_rate_hz;
  l = h.assigned_site_label;
  p = f.pcm16_mono;
  c = if str_eq f.codec "" then none else some f.codec;
}

module _ {F : Type 0} (cfg : Config) (r : Readings) (w : World F) (h : Handshake F)
    (arrivals : List (Arrival F)) (end : Option Fault) where
  -- A session whose state at the handshake, in which a device in setup counts as active, is not
  -- active - lost, revoked, to be wiped or wiped - adds nothing to the frame stream, whatever it
  -- sends.
  pub run_session_muted :
      session_state w.devices h.device_id ≢ active
      → (run_session cfg r w h arrivals end).0.frames ≡ w.frames
  unfolding run_session session_of stream_session open_world wipe_session
  run_session_muted inactive =
      let s = session_state w.devices h.device_id in
      let silent : may_publish_audio (text s) ≡ false = publishes s ∙ ne_of_state s inactive in
      elim (Bool-cases (state_eq s wipe_requested)) [
        | inl wipe ↦ rw wipe refl
        | inr stay ↦ rw stay (
            serve_muted (session_of cfg h r s) arrivals end
              (loop_start (open_world w h r) (open_ack cfg h r ∷ [])) silent)
      ]

  -- A session of a device that is active at the handshake, or whose setup ends there, puts one entry
  -- into the frame stream for every audio frame that it sends, in order, if no call raises. An entry
  -- has the frame's number, capture time, rate, payload and codec, an empty codec left out, with the
  -- device, the session and the site of the handshake.
  pub run_session_forwards :
      session_state w.devices h.device_id ≡ active
      → IsQuiet arrivals
      → (run_session cfg r w h arrivals end).0.frames
        ≡ w.frames ++ map (entry_for h r) (audio_frames arrivals)
  unfolding run_session session_of stream_session open_world entry
  run_session_forwards is_active quiet =
      rw is_active
        (serve-Forwards (session_of cfg h r active) arrivals end
          (loop_start (open_world w h r) (open_ack cfg h r ∷ [])) (publishes active) quiet).0.0

  -- The acknowledgements of a session rise by at least the configured interval each time, counting
  -- from -1, whatever arrives and whichever calls raise.
  pub run_session-acks :
      (hi : ℤ) × Spaced cfg.ack_interval_frames minus_one
        (acks (run_session cfg r w h arrivals end).1)
        hi
  unfolding run_session session_of stream_session open_ack wipe_session
  run_session-acks =
      let s = session_state w.devices h.device_id in
      elim (Bool-cases (state_eq s wipe_requested)) [
        | inl wipe ↦ (minus_one, rw wipe (omega arith))
        | inr stay ↦ (
          (serve (session_of cfg h r s) arrivals end
              (loop_start (open_world w h r) (open_ack cfg h r ∷ []))).0.last_acked_seq,
          rw stay (
              serve-Acked (session_of cfg h r s) arrivals end
                (loop_start (open_world w h r) (open_ack cfg h r ∷ [])) (omega arith)),
        )
      ]
