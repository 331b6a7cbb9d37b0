-- ===== src/Gateway/Stream/Effects.antt =====
-- What a session does to the lifecycle of devices.
use Prim.Native.String.{String}
use drone_audio_sensor.Common.{
  ◌≡◌, refl, ap, sym, ◌∙◌, true, false, List, [], ◌∷◌, Option, none, some, arith, str_eq,
  Bool-cases, Option-cases, inl, inr, if◌then◌else◌,
}
use drone_audio_sensor.Lifecycle.{
  State, setup_pending, active, wipe_requested, wipe_sent, state_eq, normalize,
}
use drone_audio_sensor.Gateway.Store.{
  World, Device, Table, AudioFrame, Payload, Handshake, Health, Location, handshake, audio_frame,
  health, location_update, unset,
}
use drone_audio_sensor.Gateway.Registry.{state_of, get_state, complete_setup, upsert_handshake}
use drone_audio_sensor.Gateway.Registry.States.{
  life, Keeps, Keeps-refl, Keeps-trans, update_location-Keeps, update_audio_codec-Keeps,
  mark_disconnected-Keeps, upsert_handshake-Keeps, life_of_Keeps, state_of_same, after_setup,
  complete_setup_lem, complete_setup-doc, normalize-get_state, mark_wipe_sent-life,
}
use drone_audio_sensor.Gateway.Session.{
  Fault, Arrival, Command, Session, Loop, Outcome, ◌▸◌, perform, raised_at, at_codec, at_location,
  count_frame, persist_codec, publish, acknowledge, on_audio, on_health, on_location, dispatch,
  on_message, serve, is_persisted, frame_codec,
}
use drone_audio_sensor.Gateway.Admission.{Config}
use drone_audio_sensor.Gateway.Stream.{
  Readings, session_state, open_world, open_ack, session_of, stream_session, run_session,
  loop_start, handshake_fields,
}

module _ {F : Type 0} (s : Session) where
  abbrev KeepsLife : Loop F → Outcome F → Type 0
  KeepsLife l o = Keeps s.device_id l.world.devices o.0.world.devices

  same_devices : (l : Loop F) (o : Outcome F) → o.0.world.devices ≡ l.world.devices → KeepsLife l o
  same_devices l o e = rw e (Keeps-refl s.device_id l.world.devices)

  persist_codec-KeepsLife :
      (a : Arrival F) (f : AudioFrame) (l : Loop F) → KeepsLife l (persist_codec s a f l)
  unfolding persist_codec
  persist_codec-KeepsLife a f l =
      elim (Bool-cases (is_persisted l.codec_persisted (frame_codec f))) [
        | inl same ↦ rw same (Keeps-refl s.device_id l.world.devices)
        | inr new ↦ rw new (elim (Option-cases (raised_at at_codec a.raises)) [
          | inl calm ↦
              rw (calm, perform)
                (update_audio_codec-Keeps l.world.devices s.device_id (frame_codec f))
          | inr (e, failed) ↦ rw (failed, perform) (Keeps-refl s.device_id l.world.devices)
        ])
      ]

  ▸-KeepsLife :
      (l : Loop F) (o : Outcome F) (k : Loop F → Outcome F)
      → KeepsLife l o
      → ((m : Loop F) → KeepsLife m (k m))
      → KeepsLife l (o ▸ k)
  ▸-KeepsLife l (m, none) k h g = Keeps-trans h (g m)
  ▸-KeepsLife l (m, some e) k h g = h

  on_location-KeepsLife :
      (a : Arrival F) (p : Location F) (l : Loop F) → KeepsLife l (on_location s a p l)
  unfolding on_location
  on_location-KeepsLife a p l = elim (Option-cases (raised_at at_location a.raises)) [
    | inl calm ↦ rw (calm, perform) (update_location-Keeps l.world.devices s.device_id _ _ _ _ _ _)
    | inr (e, failed) ↦ rw (failed, perform) (Keeps-refl s.device_id l.world.devices)
  ]

  count_frame-devices :
      (a : Arrival F) (f : AudioFrame) (l : Loop F)
      → (count_frame s a f l).0.world.devices ≡ l.world.devices
  unfolding count_frame
  count_frame-devices a f l = ground arith

  publish-devices :
      (a : Arrival F) (f : AudioFrame) (l : Loop F)
      → (publish s a f l).0.world.devices ≡ l.world.devices
  unfolding publish
  publish-devices a f l = ground arith

  acknowledge-devices :
      (a : Arrival F) (f : AudioFrame) (l : Loop F)
      → (acknowledge s a f l).0.world.devices ≡ l.world.devices
  unfolding acknowledge
  acknowledge-devices a f l = ground arith

  on_health-devices :
      (a : Arrival F) (p : Health) (l : Loop F)
      → (on_health s a p l).0.world.devices ≡ l.world.devices
  unfolding on_health
  on_health-devices a p l = ground arith

  dispatch-KeepsLife : (a : Arrival F) (p : Payload F) (l : Loop F) → KeepsLife l (dispatch s a p l)
  unfolding dispatch on_audio
  dispatch-KeepsLife a (audio_frame f) l =
      ▸-KeepsLife l (count_frame s a f l ▸ persist_codec s a f ▸ publish s a f) (acknowledge s a f)
        (▸-KeepsLife l (count_frame s a f l ▸ persist_codec s a f) (publish s a f)
          (▸-KeepsLife l (count_frame s a f l) (persist_codec s a f)
            (same_devices l (count_frame s a f l) (count_frame-devices a f l))
            (persist_codec-KeepsLife a f))
          (λ m. same_devices m (publish s a f m) (publish-devices a f m)))
        (λ m. same_devices m (acknowledge s a f m) (acknowledge-devices a f m))
  dispatch-KeepsLife a (health p) l = same_devices l (on_health s a p l) (on_health-devices a p l)
  dispatch-KeepsLife a (location_update p) l = on_location-KeepsLife a p l
  dispatch-KeepsLife a (handshake p) l = Keeps-refl s.device_id l.world.devices
  dispatch-KeepsLife a unset l = Keeps-refl s.device_id l.world.devices

  serve-KeepsLife :
      (arrivals : List (Arrival F)) (end : Option Fault) (l : Loop F)
      → KeepsLife l (serve s arrivals end l)
  unfolding serve on_message
  serve-KeepsLife [] end l = Keeps-refl s.device_id l.world.devices
  serve-KeepsLife (a ∷ rest) end l =
      ▸-KeepsLife l (dispatch s a a.payload l) (serve s rest end) (dispatch-KeepsLife a a.payload l)
        (serve-KeepsLife rest end)

  stream_session-Keeps :
      (r : Readings) (w : World F) (sent : List Command) (arrivals : List (Arrival F))
      (end : Option Fault)
      → Keeps s.device_id w.devices (stream_session s r w sent arrivals end).0.devices
  unfolding stream_session
  stream_session-Keeps r w sent arrivals end =
      Keeps-trans (serve-KeepsLife arrivals end (loop_start w sent))
        (mark_disconnected-Keeps _ s.device_id _ r.closed_ms)

-- What a session makes of a state: setup ends, and a requested wipe has been sent.
pub after_session : State → State
after_session setup_pending = active
after_session wipe_requested = wipe_sent
after_session s = s

wiping_session :
    (s : State) → state_eq (after_setup s) wipe_requested ≡ true → after_session s ≡ wipe_sent
unfolding after_session after_setup
wiping_session s h = ground arith

other_session :
    (s : State) → state_eq (after_setup s) wipe_requested ≡ false → after_session s ≡ after_setup s
unfolding after_session after_setup
other_session s h = ground arith

setup_if : (s : State) → (if state_eq s setup_pending then active else s) ≡ after_setup s
unfolding after_setup
setup_if s = ground arith

module _ {F : Type 0} (cfg : Config) (r : Readings) (w : World F) (h : Handshake F) (d : Device F)
    (t : String) (known : w.devices h.device_id ≡ some d) (recorded : d.state ≡ some t) where
  abbrev promoted : Table (Device F)
  promoted = (complete_setup w.devices h.device_id r.session_id r.setup_ms).0

  promotes :
      (if state_eq (normalize (get_state w.devices h.device_id)) setup_pending
        then promoted
        else w.devices)
      ≡ promoted
  promotes =
      let (_, did, same, _) =
        complete_setup_lem w.devices h.device_id r.session_id r.setup_ms d known in
      rw (normalize-get_state w.devices h.device_id d known)
        (elim (Bool-cases (state_eq (state_of d) setup_pending)) [
          | inl pending ↦ rw pending refl
          | inr other ↦ rw other (sym (same (did ∙ other)))
        ])

  opened_devices :
      (open_world w h r).devices
      ≡ (upsert_handshake promoted h.device_id (handshake_fields h r.session_id) r.handshake_ms).0
  unfolding open_world
  opened_devices = rw promotes refl

  session_state-after_setup : session_state w.devices h.device_id ≡ after_setup (state_of d)
  unfolding session_state
  session_state-after_setup =
      rw (normalize-get_state w.devices h.device_id d known) (setup_if (state_of d))

  -- Once the session is open, the device's document holds the state that the session goes by.
  opened :
      (d' : Device F) × ((open_world w h r).devices h.device_id ≡ some d')
      × (state_of d' ≡ after_setup (state_of d))
      × ((j : String) → str_eq h.device_id j ≡ false → (open_world w h r).devices j ≡ w.devices j)
  opened =
      let (d1, s1, found, holds, reads) =
        complete_setup-doc w.devices h.device_id r.session_id r.setup_ms d t known recorded in
      let kept =
        upsert_handshake-Keeps promoted h.device_id (handshake_fields h r.session_id) r.handshake_ms
          d1 s1 found holds in
      let (d2, found2, same, same') = kept.there d1 found in
      let (_, _, _, others) =
        complete_setup_lem w.devices h.device_id r.session_id r.setup_ms d known in
      (
        d2,
        rw opened_devices found2,
        state_of_same d1 d2 same same' ∙ reads,
        λ j n. rw opened_devices (kept.elsewhere j n ∙ others j n),
      )

  -- A session that is accepted for a device whose document records its state ends with that
  -- document in the state that the lifecycle prescribes: a device in setup is active, a requested
  -- wipe is sent, and any other state is as it was, whatever the messages are and whichever calls
  -- of the loop raise. The document of every other device is untouched.
  pub run_session-life :
      (arrivals : List (Arrival F)) (end : Option Fault)
      → let after = (run_session cfg r w h arrivals end).0.devices in
        (life (after h.device_id) ≡ some (after_session (state_of d)))
        × ((j : String) → str_eq h.device_id j ≡ false → after j ≡ w.devices j)
  unfolding run_session
  run_session-life arrivals end =
      let (d', found, reads, others) = opened in
      rw session_state-after_setup
        (elim (Bool-cases (state_eq (after_setup (state_of d)) wipe_requested)) [
          | inl wipe ↦
              let (sent, rest) =
                mark_wipe_sent-life (open_world w h r).devices h.device_id r.session_id
                  r.wipe_sent_ms in
              rw wipe (sent ∙ ap some (sym (wiping_session _ wipe)), λ j n. rest j n ∙ others j n)
          | inr stay ↦
              let kept =
                stream_session-Keeps (session_of cfg h r (after_setup (state_of d))) r
                  (open_world w h r) (open_ack cfg h r ∷ []) arrivals end in
              rw stay (
                life_of_Keeps d' found kept ∙ ap some (reads ∙ sym (other_session _ stay)),
                λ j n. kept.elsewhere j n ∙ others j n,
              )
        ])
