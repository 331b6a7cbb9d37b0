-- ===== src/Inference/Worker/Alerts.antt =====
-- Which frames alert the operator.
use drone_audio_sensor.Common.{
  ℕ, ◌+◌, ◌≡◌, refl, ap, ◌∙◌, ◌≢◌, ◌⊎◌, inl, inr, Bool, true, false, List, [], ◌∷◌, ◌++◌, Option,
  none, some, String, arith, str_eq, str_eq_iff, Bool-cases, Option-cases,
}
use drone_audio_sensor.Common.Int.{ℤ, is_zero}
use drone_audio_sensor.Inference.Float.{Float}
use drone_audio_sensor.Inference.Gate.{
  FrameInput, FrameScore, Entry, EvaluateResult, DetectionEvent, Settings, evaluate,
  build_detection,
}
use drone_audio_sensor.Inference.Memory.{
  Redis, append_score, is_suppressed, mark_suppressed, record_fire_and_chronic,
}
use drone_audio_sensor.Inference.Publisher.{Sinks, publish, message_of, attributes_of}
use drone_audio_sensor.Inference.Publisher.Routing.{published, publish_live, publish_suppressed}
use drone_audio_sensor.Inference.Worker.{
  Counters, Worker, Moment, Handled, Outside, audit, label, fired, one_veto, one_cooldown,
  one_alert, fire, decide, judge, entry_of, handle_frame, decode_payload, returned,
}

module _ (fl : Float) (cfg : Settings (fl.Num)) (out : Outside (fl.Num)) where
  open fl use {Num}

  -- An event as `build_detection` leaves it.
  abbrev pub IsBuilt : FrameInput → DetectionEvent Num → Type 0
  IsBuilt f e =
      (e.suppression_reason ≡ "") × (e.chronic_suppressed ≡ false) × (e.device_id ≡ f.device_id)

  built :
      (id : String) (f : FrameInput) (buffer : List (Entry Num)) (score : FrameScore Num)
      (ev : EvaluateResult Num) (e : DetectionEvent Num)
      → build_detection fl cfg id f buffer score ev ≡ some e
      → IsBuilt f e
  unfolding build_detection
  built id f [] score ev e h = cc
  built id f (b ∷ bs) score ev e h = ground arith

  pub audit-sinks :
      (m : Moment Num) (w : Worker Num) (e : DetectionEvent Num) (count : Counters → Counters)
      → ((audit fl cfg out m w e count).0.sinks ≡ (publish m.services w.sinks e).0)
        × ((audit fl cfg out m w e count).0.redis ≡ w.redis)
        × ((audit fl cfg out m w e count).1 ≡ returned (publish m.services w.sinks e).1)
  unfolding audit
  audit-sinks m w e count = elim (Bool-cases (returned (publish m.services w.sinks e).1)) [
    | inl yes' ↦ rw yes' (refl, refl, refl)
    | inr no' ↦ rw no' (refl, refl, refl)
  ]

  -- What the chronic gate says of a fire: the store after it, whether the sensor is chronic, and
  -- its fires in the window.
  abbrev pub verdict : Moment Num → FrameInput → Redis Num → Redis Num × Bool × ℕ
  verdict m f r = record_fire_and_chronic cfg r m.fire_at f.device_id f.capture_timestamp_ms

  -- A frame that alerts: the gate fired, no window was open, the sensor is not chronic; exactly
  -- one message goes to the topic, about this frame's device, if Pub/Sub takes it; and the device's
  -- window opens at that moment.
  pub record Alerted (m : Moment Num) (f : FrameInput) (w : Worker Num) (o : Handled Num)
      : Type 0 where
    pub event : DetectionEvent Num
    pub built_for : event.device_id ≡ f.device_id
    pub calm : is_suppressed cfg w.redis m.check_at f.device_id ≡ false
    pub transient : (verdict m f w.redis).1 ≡ false
    pub sent :
        o.0.sinks.topic
        ≡ w.sinks.topic
          ++ published m.services.message_id
              (message_of m.services event)
              (attributes_of m.services event)
    pub opened :
        o.0.redis
        ≡ mark_suppressed cfg (verdict m f w.redis).0 m.mark_at f.device_id event.detection_id

  abbrev pub Silent : Worker Num → Handled Num → Type 0
  Silent w o = o.0.sinks.topic ≡ w.sinks.topic

  audit_muted :
      (m : Moment Num) (w : Worker Num) (e : DetectionEvent Num) (count : Counters → Counters)
      → (e.suppression_reason ≢ "") ⊎ (e.chronic_suppressed ≡ true)
      → Silent w (audit fl cfg out m w e count)
  audit_muted m w e count h =
      ap (λ (s : Sinks Num). s.topic) (audit-sinks m w e count).0
      ∙ (publish_suppressed m.services w.sinks e h).1

  audit_labelled :
      (m : Moment Num) (w : Worker Num) (e : DetectionEvent Num) (reason : String)
      (count : Counters → Counters)
      → str_eq reason "" ≡ false
      → Silent w (audit fl cfg out m w (label fl cfg out e reason) count)
  audit_labelled m w e reason count named =
      audit_muted m w (label fl cfg out e reason) count
        (inl (λ same. ground (arith, (str_eq_iff reason "").1 same)))

  fire-cases :
      (m : Moment Num) (f : FrameInput) (w : Worker Num) (e : DetectionEvent Num)
      → IsBuilt f e
      → is_suppressed cfg w.redis m.check_at f.device_id ≡ false
      → Silent w (fire fl cfg out m f w e) ⊎ Alerted m f w (fire fl cfg out m f w e)
  unfolding fire
  fire-cases m f w e b calm =
      let (redis, chronic, count) = verdict m f w.redis in
      let w' = record w {
        redis = mark_suppressed cfg redis m.mark_at f.device_id e.detection_id;
      } in
      elim (Bool-cases (verdict m f w.redis).1) [
        | inl c ↦ inl (
            audit_muted m w' (fired fl cfg out e chronic count) (one_alert fl cfg out chronic)
              (inr c))
        | inr n ↦
            let went =
              publish_live m.services w.sinks (fired fl cfg out e chronic count)
                (live_fired n, n) in
            inr (record {
              event = fired fl cfg out e chronic count;
              built_for = b.2;
              calm = calm;
              transient = n;
              sent =
                  ap (λ (s : Sinks Num). s.topic)
                    (audit-sinks m w' (fired fl cfg out e chronic count)
                      (one_alert fl cfg out chronic)).0
                  ∙ went.1;
              opened =
                  (audit-sinks m w' (fired fl cfg out e chronic count)
                    (one_alert fl cfg out chronic)).1;
            })
      ]
    where
      live_fired :
          (verdict m f w.redis).1 ≡ false
          → (fired fl cfg out e (verdict m f w.redis).1 (verdict m f w.redis).2).suppression_reason
            ≡ ""
      live_fired n = rw n b.0

  abbrev Decision : Moment Num → FrameInput → Worker Num → EvaluateResult Num → Handled Num → Type 0
  Decision m f w ev o = Silent w o ⊎ ((ev.should_trigger ≡ true) × Alerted m f w o)

  decide-cases :
      (m : Moment Num) (f : FrameInput) (w : Worker Num) (ev : EvaluateResult Num)
      (event : Option (DetectionEvent Num))
      → ((e : DetectionEvent Num) → event ≡ some e → IsBuilt f e)
      → Decision m f w ev (decide fl cfg out m f w ev event)
  unfolding decide
  decide-cases m f w ev none b = inl (ground arith)
  decide-cases m f w ev (some e) b = elim (Bool-cases ev.should_trigger) [
    | inr quiet ↦ rw quiet (elim (Bool-cases ev.veto_blocked_trigger) [
      | inl vetoed ↦
          rw vetoed (inl (audit_labelled m w e "audioset_veto" (one_veto fl cfg out) refl))
      | inr nothing ↦ rw nothing (inl refl)
    ])
    | inl triggered ↦
        rw triggered (elim (Bool-cases (is_suppressed cfg w.redis m.check_at f.device_id)) [
          | inl cooling ↦
              rw cooling (inl (audit_labelled m w e "cooldown" (one_cooldown fl cfg out) refl))
          | inr calm ↦ rw calm (elim (fire-cases m f w e (b e refl) calm) [
            | inl silent ↦ inl silent
            | inr alerted ↦ inr (refl, alerted)
          ])
        ])
  ]

  -- The worker as the gate finds it: the frame is in the buffer, and counted.
  abbrev pub extended : Moment Num → FrameInput → Worker Num → Entry Num → Worker Num
  extended m f w entry = record w {
    redis = (append_score cfg w.redis m.append_at f.device_id entry).0;
    counters = record (w.counters) { frames_processed = w.counters.frames_processed + 1 };
    last_frame_at = m.scored_at;
  }

  -- The buffer that the gate reads.
  abbrev pub evidence : Moment Num → FrameInput → Worker Num → Entry Num → List (Entry Num)
  evidence m f w entry = (append_score cfg w.redis m.append_at f.device_id entry).1

  judge-cases :
      (m : Moment Num) (f : FrameInput) (w : Worker Num) (entry : Entry Num)
      (score : FrameScore Num)
      → Decision m f
          (extended m f w entry)
          (evaluate fl cfg (evidence m f w entry))
          (judge fl cfg out m f w entry score)
  unfolding judge
  judge-cases m f w entry score =
      decide-cases m f (extended m f w entry) (evaluate fl cfg (evidence m f w entry)) _
        (λ e h. built m.detection_id f (evidence m f w entry) score _ e h)

  -- A frame sends nothing to the operator's topic, or it was decoded and scored, the gate fired on
  -- the buffer that its score completes, and it alerts: no suppression window was open, the sensor
  -- is not chronic, exactly one message goes out if Pub/Sub takes it, and the window opens.
  pub handle_frame-cases :
      (m : Moment Num) (f : FrameInput) (w : Worker Num)
      → (Silent w (handle_frame fl cfg out m f w))
        ⊎ ((pcm : List ℕ) × (rate : ℤ) × (score : FrameScore Num) × (decode_payload fl cfg out f
              ≡ some (pcm, rate))
            × (out.infer_pcm16 pcm rate ≡ some score)
            × (let entry = entry_of fl cfg out f pcm rate score in
                ((evaluate fl cfg (evidence m f w entry)).should_trigger ≡ true)
                × Alerted m f (extended m f w entry) (handle_frame fl cfg out m f w)))
  unfolding handle_frame
  handle_frame-cases m f w = elim (Option-cases (decode_payload fl cfg out f)) [
    | inl bad ↦ inl (rw (bad, handle_frame) refl)
    | inr ((pcm, rate), good) ↦
        rw (good, handle_frame)
          (elim (Bool-cases (is_zero rate)) [
            | inl z ↦ inl (rw z refl)
            | inr nz ↦ elim (Option-cases (out.infer_pcm16 pcm rate)) [
              | inl bad ↦ inl (rw (nz, bad) refl)
              | inr (score, fine) ↦
                  rw (nz, fine)
                    (elim (judge-cases m f w (entry_of fl cfg out f pcm rate score) score) [
                      | inl silent ↦ inl silent
                      | inr alerted ↦ inr (pcm, rate, score, refl, fine, alerted)
                    ])
            ]
          ])
  ]
