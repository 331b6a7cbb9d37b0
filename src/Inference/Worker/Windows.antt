-- ===== src/Inference/Worker/Windows.antt =====
-- What a frame does to the suppression windows.
use drone_audio_sensor.Common.{
  ◌+◌, ◌≡◌, refl, ap, ◌∙◌, ◌⊎◌, inl, inr, false, Option, none, some, String, arith, Bool-cases,
  Option-cases,
}
use drone_audio_sensor.Common.Int.{is_zero}
use drone_audio_sensor.Gateway.Store.{Table, write}
use drone_audio_sensor.Inference.Float.{Float}
use drone_audio_sensor.Inference.Gate.{
  FrameInput, FrameScore, Entry, EvaluateResult, DetectionEvent, Settings, evaluate,
}
use drone_audio_sensor.Inference.Memory.{
  Redis, Expiring, append_score, is_suppressed, mark_suppressed, record_fire_and_chronic,
}
use drone_audio_sensor.Inference.Worker.{
  Counters, Worker, Moment, Handled, Outside, audit, label, one_veto, one_cooldown, fire, decide,
  judge, entry_of, handle_frame, decode_payload,
}
use drone_audio_sensor.Inference.Worker.Alerts.{audit-sinks, verdict, extended, evidence}

module _ (fl : Float) (cfg : Settings (fl.Num)) (out : Outside (fl.Num)) where
  open fl use {Num}

  -- A frame leaves every window as it was, or, where none was open for its device, opens one.
  abbrev pub Windows : Moment Num → FrameInput → Worker Num → Handled Num → Type 0
  Windows m f w o =
      (o.0.redis.suppression ≡ w.redis.suppression)
      ⊎ ((is_suppressed cfg w.redis m.check_at f.device_id ≡ false)
          × ((e : Expiring String) × (o.0.redis.suppression
                ≡ write w.redis.suppression f.device_id e)))

  audit-Windows :
      (m : Moment Num) (f : FrameInput) (w : Worker Num) (e : DetectionEvent Num)
      (count : Counters → Counters)
      → Windows m f w (audit fl cfg out m w e count)
  audit-Windows m f w e count =
      inl (ap (λ (r : Redis Num). r.suppression) (audit-sinks fl cfg out m w e count).1)

  verdict_windows :
      (m : Moment Num) (f : FrameInput) (r : Redis Num)
      → (verdict fl cfg out m f r).0.suppression ≡ r.suppression
  unfolding record_fire_and_chronic
  verdict_windows m f r = elim (Bool-cases cfg.chronic_mute_enabled) [
    | inl on ↦ rw on refl
    | inr off ↦ rw off refl
  ]

  fire-Windows :
      (m : Moment Num) (f : FrameInput) (w : Worker Num) (e : DetectionEvent Num)
      → is_suppressed cfg w.redis m.check_at f.device_id ≡ false
      → Windows m f w (fire fl cfg out m f w e)
  unfolding fire mark_suppressed
  fire-Windows m f w e calm = inr (
    calm,
    (
      record { value = e.detection_id; expires_at = m.mark_at + cfg.suppression_window_seconds },
      ap (λ (r : Redis Num). r.suppression) (audit-sinks fl cfg out m _ _ _).1
          ∙ ap
              (λ (t : Table (Expiring String)). write t f.device_id (record {
                value = e.detection_id;
                expires_at = m.mark_at + cfg.suppression_window_seconds;
              }))
              (verdict_windows m f w.redis),
    ),
  )

  decide-Windows :
      (m : Moment Num) (f : FrameInput) (w : Worker Num) (ev : EvaluateResult Num)
      (event : Option (DetectionEvent Num))
      → Windows m f w (decide fl cfg out m f w ev event)
  unfolding decide
  decide-Windows m f w ev none = inl (ground arith)
  decide-Windows m f w ev (some e) = elim (Bool-cases ev.should_trigger) [
    | inr quiet ↦ rw quiet (elim (Bool-cases ev.veto_blocked_trigger) [
      | inl vetoed ↦
          rw vetoed (audit-Windows m f w (label fl cfg out e "audioset_veto") (one_veto fl cfg out))
      | inr nothing ↦ rw nothing (inl refl)
    ])
    | inl triggered ↦
        rw triggered (elim (Bool-cases (is_suppressed cfg w.redis m.check_at f.device_id)) [
          | inl cooling ↦ rw cooling (
              inl (
                ap (λ (r : Redis Num). r.suppression)
                  (audit-sinks fl cfg out m w (label fl cfg out e "cooldown")
                    (one_cooldown fl cfg out)).1))
          | inr calm ↦ rw calm (elim (fire-Windows m f w e calm) [
            | inl same ↦ inl same
            | inr (_, opened) ↦ inr (refl, opened)
          ])
        ])
  ]

  judge-Windows :
      (m : Moment Num) (f : FrameInput) (w : Worker Num) (entry : Entry Num)
      (score : FrameScore Num)
      → Windows m f w (judge fl cfg out m f w entry score)
  unfolding judge append_score is_suppressed
  judge-Windows m f w entry score =
      decide-Windows m f (extended fl cfg out m f w entry)
        (evaluate fl cfg (evidence fl cfg out m f w entry)) _

  pub handle_frame-Windows :
      (m : Moment Num) (f : FrameInput) (w : Worker Num)
      → Windows m f w (handle_frame fl cfg out m f w)
  unfolding handle_frame
  handle_frame-Windows m f w = elim (Option-cases (decode_payload fl cfg out f)) [
    | inl bad ↦ inl (rw (bad, handle_frame) refl)
    | inr ((pcm, rate), good) ↦
        rw (good, handle_frame)
          (elim (Bool-cases (is_zero rate)) [
            | inl z ↦ inl (rw z refl)
            | inr nz ↦ elim (Option-cases (out.infer_pcm16 pcm rate)) [
              | inl bad ↦ inl (rw (nz, bad) refl)
              | inr (score, fine) ↦
                  rw (nz, fine) (judge-Windows m f w (entry_of fl cfg out f pcm rate score) score)
            ]
          ])
  ]
