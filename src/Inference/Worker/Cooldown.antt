-- ===== src/Inference/Worker/Cooldown.antt =====
-- Alerts of one device are at least a suppression window apart.
use drone_audio_sensor.Common.{
  ℕ, ◌+◌, ◌≤◌, ◌<◌, ◌≡◌, refl, ap, sym, ◌∙◌, ◌⊎◌, inl, inr, true, false, List, [], ◌∷◌, ◌++◌, some,
  String, arith, All, str_eq, str_eq_iff, str_eq_refl, Bool-cases, Option-cases, if◌then◌else◌,
  lt→ltb,
}
use drone_audio_sensor.Inference.Float.{Float}
use drone_audio_sensor.Inference.Gate.{FrameInput, Settings}
use drone_audio_sensor.Inference.Memory.{
  Redis, Expiring, append_score, is_suppressed, mark_suppressed,
}
use drone_audio_sensor.Inference.Publisher.{
  Services, Message, Attributes, message_of, attributes_of,
}
use drone_audio_sensor.Inference.Publisher.Routing.{published}
use drone_audio_sensor.Inference.Worker.{Worker, Moment, Outside, handle_frame}
use drone_audio_sensor.Inference.Worker.Alerts.{Silent, handle_frame-cases}
use drone_audio_sensor.Inference.Worker.Windows.{handle_frame-Windows}

-- How many messages of the topic are about a device.
abbrev pub about : {N : Type 0} → String → List (Message N × Attributes) → ℕ
about d [] = 0
about d ((m, a) ∷ rest) = let n = about d rest in if str_eq a.device_id d then n + 1 else n

about-append :
    {N : Type 0} (d : String) (xs ys : List (Message N × Attributes))
    → about d (xs ++ ys) ≡ about d xs + about d ys
about-append d [] ys = omega arith
about-append d ((m, a) ∷ xs) ys = ground (arith, about-append d xs ys)

-- The device's window is open until `u` at least.
abbrev pub IsOpen : {N : Type 0} → Redis N → String → ℕ → Type 0
IsOpen r d u = (e : Expiring String) × (r.suppression d ≡ some e) × (u ≤ e.expires_at)

module _ (fl : Float) (cfg : Settings (fl.Num)) (out : Outside (fl.Num)) where
  open fl use {Num}

  is_suppressed_of_IsOpen :
      (r : Redis Num) (d : String) (u now : ℕ)
      → IsOpen r d u
      → now < u
      → is_suppressed cfg r now d ≡ true
  unfolding is_suppressed
  is_suppressed_of_IsOpen r d u now (e, there, late) h =
      rw (there, is_suppressed) (rw (lt→ltb now e.expires_at (omega arith)) refl)

  -- A frame that comes while its device's window is open opens none, and alerts nobody; a frame of
  -- another device leaves the window alone.
  IsOpen-step :
      (m : Moment Num) (f : FrameInput) (w : Worker Num) (d : String) (u : ℕ)
      → (f.device_id ≡ d → m.check_at < u)
      → IsOpen w.redis d u
      → IsOpen (handle_frame fl cfg out m f w).0.redis d u
  IsOpen-step m f w d u early (e, there, late) = elim (handle_frame-Windows fl cfg out m f w) [
    | inl same ↦ (e, rw same there, late)
    | inr (calm, (e', wrote)) ↦ elim (Bool-cases (str_eq f.device_id d)) [
      | inr other ↦ (e, rw wrote (rw other there), late)
      | inl mine ↦
          let is : f.device_id ≡ d = (str_eq_iff f.device_id d).0 mine in
          let cooling =
            is_suppressed_of_IsOpen w.redis f.device_id u m.check_at
              (e, ap w.redis.suppression is ∙ there, late) (early is) in
          absurd (let clash : true ≡ false = sym cooling ∙ calm in cc)
    ]
  ]

  about_other :
      (sv : Services Num) (d : String) (msg : Message Num) (a : Attributes)
      → str_eq a.device_id d ≡ false
      → about d (published sv.message_id msg a) ≡ 0
  about_other sv d msg a other = elim (Option-cases sv.message_id) [
    | inl none' ↦ rw none' refl
    | inr (id, some') ↦ rw some' (rw other refl)
  ]

  -- While the device's window is open, a frame sends no message about it.
  about-step :
      (m : Moment Num) (f : FrameInput) (w : Worker Num) (d : String) (u : ℕ)
      → (f.device_id ≡ d → m.check_at < u)
      → IsOpen w.redis d u
      → about d (handle_frame fl cfg out m f w).0.sinks.topic ≡ about d w.sinks.topic
  unfolding append_score is_suppressed attributes_of
  about-step m f w d u early (e, there, late) = elim (handle_frame-cases fl cfg out m f w) [
    | inl silent ↦ ap (about d) silent
    | inr (pcm, rate, score, decoded, scored, (triggered, alerted)) ↦
        elim (Bool-cases (str_eq f.device_id d)) [
          | inl mine ↦
              let is : f.device_id ≡ d = (str_eq_iff f.device_id d).0 mine in
              let cooling : is_suppressed cfg w.redis m.check_at f.device_id ≡ true =
                is_suppressed_of_IsOpen w.redis f.device_id u m.check_at
                  (e, ap w.redis.suppression is ∙ there, late) (early is) in
              absurd (let clash : true ≡ false = sym cooling ∙ alerted.calm in cc)
          | inr other ↦
              let elsewhere : str_eq alerted.event.device_id d ≡ false =
                ap (λ x. str_eq x d) alerted.built_for ∙ other in
              ap (about d) alerted.sent
              ∙ about-append d w.sinks.topic (
                  published m.services.message_id (message_of m.services alerted.event)
                    (attributes_of m.services alerted.event))
              ∙ (let zero_more =
                    about_other m.services d (message_of m.services alerted.event)
                      (attributes_of m.services alerted.event) elsewhere in
                  omega arith)
        ]
  ]

  -- The messages that the worker pulls, one after the other.
  abbrev pub run : List (Moment Num × FrameInput) → Worker Num → Worker Num
  run [] w = w
  run ((m, f) ∷ rest) w = run rest (handle_frame fl cfg out m f w).0

  -- The frames of the device among these are all checked before `u`.
  abbrev pub Before : String → ℕ → List (Moment Num × FrameInput) → Type 0
  Before d u = All (λ (x : Moment Num × FrameInput). x.1.device_id ≡ d → x.0.check_at < u)

  run_open :
      (xs : List (Moment Num × FrameInput)) (w : Worker Num) (d : String) (u : ℕ)
      → Before d u xs
      → IsOpen w.redis d u
      → about d (run xs w).sinks.topic ≡ about d w.sinks.topic
  run_open [] w d u early opened = refl
  run_open ((m, f) ∷ xs) w d u (first, early) opened =
      run_open xs (handle_frame fl cfg out m f w).0 d u early (IsOpen-step m f w d u first opened)
      ∙ about-step m f w d u first opened

  opens :
      (m : Moment Num) (f : FrameInput) (w : Worker Num)
      → (Silent fl cfg out w (handle_frame fl cfg out m f w))
        ⊎ IsOpen
            (handle_frame fl cfg out m f w).0.redis
            f.device_id
            (m.mark_at + cfg.suppression_window_seconds)
  unfolding mark_suppressed
  opens m f w = elim (handle_frame-cases fl cfg out m f w) [
    | inl silent ↦ inl silent
    | inr (pcm, rate, score, decoded, scored, (triggered, alerted)) ↦ inr (
      record {
        value = alerted.event.detection_id;
        expires_at = m.mark_at + cfg.suppression_window_seconds;
      },
      ap (λ (r : Redis Num). r.suppression f.device_id) alerted.opened
          ∙ rw (str_eq_refl f.device_id) refl,
      omega arith,
    )
  ]

  -- One alert per suppression window: a frame sends nothing to the topic, or none of the frames
  -- that follow, of whichever devices, adds a message about its device, as long as every frame of
  -- the device among them is checked within `suppression_window_seconds` of the moment at which
  -- the first one opened the window.
  pub run_cooldown :
      (m : Moment Num) (f : FrameInput) (w : Worker Num) (xs : List (Moment Num × FrameInput))
      → Before f.device_id (m.mark_at + cfg.suppression_window_seconds) xs
      → (Silent fl cfg out w (handle_frame fl cfg out m f w))
        ⊎ (about f.device_id (run ((m, f) ∷ xs) w).sinks.topic
            ≡ about f.device_id (handle_frame fl cfg out m f w).0.sinks.topic)
  run_cooldown m f w xs early = elim (opens m f w) [
    | inl silent ↦ inl silent
    | inr opened ↦ inr (
        run_open xs (handle_frame fl cfg out m f w).0 f.device_id
          (m.mark_at + cfg.suppression_window_seconds) early opened)
  ]
