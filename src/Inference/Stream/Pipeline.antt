-- ===== src/Inference/Stream/Pipeline.antt =====
-- From the phone to the model: a session of the gateway, the stream, and the frames that the
-- consumer hands to the worker.
use drone_audio_sensor.Common.{
  ℕ, ◌≡◌, refl, ap, sym, ◌∙◌, List, [], ◌∷◌, ◌++◌, map, Option, none, some, String, str_eq,
  str_eq_iff, Bool-cases, inl, inr, if◌then◌else◌, get_or,
}
use drone_audio_sensor.Common.Int.{pos}
use drone_audio_sensor.Lifecycle.{active}
use drone_audio_sensor.Gateway.Store.{FrameEntry, AudioFrame, World, Handshake}
use drone_audio_sensor.Gateway.HotState.{entry}
use drone_audio_sensor.Gateway.Session.{Fault, Arrival}
use drone_audio_sensor.Gateway.Session.Frames.{audio_frames, IsQuiet}
use drone_audio_sensor.Gateway.Admission.{Config}
use drone_audio_sensor.Gateway.Stream.{Readings, session_state, run_session}
use drone_audio_sensor.Gateway.Stream.Audio.{run_session_forwards}
use drone_audio_sensor.Inference.Gate.{FrameInput}
use drone_audio_sensor.Inference.Stream.{Utf8, stored, decode_frame}
use drone_audio_sensor.Inference.Stream.Decode.{IsUtf8, frame_with, decode_frame-stored}

-- The frames that a consumer decodes from the entries of the stream, in order.
abbrev pub if_some : Option FrameInput → List FrameInput → List FrameInput
if_some none rest = rest
if_some (some f) rest = f ∷ rest

abbrev pub decoded : Utf8 → List FrameEntry → List FrameInput
decoded u [] = []
decoded u (e ∷ es) = if_some (decode_frame u (stored u e)) (decoded u es)

-- The specification: the frames that were sent and carry audio, under the names of the session.
abbrev pub heard_as :
    String → String → String → AudioFrame → List ℕ → List FrameInput → List FrameInput
heard_as device_id session_id site_label f [] rest = rest
heard_as device_id session_id site_label f (x ∷ xs) rest =
    record {
      device_id = device_id;
      session_id = session_id;
      sequence = pos f.sequence_number;
      capture_timestamp_ms = f.capture_timestamp_ms;
      sample_rate_hz = f.sample_rate_hz;
      site_label = site_label;
      pcm16_mono = x ∷ xs;
      codec = f.codec;
    }
    ∷ rest

abbrev pub heard : String → String → String → List AudioFrame → List FrameInput
heard device_id session_id site_label [] = []
heard device_id session_id site_label (f ∷ fs) =
    heard_as device_id session_id site_label f f.pcm16_mono
      (heard device_id session_id site_label fs)

codec_of_entry : (c : String) → get_or (if str_eq c "" then none else some c) "" ≡ c
codec_of_entry c = elim (Bool-cases (str_eq c "")) [
  | inl empty ↦ rw empty (sym ((str_eq_iff c "").0 empty))
  | inr other ↦ rw other refl
]

if_some-append :
    (o : Option FrameInput) (xs ys : List FrameInput) → if_some o (xs ++ ys) ≡ if_some o xs ++ ys
if_some-append none xs ys = refl
if_some-append (some f) xs ys = refl

module _ (u : Utf8) (sound : IsUtf8 u) where
  decoded-append : (xs ys : List FrameEntry) → decoded u (xs ++ ys) ≡ decoded u xs ++ decoded u ys
  decoded-append [] ys = refl
  decoded-append (e ∷ xs) ys =
      ap (if_some (decode_frame u (stored u e))) (decoded-append xs ys)
      ∙ if_some-append (decode_frame u (stored u e)) (decoded u xs) (decoded u ys)

  module _ (d ses l : String) where
    heard_entry :
        (f : AudioFrame) (p : List ℕ) (rest : List FrameInput)
        → if_some (frame_with (entry d ses l f) p) rest ≡ heard_as d ses l f p rest
    unfolding entry
    heard_entry f [] rest = refl
    heard_entry f (x ∷ xs) rest = rw (codec_of_entry f.codec) refl

    decoded_entries : (fs : List AudioFrame) → decoded u (map (entry d ses l) fs) ≡ heard d ses l fs
    unfolding entry
    decoded_entries [] = refl
    decoded_entries (f ∷ fs) =
        ap (λ o. if_some o (decoded u (map (entry d ses l) fs)))
          (decode_frame-stored u sound (entry d ses l f))
        ∙ heard_entry f f.pcm16_mono (decoded u (map (entry d ses l) fs))
        ∙ ap (heard_as d ses l f f.pcm16_mono) (decoded_entries fs)

  -- If UTF-8 decodes its own encoding, then a session of an active device, in which no call raises,
  -- lets the worker hear, after what it heard before, exactly the frames that the device sent and
  -- that carry audio, in order: their numbers, their rate, their bytes and their codec as sent, under
  -- the device and the site of the handshake and the session's id.
  pub session_heard :
      {F : Type 0} (cfg : Config) (r : Readings) (w : World F) (h : Handshake F)
      (arrivals : List (Arrival F)) (end : Option Fault)
      → session_state w.devices h.device_id ≡ active
      → IsQuiet arrivals
      → decoded u (run_session cfg r w h arrivals end).0.frames
        ≡ decoded u w.frames
          ++ heard h.device_id r.session_id h.assigned_site_label (audio_frames arrivals)
  unfolding entry
  session_heard cfg r w h arrivals end is_active quiet =
      let new =
        map (entry h.device_id r.session_id h.assigned_site_label) (audio_frames arrivals) in
      ap (decoded u) (run_session_forwards cfg r w h arrivals end is_active quiet)
      ∙ decoded-append w.frames new
      ∙ ap (λ more. decoded u w.frames ++ more)
          (decoded_entries h.device_id r.session_id h.assigned_site_label (audio_frames arrivals))
