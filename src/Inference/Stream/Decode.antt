-- ===== src/Inference/Stream/Decode.antt =====
-- The gateway's entry and the worker's frame: `publish_frame` against `_decode_frame`.
use drone_audio_sensor.Common.{
  ℕ, ◌≡◌, refl, ap, sym, ◌∙◌, List, [], ◌∷◌, Option, none, some, String, str_eq, str_eq_iff,
  Bool-cases, inl, inr, get_or,
}
use drone_audio_sensor.Common.Int.{ℤ, pos}
use drone_audio_sensor.Common.Decimal.{str_ℤ, int}
use drone_audio_sensor.Common.Decimal.RoundTrip.{int-str_ℤ}
use drone_audio_sensor.Gateway.Store.{FrameEntry}
use drone_audio_sensor.Inference.Gate.{FrameInput}
use drone_audio_sensor.Inference.Stream.{
  Utf8, encoded, stored, get_str, int_or, frame_of, with_payload, decode_frame,
}

-- Every text is decoded from its own encoding.
abbrev pub IsUtf8 : Utf8 → Type 0
IsUtf8 u = (s : String) → u.decode (u.encode s) ≡ some s

-- The frame that an entry stands for: no codec is the empty one.
abbrev pub frame_in : FrameEntry → FrameInput
frame_in e = record {
  device_id = e.d;
  session_id = e.ses;
  sequence = pos e.s;
  capture_timestamp_ms = e.t;
  sample_rate_hz = e.r;
  site_label = e.l;
  pcm16_mono = e.p;
  codec = get_or e.c "";
}

no_number : int "" ≡ none
unfolding int
no_number = refl

-- Printed numbers are not the empty text, so no default stands in for them.
int_or-str_ℤ : (default : String) (z : ℤ) → int_or default (str_ℤ z) ≡ some z
unfolding int_or
int_or-str_ℤ default z = elim (Bool-cases (str_eq (str_ℤ z) "")) [
  | inl empty ↦
      let is : str_ℤ z ≡ "" = (str_eq_iff (str_ℤ z) "").0 empty in
      absurd (let clash : none ≡ some z = sym no_number ∙ ap int (sym is) ∙ int-str_ℤ z in cc)
  | inr other ↦ rw other (int-str_ℤ z)
]

-- The frame of an entry with a payload; an entry without audio stands for none.
abbrev pub frame_with : FrameEntry → List ℕ → Option FrameInput
frame_with e [] = none
frame_with e (x ∷ xs) = some (record (frame_in e) { pcm16_mono = x ∷ xs })

module _ (u : Utf8) (sound : IsUtf8 u) (e : FrameEntry) where
  codec_back : (c : Option String) → get_str u (encoded u c) ≡ some (get_or c "")
  unfolding get_str
  codec_back none = refl
  codec_back (some s) = sound s

  frame_of-stored :
      (p : List ℕ) → frame_of u (stored u e) p ≡ some (record (frame_in e) { pcm16_mono = p })
  unfolding frame_of stored get_str
  frame_of-stored p =
      rw
        (
          sound e.d,
          sound e.ses,
          sound (str_ℤ (pos e.s)),
          int_or-str_ℤ "0" (pos e.s),
          sound (str_ℤ e.t),
          int_or-str_ℤ "0" e.t,
          sound (str_ℤ e.r),
          int_or-str_ℤ "16000" e.r,
          sound e.l,
          codec_back e.c,
        )
        refl

  payload_stored : (p : List ℕ) → with_payload u (stored u e) (some p) ≡ frame_with e p
  payload_stored [] = refl
  payload_stored (x ∷ xs) = frame_of-stored (x ∷ xs)

  -- If UTF-8 decodes its own encoding, then an entry that the gateway stores is decoded to the frame
  -- with its values: the decimal text of every number is read back, none is replaced by a default,
  -- and a missing codec is the empty one. An entry without audio is decoded to no frame.
  pub decode_frame-stored : decode_frame u (stored u e) ≡ frame_with e e.p
  unfolding decode_frame stored
  decode_frame-stored = payload_stored e.p
