-- ===== src/AudioReceiver/Totals.antt =====
-- The counters of a run against its calls.
use drone_audio_sensor.Common.{
  ℕ, ◌+◌, ◌≡◌, refl, List, [], ◌∷◌, String, arith, str_eq, Bool-cases, inl, inr,
}
use drone_audio_sensor.AudioReceiver.{
  Stats, reset, record_handshake, count_codec, counted, record_frame, record_other,
  record_stream_error, forget_stream, Call, handshake, frame, other_payload, stream_error, forget,
  apply, run,
}

-- What a call adds: to the frames, to the bytes on the wire and to the bytes of audio.
abbrev pub frames_in : Call → ℕ
frames_in (handshake id wire rate duration) = 0
frames_in (frame id wire audio codec now) = 1
frames_in (other_payload wire) = 0
frames_in stream_error = 0
frames_in (forget id) = 0

abbrev pub wire_in : Call → ℕ
wire_in (handshake id wire rate duration) = wire
wire_in (frame id wire audio codec now) = wire
wire_in (other_payload wire) = wire
wire_in stream_error = 0
wire_in (forget id) = 0

abbrev pub audio_in : Call → ℕ
audio_in (handshake id wire rate duration) = 0
audio_in (frame id wire audio codec now) = audio
audio_in (other_payload wire) = 0
audio_in stream_error = 0
audio_in (forget id) = 0

abbrev pub sum : (Call → ℕ) → List Call → ℕ
sum f [] = 0
sum f (c ∷ cs) = f c + sum f cs

abbrev pub by_codec : Stats → ℕ
by_codec s = s.frames_pcm16 + s.frames_wav + s.frames_flac + s.frames_unknown_codec

-- What stands in the counters that are compared.
abbrev pub Added : ℕ → ℕ → ℕ → Stats → Stats → Type 0
Added frames wire audio s t =
    (t.frames_received ≡ s.frames_received + frames)
    × (by_codec t ≡ by_codec s + frames)
    × (t.wire_bytes ≡ s.wire_bytes + wire)
    × (t.audio_payload_bytes ≡ s.audio_payload_bytes + audio)

count_codec-Added :
    (codec : String) (s : Stats)
    → let t = count_codec codec s in
      (t.frames_received ≡ s.frames_received)
      × (by_codec t ≡ by_codec s + 1)
      × (t.wire_bytes ≡ s.wire_bytes)
      × (t.audio_payload_bytes ≡ s.audio_payload_bytes)
unfolding count_codec
count_codec-Added codec s = elim (Bool-cases (str_eq codec "pcm16")) [
  | inl pcm ↦ rw pcm (refl, omega arith, refl, refl)
  | inr a ↦ (elim (Bool-cases (str_eq codec "wav")) [
    | inl wav ↦ rw (a, wav) (refl, omega arith, refl, refl)
    | inr b ↦ (elim (Bool-cases (str_eq codec "flac")) [
      | inl flac ↦ rw (a, b, flac) (refl, omega arith, refl, refl)
      | inr c ↦ rw (a, b, c) (refl, omega arith, refl, refl)
    ])
  ])
]

apply-Added : (c : Call) (s : Stats) → Added (frames_in c) (wire_in c) (audio_in c) s (apply c s)
unfolding apply record_handshake record_frame record_other record_stream_error forget_stream
apply-Added (handshake id wire rate duration) s = (omega arith, omega arith, refl, omega arith)
apply-Added (frame id wire audio codec now) s =
    count_codec-Added codec (counted id wire audio now s)
apply-Added (other_payload wire) s = (omega arith, omega arith, refl, omega arith)
apply-Added stream_error s = (omega arith, omega arith, omega arith, omega arith)
apply-Added (forget id) s = (omega arith, omega arith, omega arith, omega arith)

run-Added :
    (cs : List Call) (s : Stats)
    → Added (sum frames_in cs) (sum wire_in cs) (sum audio_in cs) s (run cs s)
run-Added [] s = (omega arith, omega arith, omega arith, omega arith)
run-Added (c ∷ cs) s =
    let (a, b, d, e) = apply-Added c s in
    let (a', b', d', e') = run-Added cs (apply c s) in
    (omega arith, omega arith, omega arith, omega arith)

-- From a reset on, whatever the calls of the streams and their order: the frames received are those
-- that were recorded, the counters of the codecs add up to them, and the bytes on the wire and of
-- audio are the sums over the calls.
pub run-reset :
    (tag : String) (now : ℕ) (cs : List Call)
    → let t = run cs (reset tag now) in
      (t.frames_received ≡ sum frames_in cs)
      × (by_codec t ≡ t.frames_received)
      × (t.wire_bytes ≡ sum wire_in cs)
      × (t.audio_payload_bytes ≡ sum audio_in cs)
unfolding reset
run-reset tag now cs =
    let (a, b, d, e) = run-Added cs (reset tag now) in
    (omega arith, omega arith, omega arith, omega arith)
