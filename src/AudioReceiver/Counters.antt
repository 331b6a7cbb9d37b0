-- ===== src/AudioReceiver/Counters.antt =====
-- Each operation raises the counters in memory by the deltas that the sink is handed.
use drone_audio_sensor.Common.{ℕ, ◌+◌, ◌≡◌, refl, ap, Option, String, arith, get_or}
use drone_audio_sensor.Common.Int.{ℤ}
use drone_audio_sensor.AudioReceiver.{
  Stats, record_handshake, count_codec, counted, record_frame, record_other, record_stream_error,
  forget_stream,
}
use drone_audio_sensor.AudioReceiver.Sink.{Counter, codec_field, one_if, stream_errors}
use drone_audio_sensor.AudioReceiver.Servicer.{handshake_deltas, frame_deltas, other_deltas}

-- The counter in memory that a delta is about.
abbrev pub stat_of : Stats → Counter → ℕ
stat_of s Counter.handshakes_received = s.handshakes_received
stat_of s Counter.frames_received = s.frames_received
stat_of s Counter.wire_bytes = s.wire_bytes
stat_of s Counter.audio_payload_bytes = s.audio_payload_bytes
stat_of s Counter.pcm_equivalent_bytes = s.pcm_equivalent_bytes
stat_of s Counter.frames_pcm16 = s.frames_pcm16
stat_of s Counter.frames_wav = s.frames_wav
stat_of s Counter.frames_flac = s.frames_flac
stat_of s Counter.frames_unknown_codec = s.frames_unknown_codec
stat_of s Counter.stream_errors = s.stream_errors

count_codec-stat :
    (codec : String) (s : Stats) (k : Counter)
    → stat_of (count_codec codec s) k ≡ stat_of s k + one_if (codec_field codec) k
unfolding count_codec codec_field
count_codec-stat codec s Counter.handshakes_received = ground arith
count_codec-stat codec s Counter.frames_received = ground arith
count_codec-stat codec s Counter.wire_bytes = ground arith
count_codec-stat codec s Counter.audio_payload_bytes = ground arith
count_codec-stat codec s Counter.pcm_equivalent_bytes = ground arith
count_codec-stat codec s Counter.frames_pcm16 = ground arith
count_codec-stat codec s Counter.frames_wav = ground arith
count_codec-stat codec s Counter.frames_flac = ground arith
count_codec-stat codec s Counter.frames_unknown_codec = ground arith
count_codec-stat codec s Counter.stream_errors = ground arith

count_codec-streams :
    (codec : String) (s : Stats)
    → (count_codec codec s).per_stream_pcm_per_frame ≡ s.per_stream_pcm_per_frame
unfolding count_codec
count_codec-streams codec s = ground arith

-- The codecs have counters of their own.
codec_field-other :
    (codec : String)
    → (one_if (codec_field codec) Counter.frames_received ≡ 0)
      × (one_if (codec_field codec) Counter.wire_bytes ≡ 0)
      × (one_if (codec_field codec) Counter.audio_payload_bytes ≡ 0)
      × (one_if (codec_field codec) Counter.pcm_equivalent_bytes ≡ 0)
unfolding codec_field
codec_field-other codec = ground arith

pub handshake-stat :
    (id wire : ℕ) (rate duration : ℤ) (s : Stats) (k : Counter)
    → stat_of s k + handshake_deltas wire k ≡ stat_of (record_handshake id wire rate duration s) k
unfolding record_handshake
handshake-stat id wire rate duration s Counter.handshakes_received = omega arith
handshake-stat id wire rate duration s Counter.frames_received = omega arith
handshake-stat id wire rate duration s Counter.wire_bytes = omega arith
handshake-stat id wire rate duration s Counter.audio_payload_bytes = omega arith
handshake-stat id wire rate duration s Counter.pcm_equivalent_bytes = omega arith
handshake-stat id wire rate duration s Counter.frames_pcm16 = omega arith
handshake-stat id wire rate duration s Counter.frames_wav = omega arith
handshake-stat id wire rate duration s Counter.frames_flac = omega arith
handshake-stat id wire rate duration s Counter.frames_unknown_codec = omega arith
handshake-stat id wire rate duration s Counter.stream_errors = omega arith

pub other-stat :
    (wire : ℕ) (s : Stats) (k : Counter)
    → stat_of s k + other_deltas wire k ≡ stat_of (record_other wire s) k
unfolding record_other
other-stat wire s Counter.handshakes_received = omega arith
other-stat wire s Counter.frames_received = omega arith
other-stat wire s Counter.wire_bytes = omega arith
other-stat wire s Counter.audio_payload_bytes = omega arith
other-stat wire s Counter.pcm_equivalent_bytes = omega arith
other-stat wire s Counter.frames_pcm16 = omega arith
other-stat wire s Counter.frames_wav = omega arith
other-stat wire s Counter.frames_flac = omega arith
other-stat wire s Counter.frames_unknown_codec = omega arith
other-stat wire s Counter.stream_errors = omega arith

pub error-stat :
    (id : ℕ) (s : Stats) (k : Counter)
    → stat_of s k + one_if stream_errors k ≡ stat_of (forget_stream id (record_stream_error s)) k
unfolding record_stream_error forget_stream
error-stat id s Counter.handshakes_received = omega arith
error-stat id s Counter.frames_received = omega arith
error-stat id s Counter.wire_bytes = omega arith
error-stat id s Counter.audio_payload_bytes = omega arith
error-stat id s Counter.pcm_equivalent_bytes = omega arith
error-stat id s Counter.frames_pcm16 = omega arith
error-stat id s Counter.frames_wav = omega arith
error-stat id s Counter.frames_flac = omega arith
error-stat id s Counter.frames_unknown_codec = omega arith
error-stat id s Counter.stream_errors = omega arith

pub close-stat : (id : ℕ) (s : Stats) (k : Counter) → stat_of s k ≡ stat_of (forget_stream id s) k
unfolding forget_stream
close-stat id s Counter.handshakes_received = refl
close-stat id s Counter.frames_received = refl
close-stat id s Counter.wire_bytes = refl
close-stat id s Counter.audio_payload_bytes = refl
close-stat id s Counter.pcm_equivalent_bytes = refl
close-stat id s Counter.frames_pcm16 = refl
close-stat id s Counter.frames_wav = refl
close-stat id s Counter.frames_flac = refl
close-stat id s Counter.frames_unknown_codec = refl
close-stat id s Counter.stream_errors = refl

module _ (id wire audio : ℕ) (codec : String) (now : ℕ) (s : Stats) where
  abbrev pub pcm : ℕ
  pcm = get_or ((record_frame id wire audio codec now s).per_stream_pcm_per_frame id) 0

  pcm-known : pcm ≡ get_or (s.per_stream_pcm_per_frame id) 0
  unfolding record_frame
  pcm-known =
      ap (λ (m : ℕ → Option ℕ). get_or (m id) 0)
        (count_codec-streams codec (counted id wire audio now s))

  raised :
      (k : Counter)
      → stat_of (count_codec codec (counted id wire audio now s)) k
        ≡ stat_of (counted id wire audio now s) k + one_if (codec_field codec) k
  raised = count_codec-stat codec (counted id wire audio now s)

  pub frame-stat :
      (k : Counter)
      → stat_of s k + frame_deltas wire audio pcm codec k
        ≡ stat_of (record_frame id wire audio codec now s) k
  unfolding record_frame
  frame-stat Counter.handshakes_received =
      omega (arith, raised Counter.handshakes_received, codec_field-other codec, pcm-known)
  frame-stat Counter.frames_received =
      omega (arith, raised Counter.frames_received, codec_field-other codec, pcm-known)
  frame-stat Counter.wire_bytes =
      omega (arith, raised Counter.wire_bytes, codec_field-other codec, pcm-known)
  frame-stat Counter.audio_payload_bytes =
      omega (arith, raised Counter.audio_payload_bytes, codec_field-other codec, pcm-known)
  frame-stat Counter.pcm_equivalent_bytes =
      omega (arith, raised Counter.pcm_equivalent_bytes, codec_field-other codec, pcm-known)
  frame-stat Counter.frames_pcm16 =
      omega (arith, raised Counter.frames_pcm16, codec_field-other codec, pcm-known)
  frame-stat Counter.frames_wav =
      omega (arith, raised Counter.frames_wav, codec_field-other codec, pcm-known)
  frame-stat Counter.frames_flac =
      omega (arith, raised Counter.frames_flac, codec_field-other codec, pcm-known)
  frame-stat Counter.frames_unknown_codec =
      omega (arith, raised Counter.frames_unknown_codec, codec_field-other codec, pcm-known)
  frame-stat Counter.stream_errors =
      omega (arith, raised Counter.stream_errors, codec_field-other codec, pcm-known)
