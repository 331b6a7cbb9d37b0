-- ===== src/AudioReceiver.antt =====
-- `_Stats` of backend/audio_receiver/src/audio_receiver/main.py: the counters of a test run. Each
-- operation holds the lock, so the operations of all streams stand in one order.
pub mod Totals
pub mod Sink
pub mod Servicer
pub mod Flush
pub mod Accounts
pub mod Counters
pub mod Agreement
mod Examples
use drone_audio_sensor.Common.{
  ℕ, ◌+◌, ◌*◌, ◌/◌, Bool, List, [], ◌∷◌, Option, none, some, String, if◌then◌else◌, str_eq, ltb,
  ◌==◌, get_or,
}
use drone_audio_sensor.Common.Int.{ℤ, pos_part, neg_part}

pub record Stats : Type 0 where
  pub test_run_tag : String
  pub handshakes_received : ℕ
  pub frames_received : ℕ
  pub wire_bytes : ℕ
  pub audio_payload_bytes : ℕ
  pub pcm_equivalent_bytes : ℕ
  pub frames_pcm16 : ℕ
  pub frames_wav : ℕ
  pub frames_flac : ℕ
  pub frames_unknown_codec : ℕ
  pub max_single_frame_bytes : ℕ
  pub stream_errors : ℕ
  pub started_at_unix_ms : ℕ
  pub last_frame_at_unix_ms : ℕ
  pub per_stream_pcm_per_frame : ℕ → Option ℕ

unfoldable pub reset : String → ℕ → Stats
reset tag now_ms = record {
  test_run_tag = tag;
  handshakes_received = 0;
  frames_received = 0;
  wire_bytes = 0;
  audio_payload_bytes = 0;
  pcm_equivalent_bytes = 0;
  frames_pcm16 = 0;
  frames_wav = 0;
  frames_flac = 0;
  frames_unknown_codec = 0;
  max_single_frame_bytes = 0;
  stream_errors = 0;
  started_at_unix_ms = now_ms;
  last_frame_at_unix_ms = 0;
  per_stream_pcm_per_frame = λ id. none;
}

-- `max(0, int(rate * duration / 1000) * 2)`: a product of numbers of different signs gives 0.
unfoldable pub pcm_per_frame : ℤ → ℤ → ℕ
pcm_per_frame rate duration =
    (pos_part rate * pos_part duration + neg_part rate * neg_part duration) / 1000 * 2

abbrev pub larger : ℕ → ℕ → ℕ
larger size most = if ltb most size then size else most

unfoldable pub record_handshake : ℕ → ℕ → ℤ → ℤ → Stats → Stats
record_handshake stream_id wire_size rate duration s = record s {
  handshakes_received = s.handshakes_received + 1;
  wire_bytes = s.wire_bytes + wire_size;
  max_single_frame_bytes = larger wire_size s.max_single_frame_bytes;
  per_stream_pcm_per_frame = λ id.
      if id == stream_id then some (pcm_per_frame rate duration) else s.per_stream_pcm_per_frame id;
}

-- `_CODEC_TO_FIELD`, and the counter that is raised.
unfoldable pub count_codec : String → Stats → Stats
count_codec codec s =
    if str_eq codec "pcm16"
    then record s { frames_pcm16 = s.frames_pcm16 + 1 }
    else if str_eq codec "wav"
    then record s { frames_wav = s.frames_wav + 1 }
    else if str_eq codec "flac"
    then record s { frames_flac = s.frames_flac + 1 }
    else record s { frames_unknown_codec = s.frames_unknown_codec + 1 }

-- The frame in the counters that do not depend on its codec.
abbrev pub counted : ℕ → ℕ → ℕ → ℕ → Stats → Stats
counted stream_id wire_size audio_bytes_len now_ms s = record s {
  frames_received = s.frames_received + 1;
  wire_bytes = s.wire_bytes + wire_size;
  audio_payload_bytes = s.audio_payload_bytes + audio_bytes_len;
  pcm_equivalent_bytes = s.pcm_equivalent_bytes + get_or (s.per_stream_pcm_per_frame stream_id) 0;
  max_single_frame_bytes = larger wire_size s.max_single_frame_bytes;
  last_frame_at_unix_ms = now_ms;
}

unfoldable pub record_frame : ℕ → ℕ → ℕ → String → ℕ → Stats → Stats
record_frame stream_id wire_size audio_bytes_len codec now_ms s =
    count_codec codec (counted stream_id wire_size audio_bytes_len now_ms s)

-- A message that is neither a handshake nor a frame.
unfoldable pub record_other : ℕ → Stats → Stats
record_other wire_size s = record s { wire_bytes = s.wire_bytes + wire_size }

unfoldable pub record_stream_error : Stats → Stats
record_stream_error s = record s { stream_errors = s.stream_errors + 1 }

unfoldable pub forget_stream : ℕ → Stats → Stats
forget_stream stream_id s = record s {
  per_stream_pcm_per_frame = λ id. if id == stream_id then none else s.per_stream_pcm_per_frame id;
}

-- The calls of the handlers of all streams, in the order of the lock.
pub data Call : Type 0 where
  handshake : ℕ → ℕ → ℤ → ℤ → Call
  frame : ℕ → ℕ → ℕ → String → ℕ → Call
  other_payload : ℕ → Call
  stream_error : Call
  forget : ℕ → Call

unfoldable pub apply : Call → Stats → Stats
apply (handshake id wire rate duration) s = record_handshake id wire rate duration s
apply (frame id wire audio codec now) s = record_frame id wire audio codec now s
apply (other_payload wire) s = record_other wire s
apply stream_error s = record_stream_error s
apply (forget id) s = forget_stream id s

abbrev pub run : List Call → Stats → Stats
run [] s = s
run (c ∷ cs) s = run cs (apply c s)
