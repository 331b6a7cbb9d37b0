-- ===== src/AudioReceiver/Servicer.antt =====
-- The two servicers of backend/audio_receiver/src/audio_receiver/main.py over the counters and the
-- sink. The flush thread and the streams take turns: a message, the end of a stream, a flush.
use drone_audio_sensor.Common.{ℕ, Bool, List, [], ◌∷◌, String, if◌then◌else◌, str_eq, get_or}
use drone_audio_sensor.Common.Int.{ℤ}
use drone_audio_sensor.AudioReceiver.{
  Stats, reset, record_handshake, record_frame, record_other, record_stream_error, forget_stream,
}
use drone_audio_sensor.AudioReceiver.Sink.{
  Counter, handshakes_received, frames_received, wire_bytes, audio_payload_bytes,
  pcm_equivalent_bytes, stream_errors, one_if, codec_field, World, Answers, RunDoc, record_delta,
  reset_run, flush_turn,
}

-- A `ClientStreamMessage`, with its size on the wire.
pub data Message : Type 0 where
  handshake : ℕ → ℤ → ℤ → Message
  audio_frame : ℕ → ℕ → String → Message
  other_payload : ℕ → Message

pub record Receiver : Type 0 where
  pub stats : Stats
  pub world : World

abbrev pub handshake_deltas : ℕ → Counter → ℕ
handshake_deltas wire handshakes_received = 1
handshake_deltas wire wire_bytes = wire
handshake_deltas wire k = 0

abbrev pub frame_deltas : ℕ → ℕ → ℕ → String → Counter → ℕ
frame_deltas wire audio pcm codec frames_received = 1
frame_deltas wire audio pcm codec wire_bytes = wire
frame_deltas wire audio pcm codec audio_payload_bytes = audio
frame_deltas wire audio pcm codec pcm_equivalent_bytes = pcm
frame_deltas wire audio pcm codec k = one_if (codec_field codec) k

abbrev pub other_deltas : ℕ → Counter → ℕ
other_deltas wire wire_bytes = wire
other_deltas wire k = 0

abbrev pub to_sink : (Counter → ℕ) → ℕ → World → World
to_sink deltas max_frame w = record w { sink = record_delta deltas max_frame w.sink }

-- `af.codec or "pcm16"`.
abbrev pub codec_or_pcm : String → String
codec_or_pcm codec = if str_eq codec "" then "pcm16" else codec

-- A frame with its codec named: the counters first, then the deltas, with the bytes per frame that
-- the counters hold for the stream.
abbrev pub on_frame : ℕ → ℕ → ℕ → String → ℕ → Receiver → Receiver
on_frame stream_id wire audio codec now r =
    let stats = record_frame stream_id wire audio codec now r.stats in
    record {
      stats = stats;
      world =
          to_sink
            (frame_deltas wire audio (get_or (stats.per_stream_pcm_per_frame stream_id) 0) codec)
            wire r.world;
    }

-- One message of the loop of `StreamAudio`.
unfoldable pub on_message : ℕ → Message → ℕ → Receiver → Receiver
on_message stream_id (handshake wire rate duration) now r = record {
  stats = record_handshake stream_id wire rate duration r.stats;
  world = to_sink (handshake_deltas wire) wire r.world;
}
on_message stream_id (audio_frame wire audio codec) now r =
    on_frame stream_id wire audio (codec_or_pcm codec) now r
on_message stream_id (other_payload wire) now r = record {
  stats = record_other wire r.stats;
  world = to_sink (other_deltas wire) 0 r.world;
}

-- The end of a stream, after an `RpcError` or in order.
unfoldable pub on_error : ℕ → Receiver → Receiver
on_error stream_id r = record {
  stats = forget_stream stream_id (record_stream_error r.stats);
  world = to_sink (one_if stream_errors) 0 r.world;
}

unfoldable pub on_close : ℕ → Receiver → Receiver
on_close stream_id r = record r { stats = forget_stream stream_id r.stats }

-- `ResetTestRun`, with what the sink's calls answer.
unfoldable pub reset_test_run : String → ℕ → Answers → Bool → ℕ → Receiver → Receiver
reset_test_run tag now_ms a creates server_time r = record {
  stats = reset tag now_ms;
  world = reset_run tag a creates server_time r.world;
}

pub data Event : Type 0 where
  message : ℕ → Message → ℕ → Event
  error : ℕ → Event
  close : ℕ → Event
  flush : Answers → ℕ → List (String × RunDoc × Bool) → Event

unfoldable pub step : Event → Receiver → Receiver
step (message stream_id m now) r = on_message stream_id m now r
step (error stream_id) r = on_error stream_id r
step (close stream_id) r = on_close stream_id r
step (flush a now_ms runs) r = record r { world = flush_turn a now_ms runs r.world }

abbrev pub steps : List Event → Receiver → Receiver
steps [] r = r
steps (e ∷ es) r = steps es (step e r)
