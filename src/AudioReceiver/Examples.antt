-- ===== src/AudioReceiver/Examples.antt =====
-- The counters at a short run.
use drone_audio_sensor.Common.{◌≡◌, refl, List, [], ◌∷◌, Option, none, some, true, false, ◌+◌, ℕ}
use drone_audio_sensor.Common.Int.{pos}
use drone_audio_sensor.AudioReceiver.{
  reset, pcm_per_frame, record_handshake, count_codec, record_frame, record_other,
  record_stream_error, forget_stream, Call, handshake, frame, other_payload, stream_error, forget,
  apply, run,
}
use drone_audio_sensor.AudioReceiver.Sink.{
  Counter, RunDoc, Answers, reset_run, flush_once, push, sweep_stale, flush_turn, record_delta,
}
use drone_audio_sensor.AudioReceiver.Servicer.{
  Message, audio_frame, Receiver, reset_test_run, Event, message, error, flush, steps, step,
  on_message,
}
use drone_audio_sensor.AudioReceiver.Flush.{Within}
use drone_audio_sensor.AudioReceiver.Counters.{stat_of}
use drone_audio_sensor.AudioReceiver.Agreement.{steps-stat}

abbrev calls : List Call
calls =
    handshake 1 90 (pos 16000) (pos 1000)
    ∷ frame 1 32050 32000 "pcm16" 5
    ∷ frame 1 9000 8950 "flac" 6
    ∷ other_payload 12
    ∷ stream_error
    ∷ forget 1
    ∷ []

-- Two frames of 16000 samples with two bytes each.
pcm_bytes : (run calls (reset "t1" 3)).pcm_equivalent_bytes ≡ 64000
unfolding apply record_handshake record_frame record_other record_stream_error forget_stream
    count_codec pcm_per_frame reset
pcm_bytes = refl

-- A receiver that is connected to an empty Firestore.
abbrev start : Receiver
start = record {
  stats = reset "" 0;
  world = record {
    sink = record {
      has_db = true;
      delta = λ k. 0;
      is_empty = true;
      max_single = 0;
      test_run_tag = "";
    };
    docs = λ t. none;
  };
}

abbrev good : Answers
good = record { bumps = true; updates = true; server_time = 9 }

abbrev bad : Answers
bad = record { bumps = true; updates = false; server_time = 9 }

abbrev events : List Event
events =
    message 1 (Message.handshake 90 (pos 16000) (pos 1000)) 4
    ∷ message 1 (audio_frame 9000 8950 "flac") 6
    ∷ flush good 8 []
    ∷ message 1 (audio_frame 32050 32000 "") 10
    ∷ error 1
    ∷ []

abbrev after : Receiver
after = steps events (reset_test_run "t1" 3 good true 3 start)

steps-stat_example :
    (d : RunDoc) × (after.world.docs "t1" ≡ some d)
    × ((k : Counter) → Within true (d.count k + after.world.sink.delta k) (stat_of after.stats k))
steps-stat_example =
    steps-stat true "t1" 3 3 good start events refl refl
      (tt, (tt, ((λ h. (refl, refl)), (tt, (tt, tt)))))

abbrev frames_of : Option RunDoc → Option ℕ
frames_of none = none
frames_of (some d) = some (d.count Counter.frames_received)

-- A flush whose update raises has dropped its deltas: the frame is not counted in the run.
frame_lost :
    let r =
      steps
        (message 1 (audio_frame 9000 8950 "flac") 6 ∷ flush bad 8 [] ∷ flush good 9 [] ∷ [])
        (reset_test_run "t1" 3 good true 3 start) in
    (frames_of (r.world.docs "t1") ≡ some 0) × (r.stats.frames_received ≡ 1)
unfolding reset_test_run reset reset_run flush_once push sweep_stale flush_turn step on_message
    record_frame count_codec record_delta pcm_per_frame
frame_lost = (refl, refl)
