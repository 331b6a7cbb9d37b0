-- ===== src/AudioReceiver/Agreement.antt =====
-- The document of a run and the deltas against the counters in memory.
use drone_audio_sensor.Common.{
  ℕ, ◌+◌, ◌≡◌, refl, sym, ◌∙◌, Bool, true, false, not, ◌&&◌, List, [], ◌∷◌, some, String, All,
  str_eq, str_eq_refl, Bool-cases, inl, inr, if◌then◌else◌, ◌==◌,
}
use mathlib.Core.Path.{subst}
use drone_audio_sensor.AudioReceiver.{
  Stats, reset, record_handshake, record_frame, record_other, record_stream_error, forget_stream,
}
use drone_audio_sensor.AudioReceiver.Sink.{
  Counter, one_if, RunDoc, World, Answers, flush_to, flush_once, fresh_run, open_run, reset_run,
  stream_errors,
}
use drone_audio_sensor.AudioReceiver.Servicer.{
  Message, handshake, audio_frame, other_payload, Receiver, handshake_deltas, frame_deltas,
  other_deltas, to_sink, codec_or_pcm, on_message, on_error, on_close, reset_test_run, Event,
  message, error, close, flush, step, steps,
}
use drone_audio_sensor.AudioReceiver.Flush.{Within, Within-eq, Answering}
use drone_audio_sensor.AudioReceiver.Accounts.{
  Accounts, Accounts-same, to_sink-Accounts, flush_turn-Accounts,
}
use drone_audio_sensor.AudioReceiver.Counters.{
  stat_of, handshake-stat, other-stat, error-stat, close-stat, pcm, frame-stat,
}

reset-stat : (tag : String) (now : ℕ) (k : Counter) → stat_of (reset tag now) k ≡ 0
unfolding reset
reset-stat tag now Counter.handshakes_received = refl
reset-stat tag now Counter.frames_received = refl
reset-stat tag now Counter.wire_bytes = refl
reset-stat tag now Counter.audio_payload_bytes = refl
reset-stat tag now Counter.pcm_equivalent_bytes = refl
reset-stat tag now Counter.frames_pcm16 = refl
reset-stat tag now Counter.frames_wav = refl
reset-stat tag now Counter.frames_flac = refl
reset-stat tag now Counter.frames_unknown_codec = refl
reset-stat tag now Counter.stream_errors = refl

flush_to-has_db :
    (tag : String) (closes : Bool) (a : Answers) (w : World)
    → (flush_to tag closes a w).sink.has_db ≡ w.sink.has_db
flush_to-has_db tag closes a w = elim (Bool-cases (str_eq tag "")) [
  | inl none_named ↦ rw none_named refl
  | inr named ↦ (elim (Bool-cases (w.sink.is_empty && w.sink.max_single == 0 && not closes)) [
    | inl skips ↦ rw (named, skips) refl
    | inr pushes ↦ rw (named, pushes) refl
  ])
]

flush_once-has_db :
    (final : Bool) (tag : String) (a : Answers) (w : World)
    → w.sink.has_db ≡ true
    → (flush_once final tag a w).sink.has_db ≡ true
unfolding flush_once
flush_once-has_db final tag a w db =
    subst
      (λ (c : Bool).
        (if not c
          then w
          else flush_to (if str_eq tag "" then w.sink.test_run_tag else tag)
              (final && not (str_eq tag "")) a w).sink.has_db
        ≡ true)
      (sym db)
      (flush_to-has_db (if str_eq tag "" then w.sink.test_run_tag else tag)
          (final && not (str_eq tag "")) a w
        ∙ db)

module _ (b : Bool) where
  -- Where exactness is asked for, Firestore takes the writes of every flush.
  abbrev pub Answered : Event → Type 0
  Answered (message id m now) = Unit
  Answered (error id) = Unit
  Answered (close id) = Unit
  Answered (flush a now runs) = Answering b a

  module _ (tag : String) (tagged : str_eq tag "" ≡ false) where
    -- The counters in memory are accounted for.
    abbrev pub Agrees : Receiver → Type 0
    Agrees r = Accounts b tag (stat_of r.stats) r.world

    -- An operation that hands its deltas to the sink.
    recorded :
        (deltas : Counter → ℕ) (most : ℕ) (stats : Stats) (r : Receiver)
        → ((k : Counter) → stat_of r.stats k + deltas k ≡ stat_of stats k)
        → Agrees r
        → Agrees (record { stats = stats; world = to_sink deltas most r.world })
    recorded deltas most stats r raised agrees =
        Accounts-same b tag (λ k. stat_of r.stats k + deltas k) (stat_of stats)
          (to_sink deltas most r.world) raised
          (to_sink-Accounts b tag deltas (stat_of r.stats) most r.world agrees)

    on_message-Agrees :
        (id : ℕ) (m : Message) (now : ℕ) (r : Receiver) → Agrees r → Agrees (on_message id m now r)
    unfolding on_message
    on_message-Agrees id (handshake wire rate duration) now r =
        recorded (handshake_deltas wire) wire (record_handshake id wire rate duration r.stats) r
          (handshake-stat id wire rate duration r.stats)
    on_message-Agrees id (audio_frame wire audio codec) now r =
        let named = codec_or_pcm codec in
        recorded (frame_deltas wire audio (pcm id wire audio named now r.stats) named) wire
          (record_frame id wire audio named now r.stats) r
          (frame-stat id wire audio named now r.stats)
    on_message-Agrees id (other_payload wire) now r =
        recorded (other_deltas wire) 0 (record_other wire r.stats) r (other-stat wire r.stats)

    step-Agrees : (e : Event) (r : Receiver) → Answered e → Agrees r → Agrees (step e r)
    unfolding step on_error on_close
    step-Agrees (message id m now) r good = on_message-Agrees id m now r
    step-Agrees (error id) r good =
        recorded (one_if stream_errors) 0 (forget_stream id (record_stream_error r.stats)) r
          (error-stat id r.stats)
    step-Agrees (close id) r good =
        Accounts-same b tag (stat_of r.stats) (stat_of (forget_stream id r.stats)) r.world
          (close-stat id r.stats)
    step-Agrees (flush a now runs) r good =
        flush_turn-Accounts b tag a now runs (stat_of r.stats) r.world tagged good

    steps_agree :
        (es : List Event) (r : Receiver) → All Answered es → Agrees r → Agrees (steps es r)
    steps_agree [] r good agrees = agrees
    steps_agree (e ∷ es) r (first, good) agrees =
        steps_agree es (step e r) good (step-Agrees e r first agrees)

    open_run-Accounts :
        (server_time now_ms : ℕ) (w : World)
        → w.sink.has_db ≡ true
        → Accounts b tag (stat_of (reset tag now_ms)) (open_run tag true server_time w)
    open_run-Accounts server_time now_ms w db = (
      db,
      refl,
      λ h k. refl,
      (
        fresh_run server_time,
        rw tagged (rw (str_eq_refl tag) refl),
        λ k. Within-eq b (0 + 0) (stat_of (reset tag now_ms) k) (sym (reset-stat tag now_ms k)),
      ),
    )

    reset_test_run-Agrees :
        (now_ms : ℕ) (a : Answers) (server_time : ℕ) (r : Receiver)
        → r.world.sink.has_db ≡ true
        → Agrees (reset_test_run tag now_ms a true server_time r)
    unfolding reset_test_run reset_run
    reset_test_run-Agrees now_ms a server_time r db =
        let last = flush_once true r.world.sink.test_run_tag a r.world in
        subst
          (λ (c : Bool). Accounts b tag (stat_of (reset tag now_ms)) (
            if not c
            then record (r.world) { sink = record (r.world.sink) { test_run_tag = tag } }
            else open_run tag true server_time last))
          (sym db)
          (open_run-Accounts server_time now_ms last
            (flush_once-has_db true r.world.sink.test_run_tag a r.world db))

-- From a ResetTestRun for a tag on, whose document Firestore takes, over any messages, errors, ends
-- of streams, flushes and sweeps in any order: the run's document is there, and each of its counts
-- together with the delta that waits is at most the counter in memory, whatever Firestore answers
-- to the flushes (`b` is false), and exactly that counter, if it takes the writes of every flush (`b`
-- is true).
pub steps-stat :
    (b : Bool) (tag : String) (now_ms server_time : ℕ) (a : Answers) (r : Receiver)
    (es : List Event)
    → str_eq tag "" ≡ false
    → r.world.sink.has_db ≡ true
    → All (Answered b) es
    → let r' = steps es (reset_test_run tag now_ms a true server_time r) in
      (d : RunDoc) × (r'.world.docs tag ≡ some d)
      × ((k : Counter) → Within b (d.count k + r'.world.sink.delta k) (stat_of r'.stats k))
steps-stat b tag now_ms server_time a r es tagged db good =
    (steps_agree b tag tagged es (reset_test_run tag now_ms a true server_time r) good
      (reset_test_run-Agrees b tag tagged now_ms a server_time r db)).3
