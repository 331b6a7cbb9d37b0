-- ===== src/Argos/Examples.antt =====
-- The bridges at a station with a few clips. The floats are whole numbers here.
use drone_audio_sensor.Common.{
  ℕ, ◌-◌, ◌≡◌, refl, Bool, true, false, List, [], ◌∷◌, Option, none, some, String, arith, All, ltb,
  ◌*◌, ◌==◌, ◌||◌, length,
}
use drone_audio_sensor.Common.Int.{pos}
use drone_audio_sensor.Common.Text.{codes, lower}
use drone_audio_sensor.Argos.Locate.{Floats, Sidecar, number, resolve}
use drone_audio_sensor.Argos.Bridge.{Clip, StationStats, run_session}
use drone_audio_sensor.Argos.Sent.{Outcome, run_session-clip_frames}
use drone_audio_sensor.Argos.Retry.{
  Turn, returned, raised, replay_station, station_waits, backoff_ms, IsBounded, RisesFrom,
  replay_station-RisesFrom,
}
use drone_audio_sensor.Argos.Stations.{sensor_from_path, split}
use drone_audio_sensor.Argos.Live.{Notification, Event, arrives, turn, begin, advance, run, fresh}
use drone_audio_sensor.Argos.Numbers.{IsSound, run-IsSound}

abbrev whole : Floats ℕ
whole = record {
  zero = 0;
  is_zero = λ x. x == 0;
  is_far = λ a b c d. ltb 50 (a - c) || ltb 50 (c - a);
  round_7 = pos;
  round_3 = pos;
  is_seconds = λ x. ltb x 100000000000;
  int = pos;
  int_thousandfold = λ x. pos (x * 1000);
  from_iso_ms = λ s. none;
}

abbrev at_place : ℕ → Option (Sidecar ℕ)
at_place x = some (record {
  location =
      some (record { latitude = some x; longitude = some 7; altitude = none; is_exact = true });
  start_time = number 3;
})

abbrev clip : Option (Sidecar ℕ) → Option (List ℕ × ℕ) → Clip ℕ
clip sidecar audio = record {
  is_shutdown = false;
  sidecar = sidecar;
  now_ms = 9;
  audio = audio;
  is_stopped = false;
}

abbrev first_clip : Clip ℕ
first_clip = clip (at_place 33) (some (1 ∷ 2 ∷ [], 16000))

-- A move, a clip that does not decode, one without a sidecar, and one at the first place.
abbrev later : List (Clip ℕ)
later =
    clip (at_place 34) (some (3 ∷ 4 ∷ [], 16000))
    ∷ clip (at_place 34) none
    ∷ clip none (some (5 ∷ [], 16000))
    ∷ clip (at_place 33) (some (6 ∷ [], 16000))
    ∷ []

abbrev zeros : StationStats
zeros = record {
  clips_sent = 0;
  clips_failed = 0;
  location_updates = 0;
  sidecar_loc_used = 0;
  registry_loc_used = 0;
  no_loc_skipped = 0;
  bytes_sent = 0;
  sessions = 0;
}

run_session-clip_frames_example :
    Outcome whole false none
      (first_clip ∷ later)
      (run_session whole false none 8 (first_clip ∷ later) zeros)
      (resolve whole false 8 (at_place 33) none)
run_session-clip_frames_example = run_session-clip_frames whole false none 8 first_clip later zeros

abbrev failing : Turn
failing = record { end = raised; is_shutdown = false; is_stopped = false }

abbrev turns : List Turn
turns =
    failing ∷ record { end = returned 4000; is_shutdown = false; is_stopped = false } ∷ failing ∷ []

replay_station-RisesFrom_example :
    All IsBounded (replay_station false turns) × RisesFrom 0 (replay_station false turns)
replay_station-RisesFrom_example =
    replay_station-RisesFrom false turns (tt, (omega arith, (tt, tt)))

-- The fifth session in a row that raises is followed by the longest wait, however long it ran.
long_wait :
    replay_station false (failing ∷ failing ∷ failing ∷ failing ∷ failing ∷ [])
    ≡ 1000 ∷ 2000 ∷ 5000 ∷ 10000 ∷ 30000 ∷ []
unfolding replay_station station_waits backoff_ms
long_wait = refl

abbrev notification : String → Bool → Notification
notification path forwards = record {
  object_id = some (codes path);
  object_id_snake = none;
  downloads = true;
  parses = true;
  forwards = forwards;
}

-- Two clips of one station are under way at once, and the second is done first.
abbrev events : List Event
events =
    arrives (notification "ensco/SH/SH011/a.wav" true)
    ∷ arrives (notification "ensco/SH/SH011/b.wav" false)
    ∷ arrives (notification "ensco/SH/SH011/a.json" true)
    ∷ turn 0
    ∷ turn 1
    ∷ turn 1
    ∷ turn 0
    ∷ turn 1
    ∷ turn 1
    ∷ []

run-IsSound_example : IsSound 2 (run 2 events fresh)
run-IsSound_example = run-IsSound 2 events

-- The second handler failed, and was counted; the others are not counted yet.
under_way :
    let s = run 2 events fresh in
    (s.received ≡ 3)
    × (s.failed ≡ 1)
    × (s.forwarded ≡ 0)
    × (length s.sent ≡ 2)
    × (length s.handlers ≡ 2)
unfolding begin advance lower sensor_from_path split
under_way = (refl, refl, refl, refl, refl)

-- The notification of a sidecar is skipped, and counted as forwarded.
skipped_counted :
    let s =
      run 8 (arrives (notification "ensco/SH/SH011/a.json" true) ∷ turn 0 ∷ turn 0 ∷ []) fresh in
    (s.forwarded ≡ 1) × (s.sent ≡ [])
unfolding begin advance lower
skipped_counted = (refl, refl)
