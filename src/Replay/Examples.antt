-- ===== src/Replay/Examples.antt =====
-- The load test at a short clip.
use drone_audio_sensor.Common.{
  ℕ, ◌≡◌, refl, ◌↔◌, inl, inr, Bool, true, false, List, [], ◌∷◌, ◌++◌, none, some, arith, String,
}
use drone_audio_sensor.Replay.Clip.{slice, refill, Loops, slice_lem}
use drone_audio_sensor.Replay.Truth.{runs}
use drone_audio_sensor.Replay.Runs.{Separated, Covers, HoldsFrom, runs_lem}
use drone_audio_sensor.Replay.Collector.{
  Doc, Collector, poll, polls, new_events, newest, poll_again,
}
use drone_audio_sensor.Replay.Session.{Cycle, Session, greeted, persistent_stream_session}
use drone_audio_sensor.Replay.Stuck.{IsDead, EndsBefore, persistent_stream_session-Hangs}

abbrev audio : List ℕ
audio = 10 ∷ 11 ∷ 12 ∷ []

slice_lem_example : Loops audio 2 8 (slice 9 audio 2 8)
slice_lem_example = slice_lem 9 audio 2 8 (omega arith) (omega arith) (omega arith)

twice_round : slice 9 audio 2 8 ≡ 12 ∷ 10 ∷ 11 ∷ 12 ∷ 10 ∷ 11 ∷ 12 ∷ 10 ∷ []
unfolding slice refill
twice_round = refl

abbrev labels : List Bool
labels = false ∷ true ∷ true ∷ false ∷ true ∷ []

runs_lem_example :
    Separated 0 (runs labels) × ((s : ℕ) → Covers (runs labels) s ↔ HoldsFrom 0 labels s)
runs_lem_example = runs_lem labels

two_runs : runs labels ≡ (1, 3) ∷ (4, 5) ∷ []
unfolding runs
two_runs = refl

abbrev doc : ℕ → String → Doc ℕ
doc t category = record {
  published_at_ms = some t;
  device_id = some "d1";
  peak_score = none;
  category = some category;
  subtype_label = none;
}

abbrev fresh : Collector ℕ
fresh = record { last_published_ms = 100; detections = λ id. [] }

abbrev any_station : String → Bool
any_station id = true

poll_again_example :
    poll 0 any_station
      (some (doc 120 "a" ∷ []))
      (polls 0 any_station [] (poll 0 any_station (some (doc 130 "b" ∷ doc 120 "a" ∷ [])) fresh))
    ≡ polls 0 any_station [] (poll 0 any_station (some (doc 130 "b" ∷ doc 120 "a" ∷ [])) fresh)
poll_again_example =
    poll_again 0 any_station (doc 130 "b" ∷ doc 120 "a" ∷ []) (doc 120 "a" ∷ []) [] fresh
      (inr (inl refl), tt)

-- A detection that was published earlier than one that was counted, and is seen only later, is not
-- counted.
late_ignored :
    let c = poll 0 any_station (some (doc 130 "b" ∷ [])) fresh in
    poll 0 any_station (some (doc 130 "b" ∷ doc 120 "a" ∷ [])) c ≡ c
unfolding poll new_events newest
late_ignored = refl

abbrev dead : Cycle
dead = record {
  is_stopped = false;
  payload = 1 ∷ [];
  drains = 0;
  egress_drains = 1;
  is_heartbeat_due = false;
  heartbeat_drains = 0;
  last_drains = 0;
}

abbrev alive : Cycle
alive = record dead { drains = 2 }

abbrev idle : Session
idle = record {
  sequence = 0;
  frames_sent = 0;
  frames_failed = 0;
  bytes_sent = 0;
  gateway = greeted;
  egress = none;
}

abbrev all_dead : List Cycle
all_dead = dead ∷ dead ∷ dead ∷ dead ∷ dead ∷ []

dead-IsDead : IsDead dead
dead-IsDead = (refl, refl, refl, refl)

persistent_stream_session-Hangs_example :
    EndsBefore
      (persistent_stream_session true (alive ∷ []) idle)
      (persistent_stream_session true ((alive ∷ []) ++ all_dead) idle)
persistent_stream_session-Hangs_example =
    persistent_stream_session-Hangs true (alive ∷ []) all_dead idle
      (dead-IsDead, (dead-IsDead, (dead-IsDead, (dead-IsDead, (dead-IsDead, tt))))) (omega arith)
