-- ===== src/AudioReceiver/Sink.antt =====
-- `_FirestoreSink` of backend/audio_receiver/src/audio_receiver/main.py: the deltas that a receiver
-- gathers, and the documents `test_runs/<tag>` to which it adds them. What Firestore answers to each
-- call, and the clock, are inputs.
use drone_audio_sensor.Common.{
  ℕ, ◌+◌, ◌-◌, ◌*◌, Bool, true, false, not, ◌&&◌, List, [], ◌∷◌, Option, none, some, String,
  if◌then◌else◌, str_eq, ltb, ◌==◌,
}
use drone_audio_sensor.Gateway.Store.{Table, write}

-- The keys of the deltas.
pub data Counter : Type 0 where
  handshakes_received frames_received wire_bytes audio_payload_bytes pcm_equivalent_bytes : Counter
  frames_pcm16 frames_wav frames_flac frames_unknown_codec stream_errors : Counter

abbrev pub index : Counter → ℕ
index handshakes_received = 0
index frames_received = 1
index wire_bytes = 2
index audio_payload_bytes = 3
index pcm_equivalent_bytes = 4
index frames_pcm16 = 5
index frames_wav = 6
index frames_flac = 7
index frames_unknown_codec = 8
index stream_errors = 9

abbrev pub one_if : Counter → Counter → ℕ
one_if a b = if index a == index b then 1 else 0

-- `_CODEC_TO_FIELD.get(codec, "frames_unknown_codec")`.
unfoldable pub codec_field : String → Counter
codec_field codec =
    if str_eq codec "pcm16"
    then frames_pcm16
    else if str_eq codec "wav"
    then frames_wav
    else if str_eq codec "flac"
    then frames_flac
    else frames_unknown_codec

-- A document of a run; times are in milliseconds.
pub record RunDoc : Type 0 where
  pub receiver_type : String
  pub status : String
  pub last_updated_at : Option ℕ
  pub ended_at : Option ℕ
  pub max_single_frame_bytes : ℕ
  pub count : Counter → ℕ

-- `delta` is 0 where the dictionary has no key; `is_empty` says that it has none at all.
pub record Sink : Type 0 where
  pub has_db : Bool
  pub delta : Counter → ℕ
  pub is_empty : Bool
  pub max_single : ℕ
  pub test_run_tag : String

pub record World : Type 0 where
  pub sink : Sink
  pub docs : Table RunDoc

-- Which of the calls of one flush return: the transaction that raises the maximum, and the update;
-- and the server's time.
pub record Answers : Type 0 where
  pub bumps : Bool
  pub updates : Bool
  pub server_time : ℕ

unfoldable pub record_delta : (Counter → ℕ) → ℕ → Sink → Sink
record_delta deltas max_frame s = record s {
  delta = λ k. s.delta k + deltas k;
  is_empty = false;
  max_single = if ltb s.max_single max_frame then max_frame else s.max_single;
}

abbrev pub cleared : Sink → Sink
cleared s = record s { delta = λ k. 0; is_empty = true }

abbrev pub bumped : ℕ → RunDoc → RunDoc
bumped max_frame d =
    if ltb d.max_single_frame_bytes max_frame
    then record d { max_single_frame_bytes = max_frame }
    else d

-- `doc.update`, on a document that must be there: `none` is an exception.
abbrev pub update_doc :
    Bool → String → (RunDoc → RunDoc) → Table RunDoc → Option RunDoc → Option (Table RunDoc)
update_doc returns tag f m none = none
update_doc returns tag f m (some d) = if returns then some (write m tag (f d)) else none

-- `_bump_max`, where there is a maximum.
abbrev pub bump_max : Bool → String → ℕ → Table RunDoc → Option (Table RunDoc)
bump_max returns tag max_frame m =
    if max_frame == 0 then some m else update_doc returns tag (bumped max_frame) m (m tag)

-- The fields of the update: the increments, and the end of the run where the flush closes it.
abbrev pub incremented : (Counter → ℕ) → Bool → ℕ → RunDoc → RunDoc
incremented deltas closes now d = record d {
  last_updated_at = some now;
  count = λ k. d.count k + deltas k;
  status = if closes then "complete" else d.status;
  ended_at = if closes then some now else d.ended_at;
}

abbrev pub or_kept : Table RunDoc → Option (Table RunDoc) → Table RunDoc
or_kept m none = m
or_kept m (some m') = m'

-- The body of the `try`: an exception leaves what was written before it.
abbrev pub after_bump :
    (Counter → ℕ) → Bool → Answers → String → Table RunDoc → Option (Table RunDoc) → Table RunDoc
after_bump deltas closes a tag m none = m
after_bump deltas closes a tag m (some m') =
    or_kept m' (update_doc a.updates tag (incremented deltas closes a.server_time) m' (m' tag))

unfoldable pub push : (Counter → ℕ) → ℕ → Bool → Answers → String → Table RunDoc → Table RunDoc
push deltas max_frame closes a tag m =
    after_bump deltas closes a tag m (bump_max a.bumps tag max_frame m)

-- `_flush_once`, from the tag that it chose.
abbrev pub flush_to : String → Bool → Answers → World → World
flush_to tag closes a w =
    if str_eq tag ""
    then w
    else if w.sink.is_empty && w.sink.max_single == 0 && not closes
    then record w { sink = cleared w.sink }
    else record {
      sink = cleared w.sink;
      docs = push w.sink.delta w.sink.max_single closes a tag w.docs;
    }

unfoldable pub flush_once : Bool → String → Answers → World → World
flush_once final finalize_tag a w =
    if not w.sink.has_db
    then w
    else flush_to (if str_eq finalize_tag "" then w.sink.test_run_tag else finalize_tag)
        (final && not (str_eq finalize_tag "")) a w

-- The document of a fresh run.
abbrev pub fresh_run : ℕ → RunDoc
fresh_run now = record {
  receiver_type = "audio_egress";
  status = "running";
  last_updated_at = some now;
  ended_at = none;
  max_single_frame_bytes = 0;
  count = λ k. 0;
}

-- From the moment at which the last run is closed; a document needs a tag that is not empty.
abbrev pub open_run : String → Bool → ℕ → World → World
open_run tag creates now w = record {
  sink = record (cleared w.sink) { max_single = 0; test_run_tag = tag };
  docs = if creates && not (str_eq tag "") then write w.docs tag (fresh_run now) else w.docs;
}

-- `reset_run`, with the answers to its flush and to its `set`.
unfoldable pub reset_run : String → Answers → Bool → ℕ → World → World
reset_run tag a creates now w =
    if not w.sink.has_db
    then record w { sink = record (w.sink) { test_run_tag = tag } }
    else open_run tag creates now (flush_once true w.sink.test_run_tag a w)

-- A run of the query of `_sweep_stale`, and whether its update returns.
abbrev pub closed : ℕ → RunDoc → RunDoc
closed now d = record d { status = "complete"; ended_at = some now }

abbrev pub is_stale : ℕ → Option ℕ → Bool
is_stale cutoff none = false
is_stale cutoff (some last_ms) = ltb last_ms cutoff

-- `_sweep_stale`, over the documents that the query gives, as it read them; the first update that
-- raises ends it. `STALE_RUN_SECONDS` is 300.
abbrev pub sweep : ℕ → ℕ → List (String × RunDoc × Bool) → Table RunDoc → Table RunDoc
sweep cutoff now [] m = m
sweep cutoff now ((tag, d, returns) ∷ rest) m =
    if not (is_stale cutoff d.last_updated_at)
    then sweep cutoff now rest m
    else (elim (update_doc returns tag (closed now) m (m tag)) [
      | none ↦ m
      | some m' ↦ sweep cutoff now rest m'
    ])

unfoldable pub sweep_stale : ℕ → List (String × RunDoc × Bool) → World → World
sweep_stale now_ms runs w =
    if not w.sink.has_db
    then w
    else record w { docs = sweep (now_ms - 300 * 1000) now_ms runs w.docs }

-- One turn of `_flush_loop`, and `stop`.
unfoldable pub flush_turn : Answers → ℕ → List (String × RunDoc × Bool) → World → World
flush_turn a now_ms runs w = sweep_stale now_ms runs (flush_once false "" a w)

unfoldable pub stop : Answers → World → World
stop a w = if w.sink.has_db then flush_once true "" a w else w
