-- ===== src/Argos/Bridge.antt =====
-- A session of a station of scripts/argos_bridge/bridge.py: `producer`, with the messages that it
-- puts into the queue, in their order, and the counts of the station. What is downloaded, what the
-- decoder makes of it, the clock and the shutdown are inputs of each clip. The producer is not
-- cancelled, and each message can be built: a capture time lies in the range of its field.
use drone_audio_sensor.Common.{
  ℕ, ◌+◌, Bool, true, false, List, [], ◌∷◌, ◌++◌, Option, none, some, if◌then◌else◌, length,
}
use drone_audio_sensor.Common.Int.{ℤ}
use drone_audio_sensor.Argos.Locate.{
  Sidecar, Provider, sidecar_gps, registry, ResolvedLocation, Floats, resolve, loc_changed,
}

-- `is_shutdown` is read before the clip, `is_stopped` says that the shutdown came while it paced;
-- `audio` is the payload and its rate, or none where the download or the decoder raised.
pub record Clip (F : Type 0) : Type 0 where
  pub is_shutdown : Bool
  pub sidecar : Option (Sidecar F)
  pub now_ms : ℕ
  pub audio : Option (List ℕ × ℕ)
  pub is_stopped : Bool

-- The fields of the three messages that depend on the clips.
pub data Message (F : Type 0) : Type 0 where
  handshake : ResolvedLocation F → Message F
  location_update : ResolvedLocation F → Message F
  audio_frame : ℕ → List ℕ → ℕ → ℤ → Message F

pub record StationStats : Type 0 where
  pub clips_sent : ℕ
  pub clips_failed : ℕ
  pub location_updates : ℕ
  pub sidecar_loc_used : ℕ
  pub registry_loc_used : ℕ
  pub no_loc_skipped : ℕ
  pub bytes_sent : ℕ
  pub sessions : ℕ

pub record Producer (F : Type 0) : Type 0 where
  pub last_loc : ResolvedLocation F
  pub sequence : ℕ
  pub stats : StationStats
  pub queue : List (Message F)

-- How a session ends before it has a stream, or what it sends.
pub data Session (F : Type 0) : Type 0 where
  no_clips : Session F
  no_location : Session F
  streamed : Producer F → Session F

abbrev pub put : {F : Type 0} → Message F → Producer F → Producer F
put m p = record p { queue = p.queue ++ m ∷ [] }

abbrev pub count_source : Provider → StationStats → StationStats
count_source sidecar_gps s = record s { sidecar_loc_used = s.sidecar_loc_used + 1 }
count_source registry s = record s { registry_loc_used = s.registry_loc_used + 1 }

module _ {F : Type 0} (fl : Floats F) (snap : Bool) (reg : Option (F × F)) where
  -- The update, from the second clip on, where the location differs from the last one sent.
  abbrev pub moved : ResolvedLocation F → Producer F → Producer F
  moved loc p = record (put (location_update loc) p) {
    stats = record (p.stats) { location_updates = p.stats.location_updates + 1 };
    last_loc = loc;
  }

  abbrev pub locate : Bool → ResolvedLocation F → Producer F → Producer F
  locate is_first loc p =
      if is_first then p else if loc_changed fl loc p.last_loc then moved loc p else p

  abbrev pub send_audio : ResolvedLocation F → Option (List ℕ × ℕ) → Producer F → Producer F
  send_audio loc none p = record p {
    stats = record (p.stats) { clips_failed = p.stats.clips_failed + 1 };
  }
  send_audio loc (some (payload, rate)) p =
      record (put (audio_frame (p.sequence + 1) payload rate loc.timestamp_ms) p) {
        sequence = p.sequence + 1;
        stats = record (p.stats) {
          clips_sent = p.stats.clips_sent + 1;
          bytes_sent = p.stats.bytes_sent + length payload;
        };
      }

  abbrev pub count_loc : Provider → Producer F → Producer F
  count_loc provider p = record p { stats = count_source provider p.stats }

  abbrev pub on_clip :
      Bool → Option (List ℕ × ℕ) → Option (ResolvedLocation F) → Producer F → Producer F
  on_clip is_first audio none p = record p {
    stats = record (p.stats) { no_loc_skipped = p.stats.no_loc_skipped + 1 };
  }
  on_clip is_first audio (some loc) p =
      send_audio loc audio (locate is_first loc (count_loc loc.provider p))

  -- The loop over the clips, the first of which has its sidecar already.
  abbrev pub walk : Bool → List (Clip F) → Producer F → Producer F
  walk is_first [] p = p
  walk is_first (c ∷ clips) p =
      let next = on_clip is_first c.audio (resolve fl snap c.now_ms c.sidecar reg) p in
      let rest = walk false clips next in
      if c.is_shutdown then p else if c.is_stopped then next else rest

  abbrev pub opened : ResolvedLocation F → StationStats → Producer F
  opened first_loc stats = record {
    last_loc = first_loc;
    sequence = 0;
    stats = record stats { sessions = stats.sessions + 1 };
    queue = handshake first_loc ∷ [];
  }

  abbrev pub started : List (Clip F) → StationStats → Option (ResolvedLocation F) → Session F
  started clips stats none = no_location
  started clips stats (some first_loc) = streamed (walk true clips (opened first_loc stats))

  -- `_run_session`, at the time at which it resolves the first clip.
  unfoldable pub run_session : ℕ → List (Clip F) → StationStats → Session F
  run_session now_ms [] stats = no_clips
  run_session now_ms (c ∷ clips) stats =
      started (c ∷ clips) stats (resolve fl snap now_ms c.sidecar reg)
