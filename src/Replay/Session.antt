-- ===== src/Replay/Session.antt =====
-- `persistent_stream_session` of scripts/replay_fleet.py: the puts of the cadence loop into the
-- queues of the two streams, and how a session ends. How many messages a stream takes out of its
-- queue while the loop waits, the audio of each cycle and the clock are inputs. The codec is one
-- that `encode_frame` knows.
use drone_audio_sensor.Common.{
  ℕ, ◌+◌, Bool, true, false, List, [], ◌∷◌, ◌++◌, Option, none, some, if◌then◌else◌, ltb, length,
  take,
}
use drone_audio_sensor.Replay.Clip.{drop}

pub data Message : Type 0 where
  handshake : Message
  audio_frame : ℕ → List ℕ → Message
  end_of_stream : Message

-- A queue with what the stream has taken out of it. `maxsize` is 4.
pub record Channel : Type 0 where
  pub waiting : List Message
  pub taken : List Message

abbrev pub drain : ℕ → Channel → Channel
drain k q = record { waiting = drop k q.waiting; taken = q.taken ++ take k q.waiting }

-- `put`, while the stream takes `k` messages: whether there was room, and the queue.
abbrev pub put_drained : Message → Channel → Bool × Channel
put_drained m q =
    if ltb (length q.waiting) 4
    then (true, record q { waiting = q.waiting ++ m ∷ [] })
    else (false, q)

abbrev pub put : ℕ → Message → Channel → Bool × Channel
put k m q = put_drained m (drain k q)

-- `drains`, `egress_drains` and `heartbeat_drains` say how many messages a stream takes while the
-- loop waits for room; `last_drains` how many the gateway's stream ever takes after the loop. The
-- egress stream takes its messages before each cycle.
pub record Cycle : Type 0 where
  pub is_stopped : Bool
  pub payload : List ℕ
  pub drains : ℕ
  pub egress_drains : ℕ
  pub is_heartbeat_due : Bool
  pub heartbeat_drains : ℕ
  pub last_drains : ℕ

-- The counts of `StationStats`, the sequence number that outlives a session, and the queues; there
-- may be no egress.
pub record Session : Type 0 where
  pub sequence : ℕ
  pub frames_sent : ℕ
  pub frames_failed : ℕ
  pub bytes_sent : ℕ
  pub gateway : Channel
  pub egress : Option Channel

-- How a session stands: it returned, it waits for room that never comes, or the cycles are over.
pub data End : Type 0 where
  returned hangs : Session → End
  running : Session → End

-- `put_nowait`, which drops the message where there is no room.
abbrev pub put_nowait : ℕ → Message → Option Channel → Option Channel
put_nowait k m none = none
put_nowait k m (some q) = some (put k m q).1

-- After the loop: the end of the stream is put without a limit of time.
abbrev pub ended : Session → Bool × Channel → End
ended s (true, q) =
    returned (record s { gateway = q; egress = put_nowait 0 end_of_stream s.egress })
ended s (false, q) = hangs (record s { gateway = q })

abbrev pub finish : ℕ → Session → End
finish last_drains s = ended s (put last_drains end_of_stream s.gateway)

abbrev pub refreshed : Session → Bool × Channel → Session
refreshed s (true, q) = record s { gateway = q; egress = put_nowait 0 handshake s.egress }
refreshed s (false, q) = record s { gateway = q }

-- The handshake that keeps the health fresh; where there is no room, the next cycle tries again.
abbrev pub heartbeat : Cycle → Session → Session
heartbeat c s =
    if c.is_heartbeat_due then refreshed s (put c.heartbeat_drains handshake s.gateway) else s

-- A frame that is in the gateway's queue.
abbrev pub accepted : Cycle → ℕ → Channel → Session → Session
accepted c n q s = heartbeat c (record s {
  sequence = n;
  gateway = q;
  egress = put_nowait c.egress_drains (audio_frame n c.payload) s.egress;
  frames_sent = s.frames_sent + 1;
  bytes_sent = s.bytes_sent + length c.payload;
})

abbrev pub rejected : Cycle → ℕ → Channel → Session → End
rejected c n q s =
    finish c.last_drains
      (record s { sequence = n; gateway = q; frames_failed = s.frames_failed + 1 })

-- The loop.
abbrev pub cadence : List Cycle → Session → End
cadence [] s = running s
cadence (c ∷ cycles) s =
    let n = s.sequence + 1 in
    let (fits, q) = put c.drains (audio_frame n c.payload) s.gateway in
    let rest = cadence cycles (accepted c n q s) in
    if c.is_stopped then finish c.last_drains s else if fits then rest else rejected c n q s

abbrev pub greeted : Channel
greeted = record { waiting = handshake ∷ []; taken = [] }

abbrev pub opened : Bool → Session → Session
opened has_egress s = record s {
  gateway = greeted;
  egress = if has_egress then some greeted else none;
}

-- From the handshake that is put before the stream is opened.
unfoldable pub persistent_stream_session : Bool → List Cycle → Session → End
persistent_stream_session has_egress cycles s = cadence cycles (opened has_egress s)
