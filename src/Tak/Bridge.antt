-- ===== src/Tak/Bridge.antt =====
-- From Pub/Sub to the TAK server: `_on_message` of subscriber.py and `_handle` of publisher.py, in
-- backend/tak_publisher/src/tak_publisher, over the queue between them.
-- `P` is the type of payloads, and `F` that of floats.
use drone_audio_sensor.Common.{
  ℕ, ◌+◌, Bool, true, false, not, List, [], ◌∷◌, ◌++◌, Option, none, some, String, get_or, ◌≡◌,
  refl, ◌↔◌, Bool-cases, inl, inr, ◌≤◌, sym, ◌∙◌, ap,
}
use mathlib.Core.List.{append-nil}
use drone_audio_sensor.Tak.Dedup.{LruSet, add, has, add-has, add_new}
use drone_audio_sensor.Tak.Client.{TakClient, Try, send, sent, Drains, writes, send_lem}
use drone_audio_sensor.Tak.Event.{
  Detection, CotEvent, CotSettings, Format, build_event, or_str, placed, unplaced, raises,
}

-- A message of the subscription. `body` is what `json.loads` makes of its data; `none` where it raises.
pub record Delivery (F : Type 0) : Type 0 where
  pub ack_id : ℕ
  pub message_id : String
  pub detection_id : Option String
  pub device_id : Option String
  pub body : Option (Detection F)

pub record IncomingMessage (F : Type 0) : Type 0 where
  pub detection_id : String
  pub device_id : String
  pub body : Detection F
  pub ack_id : ℕ

-- The state of the publisher, whether an exception left its loop, and the deliveries that it
-- acknowledged and refused.
pub record Bridge (F P : Type 0) : Type 0 where
  pub dedup : LruSet
  pub queue : List (IncomingMessage F)
  pub tak : TakClient P
  pub crashed : Bool
  pub events_sent : ℕ
  pub events_dropped : ℕ
  pub acked : List ℕ
  pub nacked : List ℕ

module _ {F P : Type 0} (fmt : Format F) (cfg : CotSettings) (to_xml_bytes : CotEvent F → P) where
  abbrev ack : Bridge F P → ℕ → Bridge F P
  ack b id = record b { acked = b.acked ++ id ∷ [] }

  abbrev nack : Bridge F P → ℕ → Bridge F P
  nack b id = record b { nacked = b.nacked ++ id ∷ [] }

  abbrev pub incoming : Delivery F → Detection F → IncomingMessage F
  incoming m body = record {
    detection_id =
        or_str (get_or m.detection_id "") (or_str (get_or body.detection_id "") m.message_id);
    device_id = or_str (get_or m.device_id "") (or_str (get_or body.device_id "") "unknown");
    body = body;
    ack_id = m.ack_id;
  }

  abbrev enqueue : Bridge F P → IncomingMessage F → LruSet × Bool → Bridge F P
  enqueue b m (dedup, false) = ack (record b { dedup = dedup }) m.ack_id
  enqueue b m (dedup, true) = record b { dedup = dedup; queue = b.queue ++ m ∷ [] }

  unfoldable pub on_message : Bridge F P → Delivery F → Bridge F P
  on_message b m = elim m.body [
    | none ↦ ack b m.ack_id
    | some body ↦ enqueue b (incoming m body) (add b.dedup (incoming m body).detection_id)
  ]

  abbrev finish : Bridge F P → ℕ → TakClient P × Bool → Bridge F P
  finish b id (tak, true) = record b {
    tak = tak;
    acked = b.acked ++ id ∷ [];
    events_sent = b.events_sent + 1;
  }
  finish b id (tak, false) = nack (record b { tak = tak }) id

  unfoldable pub handle : Bridge F P → IncomingMessage F → ℕ → Try → Try → Bridge F P
  handle b m now_ms t u = elim (build_event fmt cfg m.body now_ms) [
    | unplaced ↦ ack (record b { events_dropped = b.events_dropped + 1 }) m.ack_id
    | raises ↦ record b { crashed = true }
    | placed event ↦ finish b m.ack_id (send t u (to_xml_bytes event) b.tak)
  ]

  -- One turn of the loop of `start`, which ends when `_handle` raises: the oldest message of the
  -- queue.
  unfoldable pub turn : Bridge F P → ℕ → Try → Try → Bridge F P
  turn b now_ms t u = elim b.queue [
    | [] ↦ b
    | m ∷ rest ↦ handle (record b { queue = rest }) m now_ms t u
  ]

  finish_lem :
      (b : Bridge F P) (id : ℕ) (p : P) (r : TakClient P × Bool)
      → r.0.flushed ≡ b.tak.flushed ++ sent r.1 p
      → ((finish b id r).tak.flushed ≡ b.tak.flushed ++ sent r.1 p)
        × ((finish b id r).acked ≡ b.acked ++ sent r.1 id)
        × ((finish b id r).nacked ≡ b.nacked ++ sent (not r.1) id)
        × ((finish b id r).dedup ≡ b.dedup)
        × ((finish b id r).queue ≡ b.queue)
  finish_lem b id p (tak, true) h = (h, refl, sym (append-nil b.nacked), refl, refl)
  finish_lem b id p (tak, false) h = (h, sym (append-nil b.acked), refl, refl, refl)

  handle_event :
      (b : Bridge F P) (m : IncomingMessage F) (now_ms : ℕ) (t u : Try) (event : CotEvent F)
      → build_event fmt cfg m.body now_ms ≡ placed event
      → let ok = (send t u (to_xml_bytes event) b.tak).1 in
        let b' = handle b m now_ms t u in
        (b'.tak.flushed ≡ b.tak.flushed ++ sent ok (to_xml_bytes event))
        × (b'.acked ≡ b.acked ++ sent ok m.ack_id)
        × (b'.nacked ≡ b.nacked ++ sent (not ok) m.ack_id)
        × (b'.dedup ≡ b.dedup)
        × (b'.queue ≡ b.queue)
  unfolding handle
  handle_event b m now_ms t u event built =
      rw (built, handle)
        (finish_lem b m.ack_id (to_xml_bytes event) (send t u (to_xml_bytes event) b.tak)
          (send_lem t u (to_xml_bytes event) b.tak).1)

  finish-written :
      (b : Bridge F P) (id : ℕ) (r : TakClient P × Bool) → (finish b id r).tak.written ≡ r.0.written
  finish-written b id (tak, true) = refl
  finish-written b id (tak, false) = refl

  handle-written :
      (b : Bridge F P) (m : IncomingMessage F) (now_ms : ℕ) (t u : Try) (event : CotEvent F)
      → build_event fmt cfg m.body now_ms ≡ placed event
      → (handle b m now_ms t u).tak.written ≡ (send t u (to_xml_bytes event) b.tak).0.written
  unfolding handle
  handle-written b m now_ms t u event built =
      rw (built, handle) (finish-written b m.ack_id (send t u (to_xml_bytes event) b.tak))

  -- A message of which a marker can be made is acknowledged exactly if the first write drains, or
  -- fails with an error of the connection and the second drains, and then its payload has drained
  -- once; otherwise it is refused, and no payload has drained. The payload is handed to the writer
  -- once, and twice if the first write fails with an error of the connection.
  pub handle_lem :
      (b : Bridge F P) (m : IncomingMessage F) (now_ms : ℕ) (t u : Try) (event : CotEvent F)
      → build_event fmt cfg m.body now_ms ≡ placed event
      → (ok : Bool) × ((ok ≡ true) ↔ Drains t.outcome u.outcome)
        × ((handle b m now_ms t u).tak.flushed ≡ b.tak.flushed ++ sent ok (to_xml_bytes event))
        × ((handle b m now_ms t u).tak.written
            ≡ b.tak.written ++ writes t.outcome (to_xml_bytes event))
        × ((handle b m now_ms t u).acked ≡ b.acked ++ sent ok m.ack_id)
        × ((handle b m now_ms t u).nacked ≡ b.nacked ++ sent (not ok) m.ack_id)
  handle_lem b m now_ms t u event built =
      let (flushed, acked, nacked, _, _) = handle_event b m now_ms t u event built in
      let (iff, _, written) = send_lem t u (to_xml_bytes event) b.tak in
      (
        (send t u (to_xml_bytes event) b.tak).1,
        iff,
        flushed,
        handle-written b m now_ms t u event built ∙ written,
        acked,
        nacked,
      )

  enqueue_new :
      (b : Bridge F P) (m : IncomingMessage F) (r : LruSet × Bool)
      → r.1 ≡ true
      → enqueue b m r ≡ record b { dedup = r.0; queue = b.queue ++ m ∷ [] }
  enqueue_new b m (dedup, true) h = refl
  enqueue_new b m (dedup, false) h = cc

  enqueue_old :
      (b : Bridge F P) (m : IncomingMessage F) (r : LruSet × Bool)
      → r.1 ≡ false
      → enqueue b m r ≡ record b { dedup = r.0; acked = b.acked ++ m.ack_id ∷ [] }
  enqueue_old b m (dedup, true) h = cc
  enqueue_old b m (dedup, false) h = refl

  first_seen :
      (b : Bridge F P) (m : Delivery F) (body : Detection F)
      → m.body ≡ some body
      → has b.dedup.store (incoming m body).detection_id ≡ false
      → on_message b m ≡ record b {
        dedup = (add b.dedup (incoming m body).detection_id).0;
        queue = b.queue ++ incoming m body ∷ [];
      }
  unfolding on_message
  first_seen b m body parsed new =
      rw (parsed, on_message)
        (enqueue_new b (incoming m body) (add b.dedup (incoming m body).detection_id)
          (add_new b.dedup (incoming m body).detection_id ∙ rw new refl))

  seen_again :
      (b : Bridge F P) (m : Delivery F) (body : Detection F)
      → m.body ≡ some body
      → has b.dedup.store (incoming m body).detection_id ≡ true
      → on_message b m ≡ record b {
        dedup = (add b.dedup (incoming m body).detection_id).0;
        acked = b.acked ++ m.ack_id ∷ [];
      }
  unfolding on_message
  seen_again b m body parsed old =
      rw (parsed, on_message)
        (enqueue_old b (incoming m body) (add b.dedup (incoming m body).detection_id)
          (add_new b.dedup (incoming m body).detection_id ∙ rw old refl))

  turn_single :
      (b : Bridge F P) (m : IncomingMessage F) (now_ms : ℕ) (t u : Try)
      → b.queue ≡ m ∷ []
      → turn b now_ms t u ≡ handle (record b { queue = [] }) m now_ms t u
  unfolding turn
  turn_single b m now_ms t u h = rw (h, turn) refl

  -- The failed delivery of a message that was not seen before.
  failed_turn :
      (b : Bridge F P) (m : Delivery F) (body : Detection F) (now_ms : ℕ) (t u : Try)
      (event : CotEvent F)
      → b.queue ≡ []
      → 1 ≤ b.dedup.cap
      → m.body ≡ some body
      → has b.dedup.store (incoming m body).detection_id ≡ false
      → build_event fmt cfg body now_ms ≡ placed event
      → ¬ Drains t.outcome u.outcome
      → let failed = turn (on_message b m) now_ms t u in
        (failed.nacked ≡ b.nacked ++ m.ack_id ∷ [])
        × (failed.acked ≡ b.acked)
        × (failed.queue ≡ [])
        × (failed.tak.flushed ≡ b.tak.flushed)
        × (has failed.dedup.store (incoming m body).detection_id ≡ true)
  failed_turn b m body now_ms t u event idle room parsed new built fails =
      let seen = first_seen b m body parsed new in
      let one : (on_message b m).queue ≡ incoming m body ∷ [] =
        ap (λ (x : Bridge F P). x.queue) seen
        ∙ ap (λ (q : List (IncomingMessage F)). q ++ incoming m body ∷ []) idle in
      let b1 = record (on_message b m) { queue = [] } in
      let turned = turn_single (on_message b m) (incoming m body) now_ms t u one in
      let (flushed, acked, nacked, dedup, queue) =
        handle_event b1 (incoming m body) now_ms t u event built in
      let (iff, _, _) = send_lem t u (to_xml_bytes event) b1.tak in
      elim (Bool-cases (send t u (to_xml_bytes event) b1.tak).1) [
        | inl ok ↦ absurd (fails (iff.0 ok))
        | inr bad ↦ (
          ap (λ (x : Bridge F P). x.nacked) turned
              ∙ nacked
              ∙ ap (λ ok. (on_message b m).nacked ++ sent (not ok) m.ack_id) bad
              ∙ ap (λ (x : Bridge F P). x.nacked ++ m.ack_id ∷ []) seen,
          ap (λ (x : Bridge F P). x.acked) turned
              ∙ acked
              ∙ ap (λ ok. (on_message b m).acked ++ sent ok m.ack_id) bad
              ∙ append-nil (on_message b m).acked
              ∙ ap (λ (x : Bridge F P). x.acked) seen,
          ap (λ (x : Bridge F P). x.queue) turned ∙ queue,
          ap (λ (x : Bridge F P). x.tak.flushed) turned
              ∙ flushed
              ∙ ap (λ ok. (on_message b m).tak.flushed ++ sent ok (to_xml_bytes event)) bad
              ∙ append-nil (on_message b m).tak.flushed
              ∙ ap (λ (x : Bridge F P). x.tak.flushed) seen,
          ap (λ (x : Bridge F P). has x.dedup.store (incoming m body).detection_id) turned
              ∙ ap (λ (x : LruSet). has x.store (incoming m body).detection_id) dedup
              ∙ ap (λ (x : Bridge F P). has x.dedup.store (incoming m body).detection_id) seen
              ∙ add-has b.dedup (incoming m body).detection_id room,
        )
      ]

  -- A detection that was not seen before, and whose delivery fails, is lost: when Pub/Sub sends it
  -- again while the queue is empty and nothing else was received, its id is in the cache of
  -- duplicates (which holds at least one), so it is acknowledged without being queued.
  pub redelivery_lost :
      (b : Bridge F P) (m m' : Delivery F) (body : Detection F) (now_ms : ℕ) (t u : Try)
      (event : CotEvent F)
      → b.queue ≡ []
      → 1 ≤ b.dedup.cap
      → m.body ≡ some body
      → m'.body ≡ some body
      → (incoming m' body).detection_id ≡ (incoming m body).detection_id
      → has b.dedup.store (incoming m body).detection_id ≡ false
      → build_event fmt cfg body now_ms ≡ placed event
      → ¬ Drains t.outcome u.outcome
      → let failed = turn (on_message b m) now_ms t u in
        let again = on_message failed m' in
        (failed.nacked ≡ b.nacked ++ m.ack_id ∷ [])
        × (again.acked ≡ b.acked ++ m'.ack_id ∷ [])
        × (again.queue ≡ [])
        × (again.tak.flushed ≡ b.tak.flushed)
  redelivery_lost b m m' body now_ms t u event idle room parsed parsed' same new built fails =
      let (nacked, acked, queue, flushed, held) =
        failed_turn b m body now_ms t u event idle room parsed new built fails in
      let failed = turn (on_message b m) now_ms t u in
      let again =
        seen_again failed m' body parsed' (ap (λ k. has failed.dedup.store k) same ∙ held) in
      (
        nacked,
        ap (λ (x : Bridge F P). x.acked) again ∙ ap (λ (ids : List ℕ). ids ++ m'.ack_id ∷ []) acked,
        ap (λ (x : Bridge F P). x.queue) again ∙ queue,
        ap (λ (x : Bridge F P). x.tak.flushed) again ∙ flushed,
      )
