-- ===== src/Egress/Link/Safety.antt =====
-- A message is acknowledged to Pub/Sub only after the receiver counted it.
use mathlib.Core.Path.{subst}
use drone_audio_sensor.Common.{
  ℕ, ◌+◌, ◌≤◌, ◌≡◌, refl, ap, sym, ◌∙◌, Bool, List, [], ◌∷◌, ◌++◌, Option, none, some, arith,
  length, length-append, All, All-append,
}
use drone_audio_sensor.Common.Places.{
  At, Among, At-append, Among-append, At-map, At-before, All-At, All-weaken, map-append,
}
use mathlib.Core.List.{append_assoc}
use drone_audio_sensor.Egress.Receiver.{ReceiverStats, BatchAck, stream_end}
use drone_audio_sensor.Egress.Forwarder.{
  Forwarder, Stats, Item, PendingBatch, find, dets, pack, packed, yield_from, settle, enqueue,
  drain, next_request, on_ack, reconnect,
}
use drone_audio_sensor.Egress.Link.{
  Link, Event, message, round, request, receive, acknowledge, lose, step, steps, stream_batch,
  requested, received, acknowledged, start,
}
use drone_audio_sensor.Egress.Link.Invariant.{
  All-discard, find_lem, IsGroup, IsCounted, IsWritten, Rising, Rising-lower, Rising-append, Inv,
  IsCounted-group, more-IsCounted,
}

module _ {D : Type 0} (Came : Item D → Type 0) where
  -- The forwarder changed only where the invariant allows.
  with_fwd :
      (l : Link D) (f : Forwarder D) (v : Inv Came l)
      → f.pending ≡ l.fwd.pending
      → f.acked ≡ l.fwd.acked
      → Rising Came (length v.log) f.out_q f.batch_seq
      → IsGroup Came f.buf
      → Inv Came (record l { fwd = f })
  with_fwd l f v p a q b = record {
    log = v.log;
    got = v.got;
    split = v.split;
    place = v.place;
    sure = v.sure;
    waiting = subst (All (IsWritten Came v.log)) (sym p) v.waiting;
    below = v.below;
    queued = q;
    buffered = b;
    safe = subst (All (IsCounted Came l.counted)) (sym a) v.safe;
  }

  message-Inv :
      (n : ℕ) (l : Link D) (x : Item D)
      → Came x
      → Inv Came l
      → Inv Came (record l { fwd = enqueue n l.fwd x })
  unfolding enqueue
  message-Inv n l x c v =
      with_fwd l (enqueue n l.fwd x) v refl refl v.queued
        (All-append Came l.fwd.buf (x ∷ []) v.buffered (c, tt))

  packed-Inv :
      (size : List D → ℕ) (l : Link D) (items : List (Item D))
      → l.fwd.buf ≡ items
      → Inv Came l
      → Inv Came (record l { fwd = packed size l.fwd items })
  packed-Inv size l [] e v = with_fwd l (packed size l.fwd []) v refl refl v.queued v.buffered
  packed-Inv size l (x ∷ items) e v =
      with_fwd l (packed size l.fwd (x ∷ items)) v refl refl
        (Rising-append Came (length v.log) l.fwd.out_q l.fwd.batch_seq (dets (x ∷ items))
          (pack size (l.fwd.batch_seq + 1) (x ∷ items)).1 (x ∷ items) refl refl
          (subst (IsGroup Came) e v.buffered) refl v.queued)
        tt

  round-Inv :
      (size : List D → ℕ) (l : Link D) → Inv Came l → Inv Came (record l { fwd = drain size l.fwd })
  unfolding drain
  round-Inv size l v = packed-Inv size l l.fwd.buf refl v

  lose-Inv :
      (l : Link D) (failed : Bool) (s : ReceiverStats)
      → Inv Came l
      → Inv Came (record l { fwd = reconnect l.fwd failed; up = []; down = []; seq = 0; stats = s })
  unfolding reconnect
  lose-Inv l failed s v = record {
    log = [];
    got = [];
    split = refl;
    place = refl;
    sure = tt;
    waiting = tt;
    below = tt;
    queued = Rising-lower Came 0 (length v.log) l.fwd.out_q l.fwd.batch_seq (omega arith) v.queued;
    buffered = v.buffered;
    safe = v.safe;
  }

  receive-Inv :
      (size : List D → ℕ) (n now_ms : ℕ) (l : Link D) (b : List D) (rest : List (List D))
      → l.up ≡ b ∷ rest
      → Inv Came l
      → Inv Came (stream_batch size n l now_ms b rest)
  unfolding stream_batch
  receive-Inv size n now_ms l b rest e v = record {
    log = v.log;
    got = v.got ++ b ∷ [];
    split = v.split ∙ ap (λ xs. v.got ++ xs) e ∙ sym (append_assoc v.got (b ∷ []) rest);
    place = length-append v.got (b ∷ []) ∙ (let p = v.place in omega arith);
    sure =
        All-append (Among (l.counted ++ b ∷ [])) v.got (b ∷ [])
          (All-weaken (Among l.counted) (Among (l.counted ++ b ∷ [])) v.got
            (λ x k. (k.0, At-append l.counted (b ∷ []) k.0 x k.1)) v.sure)
          (Among-append l.counted b, tt);
    waiting = v.waiting;
    below =
        All-append (λ (a : BatchAck). a.batch_seq ≤ l.seq + 1) l.down
          (record { batch_seq = l.seq + 1; server_received_bytes = size b } ∷ [])
          (All-weaken (λ (a : BatchAck). a.batch_seq ≤ l.seq)
            (λ (a : BatchAck). a.batch_seq ≤ l.seq + 1) l.down (λ a k. omega arith) v.below)
          (omega arith, tt);
    queued = v.queued;
    buffered = v.buffered;
    safe =
        All-weaken (IsCounted Came l.counted) (IsCounted Came (l.counted ++ b ∷ [])) l.fwd.acked
          (λ id k. more-IsCounted Came l.counted b id k) v.safe;
  }

  IsWritten-append :
      (log : List (List (Item D))) (g : List (Item D)) (p : PendingBatch)
      → IsWritten Came log p
      → IsWritten Came (log ++ g ∷ []) p
  IsWritten-append log g p (i, g', at, k, e, c) = (i, g', At-append log (g ∷ []) i g' at, k, e, c)

  last_At : (log : List (List (Item D))) (g : List (Item D)) → At (log ++ g ∷ []) (length log) g
  last_At [] g = refl
  last_At (h ∷ log) g = last_At log g

  yield_from-Inv :
      (size : List D → ℕ) (n : ℕ) (l : Link D) (q : List (List D × PendingBatch))
      → l.fwd.out_q ≡ q
      → Inv Came l
      → Inv Came (requested size n l (yield_from l.fwd q))
  yield_from-Inv size n l [] e v =
      with_fwd l (yield_from l.fwd []).0 v refl refl v.queued v.buffered
  yield_from-Inv size n l ((b, p) ∷ q) e v =
      let ((g, is, acks, came), above, rest) =
        subst (λ (x : List (List D × PendingBatch)). Rising Came (length v.log) x l.fwd.batch_seq) e
          v.queued in
      record {
        log = v.log ++ g ∷ [];
        got = v.got;
        split =
            map-append dets v.log (g ∷ [])
            ∙ ap (λ xs. xs ++ dets g ∷ []) v.split
            ∙ append_assoc v.got l.up (dets g ∷ [])
            ∙ ap (λ x. v.got ++ (l.up ++ x ∷ [])) (sym is);
        place = v.place;
        sure = v.sure;
        waiting = (
          (length v.log, g, last_At v.log g, above, acks, came),
          All-discard (IsWritten Came (v.log ++ g ∷ [])) l.fwd.pending p.seq (
              All-weaken (IsWritten Came v.log) (IsWritten Came (v.log ++ g ∷ [])) l.fwd.pending
                (λ x w. IsWritten-append v.log g x w) v.waiting),
        );
        below = v.below;
        queued =
            subst (λ k. Rising Came k q l.fwd.batch_seq)
              (let k = length-append v.log (g ∷ []) in omega arith) rest;
        buffered = v.buffered;
        safe = v.safe;
      }

  -- The batch that an acknowledgement finds was counted.
  found-IsCounted :
      (l : Link D) (a : BatchAck) (p : PendingBatch)
      → Inv Came l
      → a.batch_seq ≤ l.seq
      → find l.fwd.pending a.batch_seq ≡ some p
      → All (IsCounted Came l.counted) p.acks
  found-IsCounted l a p v bound found =
      let ((i, g, at, above, acks, came), number) =
        find_lem (IsWritten Came v.log) l.fwd.pending a.batch_seq p v.waiting found in
      let place = v.place in
      let sent = subst (λ xs. At xs i (dets g)) v.split (At-map dets v.log i g at) in
      let there =
        All-At (Among l.counted) v.got i (dets g) v.sure
          (At-before v.got l.up i (dets g) sent (omega arith)) in
      subst (All (IsCounted Came l.counted)) (sym acks)
        (IsCounted-group Came l.counted (dets g) g there came (λ j d k. (j, k)))

  settle-Inv :
      (l : Link D) (a : BatchAck) (rest : List BatchAck) (o : Option PendingBatch)
      → l.down ≡ a ∷ rest
      → find l.fwd.pending a.batch_seq ≡ o
      → Inv Came l
      → Inv Came (record l { fwd = settle l.fwd a o; down = rest })
  settle-Inv l a rest none e found v = record {
    log = v.log;
    got = v.got;
    split = v.split;
    place = v.place;
    sure = v.sure;
    waiting = v.waiting;
    below = (subst (All (λ (x : BatchAck). x.batch_seq ≤ l.seq)) e v.below).1;
    queued = v.queued;
    buffered = v.buffered;
    safe = v.safe;
  }
  settle-Inv l a rest (some p) e found v =
      let (bound, later) = subst (All (λ (x : BatchAck). x.batch_seq ≤ l.seq)) e v.below in
      record {
        log = v.log;
        got = v.got;
        split = v.split;
        place = v.place;
        sure = v.sure;
        waiting = All-discard (IsWritten Came v.log) l.fwd.pending a.batch_seq v.waiting;
        below = later;
        queued = v.queued;
        buffered = v.buffered;
        safe =
            All-append (IsCounted Came l.counted) l.fwd.acked p.acks v.safe
              (found-IsCounted l a p v bound found);
      }

  received-Inv :
      (size : List D → ℕ) (n now_ms : ℕ) (l : Link D) (up : List (List D))
      → l.up ≡ up
      → Inv Came l
      → Inv Came (received size n l now_ms up)
  received-Inv size n now_ms l [] e v = v
  received-Inv size n now_ms l (b ∷ rest) e v = receive-Inv size n now_ms l b rest e v

  acknowledged-Inv :
      (size : List D → ℕ) (n : ℕ) (l : Link D) (down : List BatchAck)
      → l.down ≡ down
      → Inv Came l
      → Inv Came (acknowledged size n l down)
  unfolding on_ack
  acknowledged-Inv size n l [] e v = v
  acknowledged-Inv size n l (a ∷ rest) e v =
      settle-Inv l a rest (find l.fwd.pending a.batch_seq) e refl v

  -- A message that arrives is one that came.
  abbrev pub Arrives : Event D → Type 0
  Arrives (message x) = Came x
  Arrives round = Unit
  Arrives request = Unit
  Arrives (receive now_ms) = Unit
  Arrives acknowledge = Unit
  Arrives (lose failed raised) = Unit

  step-Inv :
      (size : List D → ℕ) (n : ℕ) (l : Link D) (e : Event D)
      → Arrives e
      → Inv Came l
      → Inv Came (step size n l e)
  unfolding step next_request
  step-Inv size n l (message x) c v = message-Inv n l x c v
  step-Inv size n l round c v = round-Inv size l v
  step-Inv size n l request c v = yield_from-Inv size n l l.fwd.out_q refl v
  step-Inv size n l (receive now_ms) c v = received-Inv size n now_ms l l.up refl v
  step-Inv size n l acknowledge c v = acknowledged-Inv size n l l.down refl v
  step-Inv size n l (lose failed raised) c v = lose-Inv l failed (stream_end l.stats raised) v

  steps-Inv :
      (size : List D → ℕ) (n : ℕ) (l : Link D) (es : List (Event D))
      → All Arrives es
      → Inv Came l
      → Inv Came (steps size n l es)
  steps-Inv size n l [] c v = v
  steps-Inv size n l (e ∷ es) c v =
      steps-Inv size n (step size n l e) es c.1 (step-Inv size n l e c.0 v)

  start-Inv : (sent : Stats) (counts : ReceiverStats) → Inv Came (start sent counts)
  start-Inv sent counts = record {
    log = [];
    got = [];
    split = refl;
    place = refl;
    sure = tt;
    waiting = tt;
    below = tt;
    queued = omega arith;
    buffered = tt;
    safe = tt;
  }

  -- From the start of the two processes on, whatever the order of messages, batches, receipts,
  -- acknowledgements and lost streams: a message is acknowledged to Pub/Sub only if it was pulled
  -- and the receiver counted a batch that has its detection.
  pub steps-IsCounted :
      (size : List D → ℕ) (n : ℕ) (sent : Stats) (counts : ReceiverStats) (es : List (Event D))
      → All Arrives es
      → All
          (IsCounted Came (steps size n (start sent counts) es).counted)
          (steps size n (start sent counts) es).fwd.acked
  steps-IsCounted size n sent counts es c =
      (steps-Inv size n (start sent counts) es c (start-Inv sent counts)).safe
