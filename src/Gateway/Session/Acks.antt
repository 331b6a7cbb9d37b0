-- ===== src/Gateway/Session/Acks.antt =====
-- The acknowledgements that a session sends.
use drone_audio_sensor.Common.{
  ℕ, ◌+◌, ◌≤◌, ◌≡◌, refl, true, List, [], ◌∷◌, ◌++◌, Option, none, some, arith, tests, Bool-cases,
  Option-cases, inl, inr,
}
use drone_audio_sensor.Common.Int.{ℤ, pos, minus_one, pos_part, neg_part, diff_ge}
use drone_audio_sensor.Gateway.Store.{
  Health, Location, AudioFrame, Payload, audio_frame, handshake, health, location_update, unset,
}
use drone_audio_sensor.Gateway.Session.{
  Fault, Arrival, Command, CommandPayload, frame_ack, session_ack, wipe_device, Session, Loop,
  Outcome, ◌▸◌, perform, raised_at, at_ack, count_frame, persist_codec, publish, acknowledge,
  on_audio, on_health, on_location, dispatch, on_message, serve,
}

abbrev ack_of : CommandPayload → List ℕ → List ℕ
ack_of (frame_ack n) rest = n ∷ rest
ack_of (session_ack d s a h) rest = rest
ack_of (wipe_device s) rest = rest

-- The sequence numbers that a list of commands acknowledges, in order.
abbrev pub acks : List Command → List ℕ
acks [] = []
acks (c ∷ cs) = ack_of c.payload (acks cs)

-- `a + k <= b`.
abbrev pub FarBelow : ℤ → ℕ → ℤ → Type 0
FarBelow a k b = pos_part a + neg_part b + k ≤ pos_part b + neg_part a

-- Each number is at least `k` past the one before it, the first at least `k` past `lo`, and the
-- last is at most `hi`.
abbrev pub Spaced : ℕ → ℤ → List ℕ → ℤ → Type 0
Spaced k lo [] hi = FarBelow lo 0 hi
Spaced k lo (x ∷ xs) hi = FarBelow lo k (pos x) × Spaced k (pos x) xs hi

acks-append : (cs ds : List Command) → acks (cs ++ ds) ≡ acks cs ++ acks ds
acks-append [] ds = refl
acks-append (c ∷ cs) ds = ground (arith, acks-append cs ds)

Spaced-append :
    (k : ℕ) (lo : ℤ) (xs : List ℕ) (hi : ℤ) (x : ℕ)
    → Spaced k lo xs hi
    → FarBelow hi k (pos x)
    → Spaced k lo (xs ++ x ∷ []) (pos x)
Spaced-append k lo [] hi x s h = (omega arith, omega arith)
Spaced-append k lo (y ∷ xs) hi x s h = (s.0, Spaced-append k (pos y) xs hi x s.1 h)

Spaced-raise :
    (k : ℕ) (lo : ℤ) (xs : List ℕ) (hi hi' : ℤ)
    → Spaced k lo xs hi
    → FarBelow hi 0 hi'
    → Spaced k lo xs hi'
Spaced-raise k lo [] hi hi' s h = omega arith
Spaced-raise k lo (y ∷ xs) hi hi' s h = (s.0, Spaced-raise k (pos y) xs hi hi' s.1 h)

module _ {F : Type 0} (s : Session) where
  abbrev Acked : Loop F → Type 0
  Acked l = Spaced s.ack_interval_frames minus_one (acks l.sent) l.last_acked_seq

  abbrev Keeps : Loop F → Outcome F → Type 0
  Keeps l o = (o.0.sent ≡ l.sent) × (o.0.last_acked_seq ≡ l.last_acked_seq)

  count_frame-Keeps : (a : Arrival F) (f : AudioFrame) (l : Loop F) → Keeps l (count_frame s a f l)
  unfolding count_frame
  count_frame-Keeps a f l = ground arith

  persist_codec-Keeps :
      (a : Arrival F) (f : AudioFrame) (l : Loop F) → Keeps l (persist_codec s a f l)
  unfolding persist_codec
  persist_codec-Keeps a f l = ground arith

  publish-Keeps : (a : Arrival F) (f : AudioFrame) (l : Loop F) → Keeps l (publish s a f l)
  unfolding publish
  publish-Keeps a f l = ground arith

  FarBelow-of_test :
      (l : Loop F) (f : AudioFrame)
      → diff_ge (pos f.sequence_number) l.last_acked_seq s.ack_interval_frames ≡ true
      → FarBelow l.last_acked_seq s.ack_interval_frames (pos f.sequence_number)
  FarBelow-of_test l f t = omega (tests)

  acknowledge-Acked :
      (a : Arrival F) (f : AudioFrame) (l : Loop F) → Acked l → Acked (acknowledge s a f l).0
  unfolding acknowledge
  acknowledge-Acked a f l h =
      elim (Bool-cases (diff_ge (pos f.sequence_number) l.last_acked_seq s.ack_interval_frames)) [
        | inr no_ack ↦ rw no_ack h
        | inl far ↦ rw far (elim (Option-cases (raised_at at_ack a.raises)) [
          | inr (e, failed) ↦
              rw (failed, perform)
                (Spaced-raise _ _ _ _ _ h (omega (arith, FarBelow-of_test l f far)))
          | inl done ↦
              rw (done, perform)
                (rw (acks-append l.sent) (Spaced-append _ _ _ _ _ h (FarBelow-of_test l f far)))
        ])
      ]

  Acked-of_Keeps : (l : Loop F) (o : Outcome F) → Keeps l o → Acked l → Acked o.0
  Acked-of_Keeps l o k h = rw (k.0, k.1) h

  ▸-Acked :
      (o : Outcome F) (k : Loop F → Outcome F)
      → ((l : Loop F) → Acked l → Acked (k l).0)
      → Acked o.0
      → Acked (o ▸ k).0
  ▸-Acked (l, none) k keep h = keep l h
  ▸-Acked (l, some e) k keep h = h

  on_health-Keeps : (a : Arrival F) (h : Health) (l : Loop F) → Keeps l (on_health s a h l)
  unfolding on_health
  on_health-Keeps a h l = ground arith

  on_location-Keeps : (a : Arrival F) (p : Location F) (l : Loop F) → Keeps l (on_location s a p l)
  unfolding on_location
  on_location-Keeps a p l = ground arith

  dispatch-Acked :
      (a : Arrival F) (p : Payload F) (l : Loop F) → Acked l → Acked (dispatch s a p l).0
  unfolding dispatch on_audio
  dispatch-Acked a (audio_frame f) l h =
      ▸-Acked (count_frame s a f l ▸ persist_codec s a f ▸ publish s a f) (acknowledge s a f)
        (acknowledge-Acked a f)
        (▸-Acked (count_frame s a f l ▸ persist_codec s a f) (publish s a f)
          (λ m. Acked-of_Keeps m (publish s a f m) (publish-Keeps a f m))
          (▸-Acked (count_frame s a f l) (persist_codec s a f)
            (λ m. Acked-of_Keeps m (persist_codec s a f m) (persist_codec-Keeps a f m))
            (Acked-of_Keeps l (count_frame s a f l) (count_frame-Keeps a f l) h)))
  dispatch-Acked a (health p) l h = Acked-of_Keeps l (on_health s a p l) (on_health-Keeps a p l) h
  dispatch-Acked a (location_update p) l h =
      Acked-of_Keeps l (on_location s a p l) (on_location-Keeps a p l) h
  dispatch-Acked a (handshake p) l h = h
  dispatch-Acked a unset l h = h

  -- Whatever messages arrive and whichever calls raise, the acknowledgements of a session rise by
  -- at least the interval each time, counting from -1, and end at most at `last_acked_seq`.
  pub serve-Acked :
      (arrivals : List (Arrival F)) (end : Option Fault) (l : Loop F)
      → Acked l
      → Acked (serve s arrivals end l).0
  unfolding serve on_message
  serve-Acked [] end l h = h
  serve-Acked (a ∷ rest) end l h =
      ▸-Acked (dispatch s a a.payload l) (serve s rest end) (serve-Acked rest end)
        (dispatch-Acked a a.payload l h)
