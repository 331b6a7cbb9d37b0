-- ===== src/Gateway/Session/Frames.antt =====
-- The frames that a session forwards to inference, and what it counts.
use drone_audio_sensor.Common.{
  ◌+◌, ◌≡◌, refl, true, false, List, [], ◌∷◌, ◌++◌, Option, none, arith, length, length-append, map,
}
use mathlib.Core.List.{append_assoc, append-nil, map-append}
use mathlib.Core.Path.{subst, sym}
use drone_audio_sensor.Gateway.Store.{
  AudioFrame, Payload, audio_frame, handshake, health, location_update, unset,
}
use drone_audio_sensor.Gateway.HotState.{entry}
use drone_audio_sensor.Gateway.Session.{
  Fault, Arrival, Session, Loop, Outcome, ◌▸◌, dispatch, on_message, serve,
}

module _ {F : Type 0} where
  abbrev audio_of : Payload F → List AudioFrame → List AudioFrame
  audio_of (audio_frame f) rest = f ∷ rest
  audio_of (handshake h) rest = rest
  audio_of (health h) rest = rest
  audio_of (location_update l) rest = rest
  audio_of unset rest = rest

  -- The audio frames among the messages, in order.
  abbrev pub audio_frames : List (Arrival F) → List AudioFrame
  audio_frames [] = []
  audio_frames (a ∷ rest) = audio_of a.payload (audio_frames rest)

  -- No call raises.
  abbrev pub IsQuiet : List (Arrival F) → Type 0
  IsQuiet [] = Unit
  IsQuiet (a ∷ rest) = (a.raises ≡ none) × IsQuiet rest

  module _ (s : Session) where
    dispatch_muted :
        (a : Arrival F) (p : Payload F) (l : Loop F)
        → s.publish_audio ≡ false
        → (dispatch s a p l).0.world.frames ≡ l.world.frames
    unfolding dispatch
    dispatch_muted a (audio_frame f) l m = ground arith
    dispatch_muted a (handshake f) l m = refl
    dispatch_muted a (health f) l m = ground arith
    dispatch_muted a (location_update f) l m = ground arith
    dispatch_muted a unset l m = refl

    -- A session that may not publish adds nothing to the frame stream, whatever arrives.
    pub serve_muted :
        (arrivals : List (Arrival F)) (end : Option Fault) (l : Loop F)
        → s.publish_audio ≡ false
        → (serve s arrivals end l).0.world.frames ≡ l.world.frames
    unfolding serve on_message
    serve_muted [] end l m = refl
    serve_muted (a ∷ rest) end l m =
        ground (
          arith,
          dispatch_muted a a.payload l m,
          serve_muted rest end (dispatch s a a.payload l).0 m,
        )

    -- What one message that raises nothing does to the frame stream and to the count.
    abbrev Forwards : List AudioFrame → Loop F → Outcome F → Type 0
    Forwards fs l o =
        (o.0.world.frames ≡ l.world.frames ++ map (entry s.device_id s.session_id s.site_label) fs)
        × (o.0.frames_received ≡ l.frames_received + length fs)

    dispatch-Forwards :
        (a : Arrival F) (p : Payload F) (l : Loop F)
        → s.publish_audio ≡ true
        → a.raises ≡ none
        → Forwards (audio_of p []) l (dispatch s a p l) × ((dispatch s a p l).1 ≡ none)
    unfolding dispatch
    dispatch-Forwards a (audio_frame f) l m q = (ground arith, ground arith)
    dispatch-Forwards a (handshake f) l m q = ((rw append-nil, omega arith), refl)
    dispatch-Forwards a (health f) l m q = (ground (arith, append-nil l.world.frames), ground arith)
    dispatch-Forwards a (location_update f) l m q =
        (ground (arith, append-nil l.world.frames), ground arith)
    dispatch-Forwards a unset l m q = ((rw append-nil, omega arith), refl)

    Forwards-then :
        (fs gs : List AudioFrame) (l : Loop F) (o o' : Outcome F)
        → Forwards fs l o
        → Forwards gs o.0 o'
        → Forwards (fs ++ gs) l o'
    Forwards-then fs gs l o o' h k =
        (simp (k.0, h.0, map-append, append_assoc), omega (arith, h.1, k.1, length-append fs gs))

    audio_of-append :
        (p : Payload F) (rest : List AudioFrame) → audio_of p rest ≡ audio_of p [] ++ rest
    audio_of-append (audio_frame f) rest = refl
    audio_of-append (handshake f) rest = refl
    audio_of-append (health f) rest = refl
    audio_of-append (location_update f) rest = refl
    audio_of-append unset rest = refl

    -- A session that may publish, in which no call raises, forwards every audio frame that it
    -- receives, in order and unchanged, counts each, and ends as the stream ends.
    pub serve-Forwards :
        (arrivals : List (Arrival F)) (end : Option Fault) (l : Loop F)
        → s.publish_audio ≡ true
        → IsQuiet arrivals
        → Forwards (audio_frames arrivals) l (serve s arrivals end l)
          × ((serve s arrivals end l).1 ≡ end)
    unfolding serve on_message
    serve-Forwards [] end l m q = ((rw append-nil, omega arith), refl)
    serve-Forwards (a ∷ rest) end l m q =
        let o = dispatch s a a.payload l in
        let (first, calm) = dispatch-Forwards a a.payload l m q.0 in
        let (later, ended) = serve-Forwards rest end o.0 m q.1 in
        rw (audio_of-append a.payload (audio_frames rest)) (
          subst
            (λ (e : Option Fault).
              let o' = (o.0, e) ▸ serve s rest end in
              Forwards (audio_of a.payload [] ++ audio_frames rest) l o' × (o'.1 ≡ end))
            (sym calm)
            (
              Forwards-then (audio_of a.payload []) (audio_frames rest) l o (serve s rest end o.0)
                  first later,
              ended,
            ))
