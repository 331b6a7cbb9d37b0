-- ===== src/Argos/Sent.antt =====
-- What a session of a station sends.
use drone_audio_sensor.Common.{
  ℕ, ◌+◌, ◌≡◌, refl, sym, ap, ◌∙◌, inl, inr, Bool, true, false, List, [], ◌∷◌, ◌++◌, Option, none,
  some, arith, if◌then◌else◌, Bool-cases, length,
}
use mathlib.Core.List.{append-nil, append_assoc}
use mathlib.Core.Path.{subst}
use mathlib.Core.Option.{some-injective}
use drone_audio_sensor.Argos.Locate.{ResolvedLocation, Floats, resolve, loc_changed}
use drone_audio_sensor.Argos.Bridge.{
  Clip, StationStats, Producer, Session, no_location, streamed, started, locate, send_audio,
  count_loc, on_clip, walk, opened, run_session,
}
use drone_audio_sensor.Argos.Again.{place_at, resolve-place}
use drone_audio_sensor.Argos.Heard.{
  Frame, Listener, nothing_yet, place_of, heard, frame_of, Hears, put-Hears-audio, locate-Hears,
}

module _ {F : Type 0} (fl : Floats F) (snap : Bool) (reg : Option (F × F)) where
  -- The frames of the clips up to the shutdown, numbered from `n + 1` on: each clip that has a
  -- location and audio, with its own location.
  unfoldable pub clip_frames : ℕ → List (Clip F) → List Frame
  clip_frames n [] = []
  clip_frames n (c ∷ clips) =
      let now = frame_of fl n c.audio (resolve fl snap c.now_ms c.sidecar reg) in
      let rest = clip_frames (n + length now) clips in
      if c.is_shutdown then [] else if c.is_stopped then now else now ++ rest

  -- The listener has heard these frames and the station's number is `n`.
  abbrev At : ℕ → List Frame → Producer F → Type 0
  At n fs p = Hears fl p fs × (p.sequence ≡ n)

  send_audio-At :
      (loc : ResolvedLocation F) (audio : Option (List ℕ × ℕ)) (n : ℕ) (fs : List Frame)
      (p : Producer F)
      → place_of fl p.last_loc ≡ place_of fl loc
      → At n fs p
      → At
          (n + length (frame_of fl n audio (some loc)))
          (fs ++ frame_of fl n audio (some loc))
          (send_audio fl snap reg loc audio p)
  send_audio-At loc none n fs p here (hears, count) =
      (subst (λ gs. Hears fl p gs) (sym (append-nil fs)) hears, count ∙ omega arith)
  send_audio-At loc (some (payload, rate)) n fs p here (hears, count) = (
    put-Hears-audio fl p fs (p.sequence + 1) payload rate loc.timestamp_ms hears ∙ (λ i. record {
      place = some (place_of fl p.last_loc);
      frames =
          fs
          ++ record {
            sequence = count i + 1;
            payload = payload;
            rate = rate;
            timestamp_ms = loc.timestamp_ms;
            place = some (here i);
          }
            ∷ [];
    }),
    ap (λ k. k + 1) count,
  )

  -- The first clip stands where the handshake said.
  abbrev First : Bool → Option (ResolvedLocation F) → Producer F → Type 0
  First is_first o p =
      (loc : ResolvedLocation F)
      → is_first ≡ true
      → o ≡ some loc
      → place_of fl loc ≡ place_of fl p.last_loc

  locate-sequence :
      (is_first : Bool) (loc : ResolvedLocation F) (p : Producer F)
      → (locate fl snap reg is_first loc p).sequence ≡ p.sequence
  locate-sequence true loc p = refl
  locate-sequence false loc p = elim (Bool-cases (loc_changed fl loc p.last_loc)) [
    | inl changed ↦ rw changed refl
    | inr same ↦ rw same refl
  ]

  on_clip-At :
      (is_first : Bool) (audio : Option (List ℕ × ℕ)) (o : Option (ResolvedLocation F)) (n : ℕ)
      (fs : List Frame) (p : Producer F)
      → First is_first o p
      → At n fs p
      → At
          (n + length (frame_of fl n audio o))
          (fs ++ frame_of fl n audio o)
          (on_clip fl snap reg is_first audio o p)
  on_clip-At is_first audio none n fs p first (hears, count) =
      (subst (λ gs. Hears fl p gs) (sym (append-nil fs)) hears, count ∙ omega arith)
  on_clip-At is_first audio (some loc) n fs p first (hears, count) =
      let counted = count_loc fl snap reg loc.provider p in
      let (now, here) =
        locate-Hears fl snap reg is_first loc counted fs (λ f. first loc f refl) hears in
      send_audio-At loc audio n fs (locate fl snap reg is_first loc counted) here
        (now, locate-sequence is_first loc counted ∙ count)

  not-First : (o : Option (ResolvedLocation F)) (p : Producer F) → First false o p
  not-First o p loc clash same = absurd (cc)

  abbrev FirstOf : Bool → List (Clip F) → Producer F → Type 0
  FirstOf is_first [] p = Unit
  FirstOf is_first (c ∷ clips) p = First is_first (resolve fl snap c.now_ms c.sidecar reg) p

  none-FirstOf : (clips : List (Clip F)) (p : Producer F) → FirstOf false clips p
  none-FirstOf [] p = tt
  none-FirstOf (c ∷ clips) p = not-First (resolve fl snap c.now_ms c.sidecar reg) p

  -- The listener hears the frames of the clips after what it has heard.
  walk-frames :
      (is_first : Bool) (clips : List (Clip F)) (n : ℕ) (fs : List Frame) (p : Producer F)
      → FirstOf is_first clips p
      → At n fs p
      → (heard fl (walk fl snap reg is_first clips p).queue nothing_yet).frames
        ≡ fs ++ clip_frames n clips
  unfolding clip_frames
  walk-frames is_first [] n fs p first (hears, count) =
      ap (λ (l : Listener). l.frames) hears ∙ sym (append-nil fs)
  walk-frames is_first (c ∷ clips) n fs p first at =
      let o = resolve fl snap c.now_ms c.sidecar reg in
      let new = frame_of fl n c.audio o in
      let next = on_clip-At is_first c.audio o n fs p first at in
      elim (Bool-cases c.is_shutdown) [
        | inl off ↦ rw off (ap (λ (l : Listener). l.frames) at.0 ∙ sym (append-nil fs))
        | inr on ↦ elim (Bool-cases c.is_stopped) [
          | inl stops ↦ rw (on, stops) (ap (λ (l : Listener). l.frames) next.0)
          | inr runs ↦
              rw (on, runs)
                (walk-frames false clips (n + length new) (fs ++ new)
                    (on_clip fl snap reg is_first c.audio o p)
                    (none-FirstOf clips (on_clip fl snap reg is_first c.audio o p)) next
                  ∙ append_assoc fs new (clip_frames (n + length new) clips))
        ]
      ]

  opened-At :
      (loc : ResolvedLocation F) (stats : StationStats) → At 0 [] (opened fl snap reg loc stats)
  opened-At loc stats = (refl, refl)

  -- The verdict on a session whose first clip was resolved so.
  abbrev pub Outcome : List (Clip F) → Session F → Option (ResolvedLocation F) → Type 0
  Outcome clips session none = session ≡ no_location
  Outcome clips session (some loc) =
      (p : Producer F) × (session ≡ streamed p)
      × ((heard fl p.queue nothing_yet).frames ≡ clip_frames 0 clips)

  started-frames :
      (c : Clip F) (clips : List (Clip F)) (stats : StationStats) (o : Option (ResolvedLocation F))
      → place_at fl o ≡ place_at fl (resolve fl snap c.now_ms c.sidecar reg)
      → Outcome (c ∷ clips) (started fl snap reg (c ∷ clips) stats o) o
  started-frames c clips stats none same = refl
  started-frames c clips stats (some loc) same =
      let p = opened fl snap reg loc stats in
      (
        walk fl snap reg true (c ∷ clips) p,
        refl,
        walk-frames true (c ∷ clips) 0 [] p
            (λ l first there.
              some-injective (place_of fl l) (place_of fl loc)
                (sym (same ∙ ap (place_at fl) there)))
            (opened-At loc stats),
      )

  -- A session over at least one clip, whose first one has a location, sends messages from which a
  -- listener, who keeps the last location that was sent, hears exactly the clips up to the shutdown
  -- that have a location and audio, in their order, numbered from 1, each at its own
  -- location as far as the bridge tells two apart. Where the first one has none, there is no stream.
  pub run_session-clip_frames :
      (now_ms : ℕ) (c : Clip F) (clips : List (Clip F)) (stats : StationStats)
      → Outcome
          (c ∷ clips)
          (run_session fl snap reg now_ms (c ∷ clips) stats)
          (resolve fl snap now_ms c.sidecar reg)
  unfolding run_session
  run_session-clip_frames now_ms c clips stats =
      started-frames c clips stats (resolve fl snap now_ms c.sidecar reg)
        (resolve-place fl snap now_ms c.now_ms c.sidecar reg)
