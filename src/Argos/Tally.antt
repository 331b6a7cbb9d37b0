-- ===== src/Argos/Tally.antt =====
-- The counts of a station over its sessions.
use drone_audio_sensor.Common.{
  ℕ, ◌+◌, ◌≤◌, ◌≡◌, refl, ◌∙◌, inl, inr, Bool, true, false, List, [], ◌∷◌, Option, none, some,
  arith, Bool-cases, length,
}
use drone_audio_sensor.Argos.Locate.{
  Provider, sidecar_gps, registry, ResolvedLocation, Floats, resolve, loc_changed,
}
use drone_audio_sensor.Argos.Bridge.{
  Clip, StationStats, Producer, Session, no_clips, no_location, streamed, locate, send_audio,
  count_loc, on_clip, walk, opened, started, run_session,
}

-- Every clip that was located was sent or failed.
abbrev pub IsBalanced : StationStats → Type 0
IsBalanced s = s.sidecar_loc_used + s.registry_loc_used ≡ s.clips_sent + s.clips_failed

-- The clips that were dealt with.
abbrev pub dealt : StationStats → ℕ
dealt s = s.clips_sent + s.clips_failed + s.no_loc_skipped

module _ {F : Type 0} (fl : Floats F) (snap : Bool) (reg : Option (F × F)) where
  -- How the counts grew: by at most `n` clips, and by one clip sent for each number.
  abbrev Grew : ℕ → Producer F → Producer F → Type 0
  Grew n p p' =
      (IsBalanced p.stats → IsBalanced p'.stats)
      × (dealt p'.stats ≤ dealt p.stats + n)
      × (p'.stats.clips_sent + p.sequence ≡ p.stats.clips_sent + p'.sequence)
      × (p'.stats.sessions ≡ p.stats.sessions)

  -- What the location of a clip does to the counts, before its audio.
  abbrev Located : Producer F → Producer F → Type 0
  Located p p' =
      (p'.stats.sidecar_loc_used + p'.stats.registry_loc_used
        ≡ p.stats.sidecar_loc_used + p.stats.registry_loc_used + 1)
      × (p'.stats.clips_sent ≡ p.stats.clips_sent)
      × (p'.stats.clips_failed ≡ p.stats.clips_failed)
      × (p'.stats.no_loc_skipped ≡ p.stats.no_loc_skipped)
      × (p'.sequence ≡ p.sequence)
      × (p'.stats.sessions ≡ p.stats.sessions)

  count_loc-Located : (by : Provider) (p : Producer F) → Located p (count_loc fl snap reg by p)
  count_loc-Located sidecar_gps p = (omega arith, refl, refl, refl, refl, refl)
  count_loc-Located registry p = (omega arith, refl, refl, refl, refl, refl)

  locate-Located :
      (is_first : Bool) (loc : ResolvedLocation F) (p q : Producer F)
      → Located p q
      → Located p (locate fl snap reg is_first loc q)
  locate-Located true loc p q h = h
  locate-Located false loc p q h = elim (Bool-cases (loc_changed fl loc q.last_loc)) [
    | inl changed ↦ rw changed h
    | inr same ↦ rw same h
  ]

  send_audio-Grew :
      (loc : ResolvedLocation F) (audio : Option (List ℕ × ℕ)) (p q : Producer F)
      → Located p q
      → Grew 1 p (send_audio fl snap reg loc audio q)
  send_audio-Grew loc none p q (used, sent, failed, skipped, number, sessions) =
      (λ h. omega arith, omega arith, omega arith, sessions)
  send_audio-Grew loc (some (payload, rate)) p q (used, sent, failed, skipped, number, sessions) =
      (λ h. omega arith, omega arith, omega arith, sessions)

  on_clip-Grew :
      (is_first : Bool) (audio : Option (List ℕ × ℕ)) (o : Option (ResolvedLocation F))
      (p : Producer F)
      → Grew 1 p (on_clip fl snap reg is_first audio o p)
  on_clip-Grew is_first audio none p = (λ h. h, omega arith, refl, refl)
  on_clip-Grew is_first audio (some loc) p =
      let counted = count_loc fl snap reg loc.provider p in
      send_audio-Grew loc audio p (locate fl snap reg is_first loc counted)
        (locate-Located is_first loc p counted (count_loc-Located loc.provider p))

  Grew-more : (m n : ℕ) (p q r : Producer F) → Grew m p q → Grew n q r → Grew (m + n) p r
  Grew-more m n p q r (keeps, dealt, sent, same) (keeps', dealt', sent', same') =
      (λ h. keeps' (keeps h), omega arith, omega arith, same' ∙ same)

  Grew-within : (m n : ℕ) (p q : Producer F) → m ≤ n → Grew m p q → Grew n p q
  Grew-within m n p q h (keeps, dealt, sent, same) = (keeps, omega arith, sent, same)

  walk-Grew :
      (is_first : Bool) (clips : List (Clip F)) (p : Producer F)
      → Grew (length clips) p (walk fl snap reg is_first clips p)
  walk-Grew is_first [] p = (λ h. h, omega arith, refl, refl)
  walk-Grew is_first (c ∷ clips) p =
      let o = resolve fl snap c.now_ms c.sidecar reg in
      let next = on_clip fl snap reg is_first c.audio o p in
      let one = on_clip-Grew is_first c.audio o p in
      elim (Bool-cases c.is_shutdown) [
        | inl off ↦ rw off (λ h. h, omega arith, refl, refl)
        | inr on ↦ elim (Bool-cases c.is_stopped) [
          | inl stops ↦ rw (on, stops) (Grew-within 1 (length (c ∷ clips)) p next (omega arith) one)
          | inr runs ↦
              rw (on, runs)
                (Grew-within (1 + length clips) (length (c ∷ clips)) p
                  (walk fl snap reg false clips next) (omega arith)
                  (Grew-more 1 (length clips) p next (walk fl snap reg false clips next) one
                    (walk-Grew false clips next)))
        ]
      ]

  abbrev pub Tallied : List (Clip F) → StationStats → Session F → Type 0
  Tallied clips stats no_clips = Unit
  Tallied clips stats no_location = Unit
  Tallied clips stats (streamed p) =
      IsBalanced p.stats
      × (dealt p.stats ≤ dealt stats + length clips)
      × (p.stats.clips_sent ≡ stats.clips_sent + p.sequence)
      × (p.stats.sessions ≡ stats.sessions + 1)

  started-Tallied :
      (clips : List (Clip F)) (stats : StationStats) (o : Option (ResolvedLocation F))
      → IsBalanced stats
      → Tallied clips stats (started fl snap reg clips stats o)
  started-Tallied clips stats none h = tt
  started-Tallied clips stats (some loc) h =
      let (keeps, dealt, sent, same) = walk-Grew true clips (opened fl snap reg loc stats) in
      (keeps h, dealt, omega arith, same)

  -- Where the clips that a station located are those that it sent or that failed, this holds after a
  -- session too; with a stream, the session is counted, at most its clips were dealt with, and the
  -- clips sent grew by the last sequence number.
  pub run_session-IsBalanced :
      (now_ms : ℕ) (clips : List (Clip F)) (stats : StationStats)
      → IsBalanced stats
      → Tallied clips stats (run_session fl snap reg now_ms clips stats)
  unfolding run_session
  run_session-IsBalanced now_ms [] stats h = tt
  run_session-IsBalanced now_ms (c ∷ clips) stats h =
      started-Tallied (c ∷ clips) stats (resolve fl snap now_ms c.sidecar reg) h
