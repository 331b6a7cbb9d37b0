-- ===== src/Replay/Collector.antt =====
-- `detection_collector` of scripts/replay_fleet.py: the detections that it attributes to the
-- stations of the test, poll by poll. What a query returns is an input, and none where it raises; `F`
-- is the type of floats.
use drone_audio_sensor.Common.{
  ℕ, ◌≤◌, ◌≡◌, refl, ap, ◌∙◌, ◌⊎◌, inl, inr, Bool, true, false, not, List, [], ◌∷◌, ◌++◌, Option,
  none, some, String, arith, All, if◌then◌else◌, str_eq, leb, ltb, Bool-cases, get_or,
}
use mathlib.Core.Path.{subst}

-- A document of the collection `detections`; a missing key is none.
pub record Doc (F : Type 0) : Type 0 where
  pub published_at_ms : Option ℕ
  pub device_id : Option String
  pub peak_score : Option F
  pub category : Option String
  pub subtype_label : Option String

pub record DetectionEvent (F : Type 0) : Type 0 where
  pub device_id : String
  pub published_at_ms : ℕ
  pub peak_score : F
  pub category : String
  pub subtype_label : String

-- What the collector keeps: the time of its last event, and the events of each station.
pub record Collector (F : Type 0) : Type 0 where
  pub last_published_ms : ℕ
  pub detections : String → List (DetectionEvent F)

module _ {F : Type 0} (zero : F) (is_station : String → Bool) where
  abbrev pub published : Doc F → ℕ
  published d = get_or d.published_at_ms 0

  abbrev pub device : Doc F → String
  device d = get_or d.device_id ""

  abbrev pub event : Doc F → DetectionEvent F
  event d = record {
    device_id = device d;
    published_at_ms = published d;
    peak_score = get_or d.peak_score zero;
    category = get_or d.category "";
    subtype_label = get_or d.subtype_label "";
  }

  abbrev pub is_skipped : ℕ → Doc F → Bool
  is_skipped last d = if leb (published d) last then true else not (is_station (device d))

  unfoldable pub new_events : ℕ → List (Doc F) → List (DetectionEvent F)
  new_events last [] = []
  new_events last (d ∷ docs) =
      let rest = new_events last docs in if is_skipped last d then rest else event d ∷ rest

  -- `new_max_ms` after the documents.
  abbrev pub larger : ℕ → ℕ → ℕ
  larger a b = if ltb a b then b else a

  unfoldable pub newest : ℕ → ℕ → List (Doc F) → ℕ
  newest last new_max [] = new_max
  newest last new_max (d ∷ docs) =
      newest last (if is_skipped last d then new_max else larger new_max (published d)) docs

  abbrev pub attribute :
      List (DetectionEvent F)
      → (String → List (DetectionEvent F))
      → String
      → List (DetectionEvent F)
  attribute [] m = m
  attribute (e ∷ events) m =
      attribute events (λ id. if str_eq e.device_id id then m id ++ e ∷ [] else m id)

  -- One turn of the loop.
  unfoldable pub poll : Option (List (Doc F)) → Collector F → Collector F
  poll none c = c
  poll (some docs) c = record {
    last_published_ms = newest c.last_published_ms c.last_published_ms docs;
    detections = attribute (new_events c.last_published_ms docs) c.detections;
  }

  abbrev pub polls : List (Option (List (Doc F))) → Collector F → Collector F
  polls [] c = c
  polls (answer ∷ answers) c = polls answers (poll answer c)

  newest-le : (last new_max : ℕ) (docs : List (Doc F)) → new_max ≤ newest last new_max docs
  unfolding newest
  newest-le last new_max [] = omega arith
  newest-le last new_max (d ∷ docs) = elim (Bool-cases (is_skipped last d)) [
    | inl skipped ↦ rw skipped (newest-le last new_max docs)
    | inr counted ↦ rw counted (
        let step : new_max ≤ larger new_max (published d) = ground arith in
        omega (arith, newest-le last (larger new_max (published d)) docs))
  ]

  -- The document was in the list.
  abbrev pub Seen : List (Doc F) → Doc F → Type 0
  Seen [] d = ⊥
  Seen (x ∷ docs) d = (x ≡ d) ⊎ Seen docs d

  counted-le :
      (last new_max : ℕ) (docs : List (Doc F)) (d : Doc F)
      → Seen docs d
      → is_skipped last d ≡ false
      → published d ≤ newest last new_max docs
  unfolding newest
  counted-le last new_max [] d seen counted = absurd seen
  counted-le last new_max (x ∷ docs) d (inl same) counted =
      let here : is_skipped last x ≡ false = ap (is_skipped last) same ∙ counted in
      rw here (
        let step : published x ≤ larger new_max (published x) = ground arith in
        subst (λ y. published y ≤ newest last (larger new_max (published x)) docs) same
          (omega (arith, newest-le last (larger new_max (published x)) docs)))
  counted-le last new_max (x ∷ docs) d (inr later) counted =
      counted-le last (if is_skipped last x then new_max else larger new_max (published x)) docs d
        later counted

  kept_skipped :
      (p a b : ℕ) (n : Bool)
      → a ≤ b
      → (if leb p a then true else n) ≡ true
      → (if leb p b then true else n) ≡ true
  kept_skipped p a b n h k = ground arith

  by_time : (p a : ℕ) (n : Bool) → p ≤ a → (if leb p a then true else n) ≡ true
  by_time p a n h = ground arith

  Seen-skipped :
      (last new_max later : ℕ) (docs : List (Doc F)) (d : Doc F)
      → last ≤ new_max
      → newest last new_max docs ≤ later
      → Seen docs d
      → is_skipped later d ≡ true
  Seen-skipped last new_max later docs d start bound seen = elim (Bool-cases (is_skipped last d)) [
    | inl skipped ↦
        kept_skipped (published d) last later (not (is_station (device d)))
          (omega (arith, newest-le last new_max docs)) skipped
    | inr counted ↦
        by_time (published d) later (not (is_station (device d)))
          (omega (arith, counted-le last new_max docs d seen counted))
  ]

  all_skipped :
      (last new_max later : ℕ) (docs docs' : List (Doc F))
      → last ≤ new_max
      → newest last new_max docs ≤ later
      → All (Seen docs) docs'
      → (new_events later docs' ≡ []) × ((m : ℕ) → newest later m docs' ≡ m)
  unfolding new_events newest
  all_skipped last new_max later docs [] start bound seen = (refl, λ m. refl)
  all_skipped last new_max later docs (d ∷ docs') start bound (first, rest) =
      let skipped = Seen-skipped last new_max later docs d start bound first in
      let (none_new, same) = all_skipped last new_max later docs docs' start bound rest in
      (rw skipped none_new, λ m. rw skipped (same m))

  poll-le :
      (answer : Option (List (Doc F))) (c : Collector F)
      → c.last_published_ms ≤ (poll answer c).last_published_ms
  unfolding poll
  poll-le none c = omega arith
  poll-le (some docs) c = newest-le c.last_published_ms c.last_published_ms docs

  polls-le :
      (answers : List (Option (List (Doc F)))) (c : Collector F)
      → c.last_published_ms ≤ (polls answers c).last_published_ms
  polls-le [] c = omega arith
  polls-le (answer ∷ answers) c = omega (arith, poll-le answer c, polls-le answers (poll answer c))

  -- What a poll has returned is never counted again: after it and any further polls, a query that
  -- returns none but its documents changes nothing.
  pub poll_again :
      (docs docs' : List (Doc F)) (answers : List (Option (List (Doc F)))) (c : Collector F)
      → All (Seen docs) docs'
      → poll (some docs') (polls answers (poll (some docs) c)) ≡ polls answers (poll (some docs) c)
  unfolding poll
  poll_again docs docs' answers c seen =
      let now = polls answers (poll (some docs) c) in
      let (none_new, same) =
        all_skipped c.last_published_ms c.last_published_ms now.last_published_ms docs docs'
          (omega arith) (polls-le answers (poll (some docs) c)) seen in
      λ i. record {
        last_published_ms = same now.last_published_ms i;
        detections = attribute (none_new i) now.detections;
      }
