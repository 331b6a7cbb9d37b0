-- ===== src/AudioReceiver/Flush.antt =====
-- What a flush and a sweep do to the document of a run.
use drone_audio_sensor.Common.{
  ℕ, ◌+◌, ◌≤◌, ◌≡◌, refl, ap, sym, ◌∙◌, Bool, true, false, List, [], ◌∷◌, Option, none, some,
  String, arith, str_eq, str_eq_refl, str_eq_iff, Bool-cases, inl, inr, ltb, ◌==◌,
}
use mathlib.Core.Option.{some-injective}
use drone_audio_sensor.Gateway.Store.{Table, write}
use drone_audio_sensor.AudioReceiver.Sink.{
  Counter, RunDoc, Answers, bumped, update_doc, bump_max, incremented, or_kept, after_bump, push,
  closed, is_stale, sweep,
}

-- Exactly as much, or at most as much.
abbrev pub Within : Bool → ℕ → ℕ → Type 0
Within true x y = x ≡ y
Within false x y = x ≤ y

pub Within-eq : (b : Bool) (x y : ℕ) → x ≡ y → Within b x y
Within-eq true x y h = h
Within-eq false x y h = omega arith

-- Where exactness is asked for, Firestore takes both writes of the flush.
abbrev pub Answering : Bool → Answers → Type 0
Answering b a = (b ≡ true) → (a.bumps ≡ true) × (a.updates ≡ true)

-- The document of the tag is there, and its counts are these.
abbrev pub Holds : String → (Counter → ℕ) → Table RunDoc → Type 0
Holds tag c m = (d : RunDoc) × (m tag ≡ some d) × ((k : Counter) → d.count k ≡ c k)

abbrev HoldsIf : String → (Counter → ℕ) → Option (Table RunDoc) → Type 0
HoldsIf tag c none = Unit
HoldsIf tag c (some m) = Holds tag c m

-- An update of any document that leaves the counts alone.
update_doc-Holds :
    (returns : Bool) (t tag : String) (f : RunDoc → RunDoc) (m : Table RunDoc) (o : Option RunDoc)
    (c : Counter → ℕ)
    → ((d : RunDoc) (k : Counter) → (f d).count k ≡ d.count k)
    → m t ≡ o
    → Holds tag c m
    → HoldsIf tag c (update_doc returns t f m o)
update_doc-Holds returns t tag f m none c keeps at holds = tt
update_doc-Holds false t tag f m (some e) c keeps at holds = tt
update_doc-Holds true t tag f m (some e) c keeps at (d, there, counts) =
    elim (Bool-cases (str_eq t tag)) [
      | inr other ↦ (d, rw other there, counts)
      | inl same ↦
          let one : t ≡ tag = (str_eq_iff t tag).0 same in
          let doc : e ≡ d = some-injective e d (sym at ∙ ap m one ∙ there) in
          (f e, rw same refl, λ k. keeps e k ∙ ap (λ (x : RunDoc). x.count k) doc ∙ counts k)
    ]

bumped-count : (most : ℕ) (d : RunDoc) (k : Counter) → (bumped most d).count k ≡ d.count k
bumped-count most d k = elim (Bool-cases (ltb d.max_single_frame_bytes most)) [
  | inl more ↦ rw more refl
  | inr less ↦ rw less refl
]

-- A sweep closes runs, and counts nothing.
pub sweep-Holds :
    (cutoff now : ℕ) (runs : List (String × RunDoc × Bool)) (tag : String) (c : Counter → ℕ)
    (m : Table RunDoc)
    → Holds tag c m
    → Holds tag c (sweep cutoff now runs m)
sweep-Holds cutoff now [] tag c m holds = holds
sweep-Holds cutoff now ((t, d, returns) ∷ rest) tag c m holds =
    elim (Bool-cases (is_stale cutoff d.last_updated_at)) [
      | inr young ↦ rw young (sweep-Holds cutoff now rest tag c m holds)
      | inl old ↦ rw old (
          (elim (update_doc returns t (closed now) m (m t))
              as (λ o.
                HoldsIf tag c o
                → Holds tag c (elim o [ none ↦ m | some m' ↦ sweep cutoff now rest m' ])) [
                  | none ↦ λ nothing. holds
                  | some m' ↦ λ kept. sweep-Holds cutoff now rest tag c m' kept
                ])
            (update_doc-Holds returns t tag (closed now) m (m t) c (λ e k. refl) refl holds))
    ]

-- What a flush leaves: the counts and the deltas together, or less where a write may fail.
abbrev pub Pushed : Bool → String → (Counter → ℕ) → (Counter → ℕ) → Table RunDoc → Type 0
Pushed b tag c deltas m =
    (d : RunDoc) × (m tag ≡ some d) × ((k : Counter) → Within b (d.count k) (c k + deltas k))

unpushed :
    (tag : String) (c deltas : Counter → ℕ) (m : Table RunDoc)
    → Holds tag c m
    → Pushed false tag c deltas m
unpushed tag c deltas m (d, there, counts) = (d, there, λ k. let same = counts k in omega arith)

module _ (deltas c : Counter → ℕ) (closes : Bool) (tag : String) where
  -- The second write of a flush.
  updated :
      (b returns : Bool) (now : ℕ) (m : Table RunDoc)
      → ((b ≡ true) → returns ≡ true)
      → Holds tag c m
      → Pushed b tag c deltas
          (or_kept m (update_doc returns tag (incremented deltas closes now) m (m tag)))
  updated b true now m good (d, there, counts) = (
    incremented deltas closes now d,
    rw there (rw (str_eq_refl tag) refl),
    λ k. Within-eq b (d.count k + deltas k) (c k + deltas k) (ap (λ n. n + deltas k) (counts k)),
  )
  updated false false now m good (d, there, counts) =
      rw there (d, there, λ k. let same = counts k in omega arith)
  updated true false now m good holds = absurd (let clash : false ≡ true = good refl in cc)

  -- The flush from its first write on.
  after_bump-Pushed :
      (b : Bool) (a : Answers) (m : Table RunDoc) (o : Option (Table RunDoc))
      → Answering b a
      → ((o ≡ none) → b ≡ false)
      → Holds tag c m
      → HoldsIf tag c o
      → Pushed b tag c deltas (after_bump deltas closes a tag m o)
  after_bump-Pushed b a m (some m') good failed holds bumped' =
      updated b a.updates a.server_time m' (λ h. (good h).1) bumped'
  after_bump-Pushed b a m none good failed holds nothing =
      rw (failed refl) (unpushed tag c deltas m holds)

  bump_fails :
      (b returns : Bool) (most : ℕ) (m : Table RunDoc)
      → ((b ≡ true) → returns ≡ true)
      → Holds tag c m
      → bump_max returns tag most m ≡ none
      → b ≡ false
  bump_fails false returns most m good holds h = refl
  bump_fails true returns most m good (d, there, counts) h = elim (Bool-cases (most == 0)) [
    | inl zero ↦ absurd (let clash : some m ≡ none = (rw zero refl) ∙ h in cc)
    | inr more ↦ absurd (
        let clash : some (write m tag (bumped most d)) ≡ none =
          sym (rw more (rw (there, good refl) refl)) ∙ h in
        cc)
  ]

  bump_max-Holds :
      (returns : Bool) (most : ℕ) (m : Table RunDoc)
      → Holds tag c m
      → HoldsIf tag c (bump_max returns tag most m)
  bump_max-Holds returns most m holds = elim (Bool-cases (most == 0)) [
    | inl zero ↦ rw zero holds
    | inr more ↦
        rw more (
          update_doc-Holds returns tag tag (bumped most) m (m tag) c (bumped-count most) refl holds)
  ]

  pub push-Pushed :
      (b : Bool) (most : ℕ) (a : Answers) (m : Table RunDoc)
      → Answering b a
      → Holds tag c m
      → Pushed b tag c deltas (push deltas most closes a tag m)
  unfolding push
  push-Pushed b most a m good holds =
      after_bump-Pushed b a m (bump_max a.bumps tag most m) good
        (bump_fails b a.bumps most m (λ h. (good h).0) holds) holds
        (bump_max-Holds a.bumps most m holds)
