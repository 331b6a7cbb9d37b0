-- ===== src/Replay/Runs.antt =====
-- The runs of the labels of a clip.
use drone_audio_sensor.Common.{
  ℕ, ◌+◌, ◌≤◌, ◌<◌, ◌≡◌, ◌⊎◌, inl, inr, ◌↔◌, refl, Bool, true, false, List, [], ◌∷◌, arith,
  Bool-cases, ltb,
}
use drone_audio_sensor.Replay.Truth.{runs_from, runs}

-- The label of the second `s` holds, where the labels start at `i`.
abbrev pub HoldsFrom : ℕ → List Bool → ℕ → Type 0
HoldsFrom i [] s = ⊥
HoldsFrom i (b ∷ labels) s = ((s ≡ i) × (b ≡ true)) ⊎ HoldsFrom (i + 1) labels s

-- The second `s` lies in one of the runs.
abbrev pub Covers : List (ℕ × ℕ) → ℕ → Type 0
Covers [] s = ⊥
Covers ((a, b) ∷ rest) s = ((a ≤ s) × (s < b)) ⊎ Covers rest s

-- The runs are not empty, and between one and the next there is a second.
abbrev pub Separated : ℕ → List (ℕ × ℕ) → Type 0
Separated low [] = Unit
Separated low ((a, b) ∷ rest) = (low ≤ a) × (a < b) × Separated (b + 1) rest

-- A run that is open stands for its seconds so far.
abbrev Pending : Bool → ℕ → ℕ → ℕ → Type 0
Pending true run_start i s = (run_start ≤ s) × (s < i)
Pending false run_start i s = ⊥

-- A run that is open has a second at least.
abbrev Since : Bool → ℕ → ℕ → Type 0
Since true run_start i = run_start < i
Since false run_start i = Unit

last_second :
    (a i s : ℕ) (X : Type 0)
    → (a ≤ s) × (s < i + 1)
    → ((a ≤ s) × (s < i)) ⊎ (((s ≡ i) × (true ≡ true)) ⊎ X)
last_second a i s X (from, to) = elim (Bool-cases (ltb s i)) [
  | inl before ↦ inl (from, ground arith)
  | inr now ↦ inr (inl (ground arith, refl))
]

runs_from-Covers :
    (in_run : Bool) (run_start i : ℕ) (labels : List Bool) (s : ℕ)
    → Since in_run run_start i
    → Covers (runs_from in_run run_start i labels) s
      ↔ (Pending in_run run_start i s ⊎ HoldsFrom i labels s)
runs_from-Covers true run_start i [] s past = (λ h. h, λ h. h)
runs_from-Covers false run_start i [] s past =
    (λ h. absurd h, λ h. elim h [ inl x ↦ x | inr y ↦ y ])
runs_from-Covers true run_start i (true ∷ labels) s past =
    let (sound, complete) = runs_from-Covers true run_start (i + 1) labels s (omega arith) in
    (
      λ h. (elim (sound h) [
        | inl now ↦ last_second run_start i s (HoldsFrom (i + 1) labels s) now
        | inr later ↦ inr (inr later)
      ]),
      λ h. complete (elim h [
        | inl before ↦ inl (before.0, omega arith)
        | inr (inl (here, holds)) ↦ inl (omega arith, omega arith)
        | inr (inr later) ↦ inr later
      ]),
    )
runs_from-Covers false run_start i (true ∷ labels) s past =
    let (sound, complete) = runs_from-Covers true i (i + 1) labels s (omega arith) in
    (
      λ h.
          inr (elim (sound h) [ inl (from, to) ↦ inl (omega arith, refl) | inr later ↦ inr later ]),
      λ h. complete (elim h [
        | inl none ↦ absurd none
        | inr (inl (here, holds)) ↦ inl (omega arith, omega arith)
        | inr (inr later) ↦ inr later
      ]),
    )
runs_from-Covers true run_start i (false ∷ labels) s past =
    let (sound, complete) = runs_from-Covers false run_start (i + 1) labels s tt in
    (
      λ h. (elim h [
        | inl here ↦ inl here
        | inr later ↦ elim (sound later) [ inl x ↦ absurd x | inr y ↦ inr (inr y) ]
      ]),
      λ h. (elim h [
        | inl here ↦ inl here
        | inr (inl (at, clash)) ↦ absurd (let no : false ≡ true = clash in cc)
        | inr (inr later) ↦ inr (complete (inr later))
      ]),
    )
runs_from-Covers false run_start i (false ∷ labels) s past =
    let (sound, complete) = runs_from-Covers false run_start (i + 1) labels s tt in
    (
      λ h. (elim (sound h) [ inl x ↦ absurd x | inr y ↦ inr (inr y) ]),
      λ h. (elim h [
        | inl x ↦ absurd x
        | inr (inl (at, clash)) ↦ absurd (let no : false ≡ true = clash in cc)
        | inr (inr later) ↦ complete (inr later)
      ]),
    )

abbrev Low : Bool → ℕ → ℕ → ℕ → Type 0
Low true low run_start i = (low ≤ run_start) × (run_start < i)
Low false low run_start i = low ≤ i

runs_from-Separated :
    (in_run : Bool) (low run_start i : ℕ) (labels : List Bool)
    → Low in_run low run_start i
    → Separated low (runs_from in_run run_start i labels)
runs_from-Separated true low run_start i [] (from, to) = (from, to, tt)
runs_from-Separated false low run_start i [] h = tt
runs_from-Separated true low run_start i (true ∷ labels) (from, to) =
    runs_from-Separated true low run_start (i + 1) labels (from, omega arith)
runs_from-Separated false low run_start i (true ∷ labels) h =
    runs_from-Separated true low i (i + 1) labels (h, omega arith)
runs_from-Separated true low run_start i (false ∷ labels) (from, to) =
    (from, to, runs_from-Separated false (i + 1) run_start (i + 1) labels (omega arith))
runs_from-Separated false low run_start i (false ∷ labels) h =
    runs_from-Separated false low run_start (i + 1) labels (omega arith)

-- The runs of labels come in their order, none is empty, and between one and the next there is a
-- second; and a second lies in one of them exactly if its label holds.
pub runs_lem :
    (labels : List Bool)
    → Separated 0 (runs labels) × ((s : ℕ) → Covers (runs labels) s ↔ HoldsFrom 0 labels s)
unfolding runs
runs_lem labels = (
  runs_from-Separated false 0 0 0 labels (omega arith),
  λ s.
      let (sound, complete) = runs_from-Covers false 0 0 labels s tt in
      (λ h. (elim (sound h) [ inl x ↦ absurd x | inr y ↦ y ]), λ h. complete (inr h)),
)
