-- ===== src/Replay/Clip.antt =====
-- `PlaybackClock.slice` of scripts/replay_fleet.py, from the index at which the clip stands. The
-- loop that goes around the clip runs on fuel.
use drone_audio_sensor.Common.{
  ℕ, ◌+◌, ◌-◌, ◌%◌, ◌≤◌, ◌<◌, ◌≡◌, refl, ap, ◌∙◌, inl, inr, List, [], ◌∷◌, ◌++◌, arith,
  if◌then◌else◌, Bool-cases, leb, ltb, leb→le, length, take, length-append,
}
use drone_audio_sensor.Common.Places.{At, At-append}
use mathlib.Core.Path.{subst}
use native.Mathlib.Nat.{mod-eq_of_lt, mod-eq-sub-mod}

module _ {A : Type 0} where
  -- `audio[n:]`.
  abbrev pub drop : ℕ → List A → List A
  drop ℕ.zero xs = xs
  drop (ℕ.suc n) [] = []
  drop (ℕ.suc n) (x ∷ xs) = drop n xs

  -- The loop for the samples that are still needed, and what follows it.
  unfoldable pub refill : ℕ → List A → ℕ → List A
  refill ℕ.zero audio needed = []
  refill (ℕ.suc fuel) audio needed =
      let rest = refill fuel audio (needed - length audio) in
      if leb (length audio) needed then audio ++ rest else take needed audio

  -- `slice`.
  unfoldable pub slice : ℕ → List A → ℕ → ℕ → List A
  slice fuel audio start n =
      if leb (start + n) (length audio)
      then take n (drop start audio)
      else drop start audio ++ refill fuel audio (n - length (drop start audio))

  length-take : (n : ℕ) (xs : List A) → n ≤ length xs → length (take n xs) ≡ n
  length-take ℕ.zero xs h = refl
  length-take (ℕ.suc n) [] h = absurd (omega arith)
  length-take (ℕ.suc n) (x ∷ xs) h = omega (arith, length-take n xs (omega arith))

  pub length-drop : (n : ℕ) (xs : List A) → length (drop n xs) ≡ length xs - n
  length-drop ℕ.zero xs = omega arith
  length-drop (ℕ.suc n) [] = omega arith
  length-drop (ℕ.suc n) (x ∷ xs) = omega (arith, length-drop n xs)

  At-take : (n : ℕ) (xs : List A) (i : ℕ) (x : A) → i < n → At xs i x → At (take n xs) i x
  At-take ℕ.zero xs i x h k = absurd (omega arith)
  At-take (ℕ.suc n) [] i x h k = absurd k
  At-take (ℕ.suc n) (y ∷ xs) ℕ.zero x h k = k
  At-take (ℕ.suc n) (y ∷ xs) (ℕ.suc i) x h k = At-take n xs i x (omega arith) k

  At-drop : (n : ℕ) (xs : List A) (i j : ℕ) (x : A) → j ≡ n + i → At xs j x → At (drop n xs) i x
  At-drop ℕ.zero xs i j x h k = subst (λ m. At xs m x) (let same : j ≡ i = omega arith in same) k
  At-drop (ℕ.suc n) [] i j x h k = absurd k
  At-drop (ℕ.suc n) (y ∷ xs) i ℕ.zero x h k = absurd (omega arith)
  At-drop (ℕ.suc n) (y ∷ xs) i (ℕ.suc j) x h k = At-drop n xs i j x (omega arith) k

  At-after : (xs ys : List A) (i j : ℕ) (x : A) → j ≡ length xs + i → At ys i x → At (xs ++ ys) j x
  At-after [] ys i j x h k = subst (λ m. At ys m x) (let same : i ≡ j = omega arith in same) k
  At-after (y ∷ xs) ys i ℕ.zero x h k = absurd (omega arith)
  At-after (y ∷ xs) ys i (ℕ.suc j) x h k = At-after xs ys i j x (omega arith) k

  refill-length :
      (fuel : ℕ) (audio : List A) (needed : ℕ)
      → 0 < length audio
      → needed < fuel
      → length (refill fuel audio needed) ≡ needed
  unfolding refill
  refill-length ℕ.zero audio needed some_there enough = absurd (omega arith)
  refill-length (ℕ.suc fuel) audio needed some_there enough =
      elim (Bool-cases (leb (length audio) needed)) [
        | inl more ↦ rw more (
            let fits = leb→le (length audio) needed more in
            omega (
              arith,
              length-append audio (refill fuel audio (needed - length audio)),
              refill-length fuel audio (needed - length audio) some_there (omega arith),
            ))
        | inr last ↦ rw last (length-take needed audio (ground arith))
      ]

  refill-At :
      (fuel : ℕ) (audio : List A) (needed i : ℕ) (x : A)
      → 0 < length audio
      → needed < fuel
      → i < needed
      → At audio (i % length audio) x
      → At (refill fuel audio needed) i x
  unfolding refill
  refill-At ℕ.zero audio needed i x some_there enough inside h = absurd (omega arith)
  refill-At (ℕ.suc fuel) audio needed i x some_there enough inside h =
      let total = length audio in
      let rest = refill fuel audio (needed - total) in
      elim (Bool-cases (leb total needed)) [
        | inr last ↦ rw last (
            let short : i < total = ground arith in
            At-take needed audio i x inside (subst (λ m. At audio m x) (mod-eq_of_lt short) h))
        | inl more ↦ rw more (elim (Bool-cases (ltb i total)) [
          | inl early ↦
              let short : i < total = ground arith in
              At-append audio rest i x (subst (λ m. At audio m x) (mod-eq_of_lt short) h)
          | inr late ↦
              let long : total ≤ i = ground arith in
              let fits = leb→le total needed more in
              At-after audio rest (i - total) i x (omega arith) (
                refill-At fuel audio (needed - total) (i - total) x some_there (omega arith)
                  (omega arith) (subst (λ m. At audio m x) (mod-eq-sub-mod long) h))
        ])
      ]

  -- The samples that the clip, played over and over, has from the index `start` on.
  abbrev pub Loops : List A → ℕ → ℕ → List A → Type 0
  Loops audio start n out =
      (length out ≡ n)
      × ((i : ℕ) (x : A) → i < n → At audio ((start + i) % length audio) x → At out i x)

  wrapped-At :
      (fuel : ℕ) (audio : List A) (start n i : ℕ) (x : A)
      → 0 < length audio
      → start ≤ length audio
      → n < fuel
      → length audio < start + n
      → i < n
      → At audio ((start + i) % length audio) x
      → At (drop start audio ++ refill fuel audio (n - length (drop start audio))) i x
  wrapped-At fuel audio start n i x some_there starts enough past inside h =
      let total = length audio in
      let front = drop start audio in
      let front_length = length-drop start audio in
      let rest = refill fuel audio (n - length front) in
      elim (Bool-cases (ltb i (length front))) [
        | inl early ↦
            let before : i < length front = ground arith in
            At-append front rest i x (
              At-drop start audio i (start + i) x refl (
                subst (λ m. At audio m x)
                  (let short : start + i < total = omega arith in mod-eq_of_lt short) h))
        | inr late ↦
            let behind : length front ≤ i = ground arith in
            let round : total ≤ start + i = omega arith in
            At-after front rest (i - length front) i x (omega arith) (
              refill-At fuel audio (n - length front) (i - length front) x some_there (omega arith)
                (omega arith)
                (subst (λ m. At audio m x)
                  (mod-eq-sub-mod round
                    ∙ ap (λ k. k % total)
                        (let same : start + i - total ≡ i - length front = omega arith in same))
                  h))
      ]

  -- A slice of `n` samples of a clip that is not empty, from an index in the clip on, comes to an
  -- end within `n + 1` rounds, has exactly `n` samples, and its sample `i` is the clip's sample
  -- `start + i`, taken round the clip's length.
  pub slice_lem :
      (fuel : ℕ) (audio : List A) (start n : ℕ)
      → 0 < length audio
      → start ≤ length audio
      → n < fuel
      → Loops audio start n (slice fuel audio start n)
  unfolding slice
  slice_lem fuel audio start n some_there starts enough =
      let total = length audio in
      let front = drop start audio in
      let front_length = length-drop start audio in
      elim (Bool-cases (leb (start + n) total)) [
        | inl fits ↦
            let bound = leb→le (start + n) total fits in
            rw fits (
              length-take n front (omega arith),
              λ i x inside h. At-take n front i x inside (
                  At-drop start audio i (start + i) x refl (
                    subst (λ m. At audio m x)
                      (let short : start + i < total = omega arith in mod-eq_of_lt short) h)),
            )
        | inr wraps ↦
            let past : total < start + n = ground arith in
            let needed = n - length front in
            let rest = refill fuel audio needed in
            rw wraps (
              omega (
                arith,
                length-append front rest,
                refill-length fuel audio needed some_there (omega arith),
              ),
              λ i x inside h.
                  wrapped-At fuel audio start n i x some_there starts enough past inside h,
            )
      ]
