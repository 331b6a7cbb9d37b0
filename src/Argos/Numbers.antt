-- ===== src/Argos/Numbers.antt =====
-- The numbers that the live subscriber gives to the frames of each device.
use drone_audio_sensor.Common.{
  ℕ, ◌+◌, ◌≤◌, ◌≡◌, refl, sym, ap, ◌∙◌, inl, inr, true, false, ◌&&◌, List, [], ◌∷◌, ◌++◌, arith,
  if◌then◌else◌, Bool-cases, length, length-append, ◌<◌, ltb, Option-cases,
}
use mathlib.Core.Path.{subst}
use mathlib.Core.List.{append-nil}
use drone_audio_sensor.Common.Text.{text_eq}
use drone_audio_sensor.Argos.Live.{
  Notification, Sent, Subscriber, Handler, Event, waiting, loading, forwarding, ended, arrives,
  turn, returns, raises, numbered, begin, load, conclude, resumed, total, place_of, advance, pick,
  step, run, fresh,
}
use drone_audio_sensor.Argos.Handlers.{
  total-append, past_of, replaced, removed, pick_lem, begin-place,
}

-- 1, 2, up to `n`.
abbrev pub count_up : ℕ → List ℕ
count_up ℕ.zero = []
count_up (ℕ.suc n) = count_up n ++ (n + 1) ∷ []

abbrev pub numbers_for : List ℕ → List Sent → List ℕ
numbers_for d [] = []
numbers_for d (x ∷ xs) =
    let rest = numbers_for d xs in if text_eq x.device_id d then x.sequence ∷ rest else rest

numbers_for-append :
    (d : List ℕ) (xs ys : List Sent)
    → numbers_for d (xs ++ ys) ≡ numbers_for d xs ++ numbers_for d ys
numbers_for-append d [] ys = refl
numbers_for-append d (x ∷ xs) ys = elim (Bool-cases (text_eq x.device_id d)) [
  | inl same ↦ rw same (ap (λ ns. x.sequence ∷ ns) (numbers_for-append d xs ys))
  | inr other ↦ rw other (numbers_for-append d xs ys)
]

text_eq_sound : (a b : List ℕ) → text_eq a b ≡ true → a ≡ b
text_eq_sound [] [] h = refl
text_eq_sound [] (d ∷ b) h = absurd (cc)
text_eq_sound (c ∷ a) [] h = absurd (cc)
text_eq_sound (c ∷ a) (d ∷ b) h = ground (arith, text_eq_sound a b)

-- The frames of a device carry the numbers up to the one it has reached.
abbrev pub IsNumbered : Subscriber → Type 0
IsNumbered s = (d : List ℕ) → numbers_for d s.sent ≡ count_up (s.seq d)

count_up-next : (n : ℕ) → count_up (n + 1) ≡ count_up n ++ (n + 1) ∷ []
count_up-next n = ap count_up (let next : n + 1 ≡ ℕ.suc n = omega arith in next)

numbered-IsNumbered :
    (device_id : List ℕ) (s : Subscriber) → IsNumbered s → IsNumbered (numbered device_id s)
numbered-IsNumbered device_id s h d = elim (Bool-cases (text_eq device_id d)) [
  | inl same ↦
      let one : device_id ≡ d = text_eq_sound device_id d same in
      numbers_for-append d s.sent
        (record { device_id = device_id; sequence = s.seq device_id + 1 } ∷ [])
      ∙ rw same (
          ap (λ ns. ns ++ (s.seq device_id + 1) ∷ []) (h d ∙ ap (λ e. count_up (s.seq e)) (sym one))
          ∙ sym (count_up-next (s.seq device_id)))
  | inr other ↦
      numbers_for-append d s.sent
        (record { device_id = device_id; sequence = s.seq device_id + 1 } ∷ [])
      ∙ rw other (append-nil (numbers_for d s.sent) ∙ h d)
]

-- The numbers and the counts agree with the handlers that are under way.
abbrev pub IsSound : ℕ → Subscriber → Type 0
IsSound max_inflight s =
    IsNumbered s
    × (s.received ≡ s.forwarded + s.failed + length s.handlers)
    × (total place_of s.handlers ≤ max_inflight)
    × (length s.sent ≤ s.forwarded + s.failed + total past_of s.handlers)

loaded :
    (n : Notification) (device_id : List ℕ) (s : Subscriber)
    → (n.downloads && n.parses) ≡ true
    → load n device_id s ≡ (forwarding n.forwards, numbered device_id s)
loaded n device_id s there = rw there refl

not_loaded :
    (n : Notification) (device_id : List ℕ) (s : Subscriber)
    → (n.downloads && n.parses) ≡ false
    → load n device_id s ≡ (ended raises, s)
not_loaded n device_id s missing = rw missing refl

module _ (max_inflight : ℕ) where
  advance-IsSound :
      (before : List Handler) (h : Handler) (after : List Handler) (s : Subscriber)
      → s.handlers ≡ before ++ h ∷ after
      → IsSound max_inflight s
      → IsSound max_inflight (advance max_inflight before h after s)
  unfolding advance
  advance-IsSound before (waiting n) after s e (numbers, count, places, frames) =
      let (x, y, z) = replaced before (waiting n) (begin n) after s.handlers e in
      elim (Bool-cases (ltb (total place_of s.handlers) max_inflight)) [
        | inr full ↦ rw full (numbers, count, places, frames)
        | inl room ↦
            let free : total place_of s.handlers < max_inflight = ground arith in
            rw room (numbers, omega arith, omega (arith, begin-place n), omega arith)
      ]
  advance-IsSound before (loading n device_id) after s e (numbers, count, places, frames) =
      elim (Bool-cases (n.downloads && n.parses)) [
        | inl there ↦
            let (x, y, z) =
              replaced before (loading n device_id) (forwarding n.forwards) after s.handlers e in
            subst (λ r. IsSound max_inflight (resumed before after r))
              (sym (loaded n device_id s there))
              (
                numbered-IsNumbered device_id s numbers,
                omega arith,
                omega arith,
                omega (
                  arith,
                  length-append s.sent
                      (record { device_id = device_id; sequence = s.seq device_id + 1 } ∷ []),
                ),
              )
        | inr missing ↦
            let (x, y, z) =
              replaced before (loading n device_id) (ended raises) after s.handlers e in
            subst (λ r. IsSound max_inflight (resumed before after r))
              (sym (not_loaded n device_id s missing))
              (numbers, omega arith, omega arith, omega arith)
      ]
  advance-IsSound before (forwarding ok) after s e (numbers, count, places, frames) =
      let (x, y, z) = replaced before (forwarding ok) (conclude ok) after s.handlers e in
      (numbers, omega arith, omega arith, omega arith)
  advance-IsSound before (ended returns) after s e (numbers, count, places, frames) =
      let (x, y, z) = removed before (ended returns) after s.handlers e in
      (numbers, omega arith, omega arith, omega arith)
  advance-IsSound before (ended raises) after s e (numbers, count, places, frames) =
      let (x, y, z) = removed before (ended raises) after s.handlers e in
      (numbers, omega arith, omega arith, omega arith)

  step-IsSound :
      (e : Event) (s : Subscriber)
      → IsSound max_inflight s
      → IsSound max_inflight (step max_inflight e s)
  step-IsSound (arrives n) s (numbers, count, places, frames) = (
    numbers,
    omega (arith, length-append s.handlers (waiting n ∷ [])),
    omega (arith, total-append place_of s.handlers (waiting n ∷ [])),
    omega (arith, total-append past_of s.handlers (waiting n ∷ [])),
  )
  step-IsSound (turn i) s sound = elim (Option-cases (pick i s.handlers)) [
    | inl missing ↦ rw missing sound
    | inr ((before, h, after), there) ↦
        rw there
          (advance-IsSound before h after s (pick_lem i s.handlers before h after there) sound)
  ]

  run-keeps :
      (es : List Event) (s : Subscriber)
      → IsSound max_inflight s
      → IsSound max_inflight (run max_inflight es s)
  run-keeps [] s h = h
  run-keeps (e ∷ es) s h = run-keeps es (step max_inflight e s) (step-IsSound e s h)

  -- Over any arrivals of notifications and any interleaving of their handlers, whatever the
  -- downloads and the streams do: the frames that were handed on for a device carry the numbers 1,
  -- 2 and so on, each once and in this order; the messages received are those counted as forwarded,
  -- those counted as failed, and those whose handlers are not counted yet; at most `max_inflight`
  -- handlers hold the semaphore; and there are at most as many frames as handlers that were counted
  -- or are past the handing on.
  pub run-IsSound : (es : List Event) → IsSound max_inflight (run max_inflight es fresh)
  run-IsSound es = run-keeps es fresh (λ d. refl, refl, omega arith, omega arith)
