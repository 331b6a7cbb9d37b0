-- ===== src/Inference/Memory/Buffer.antt =====
-- The score buffer of a device, as the history of its scores determines it.
use drone_audio_sensor.Common.{
  ℕ, ◌+◌, ◌≤◌, ◌<◌, ◌≡◌, refl, ap, sym, ◌∙◌, false, List, [], ◌∷◌, none, some, String, arith,
  if◌then◌else◌, str_eq_refl, lt→ltb, ◌==◌, take, map,
}
use drone_audio_sensor.Inference.Gate.{Entry, Settings}
use drone_audio_sensor.Inference.Memory.{
  Redis, live, or_empty, ltrim, append_score, mark_suppressed,
}

take-shorter : {A : Type 0} (n : ℕ) (xs : List A) → take n (take (ℕ.suc n) xs) ≡ take n xs
take-shorter ℕ.zero xs = refl
take-shorter (ℕ.suc n) [] = refl
take-shorter (ℕ.suc n) (x ∷ xs) = ap (λ ys. x ∷ ys) (take-shorter n xs)

suc_not_zero : (n : ℕ) → (ℕ.suc n == 0) ≡ false
suc_not_zero n = ground arith

ltrim-take :
    {A : Type 0} (n : ℕ) (x : A) (xs : List A) → 1 ≤ n → ltrim n (x ∷ take n xs) ≡ take n (x ∷ xs)
ltrim-take ℕ.zero x xs k = absurd (omega arith)
ltrim-take (ℕ.suc n) x xs k = rw (suc_not_zero n) (ap (λ ys. x ∷ ys) (take-shorter n xs))

take_nil : {A : Type 0} (n : ℕ) → take {A = A} n [] ≡ []
take_nil ℕ.zero = refl
take_nil (ℕ.suc n) = refl

ltrim_single : {A : Type 0} (n : ℕ) (x : A) → ltrim n (x ∷ []) ≡ x ∷ []
ltrim_single ℕ.zero x = refl
ltrim_single (ℕ.suc n) x = rw (suc_not_zero n) (ap (λ ys. x ∷ ys) (take_nil n))

take_single : {A : Type 0} (n : ℕ) (x : A) → 1 ≤ n → take n (x ∷ []) ≡ x ∷ []
take_single ℕ.zero x k = absurd (omega arith)
take_single (ℕ.suc ℕ.zero) x k = refl
take_single (ℕ.suc (ℕ.suc n)) x k = refl

module _ {N : Type 0} (cfg : Settings N) (r : Redis N) (d : String) where
  -- The store and the buffer after the scores that were appended for the device, with their
  -- times; the last one stands first.
  abbrev pub appended : List (ℕ × Entry N) → Redis N × List (Entry N)
  appended [] = (r, [])
  appended ((t, e) ∷ h) = append_score cfg (appended h).0 t d e

  -- Each score comes before the key of the one before it expires.
  abbrev pub IsSteady : List (ℕ × Entry N) → Type 0
  IsSteady [] = Unit
  IsSteady ((t, e) ∷ []) = Unit
  IsSteady ((t, e) ∷ (t', e') ∷ h) = (t < t' + cfg.redis_ttl_seconds) × IsSteady ((t', e') ∷ h)

  stored :
      (t : ℕ) (e : Entry N) (h : List (ℕ × Entry N))
      → (appended ((t, e) ∷ h)).0.scores d
        ≡ some
            (record { value = (appended ((t, e) ∷ h)).1; expires_at = t + cfg.redis_ttl_seconds })
  unfolding append_score
  stored t e h = rw (str_eq_refl d) refl

  buffer_of :
      (t : ℕ) (e : Entry N) (h : List (ℕ × Entry N))
      → (appended ((t, e) ∷ h)).1
        ≡ ltrim cfg.score_buffer_size (e ∷ or_empty (live ((appended h).0.scores d) t))
  unfolding append_score
  buffer_of t e h = refl

  -- Where the device has no buffer to begin with, and its scores come often enough, the buffer is
  -- the last `score_buffer_size` of them, the newest first (for a size of at least 1).
  pub appended-take :
      (h : List (ℕ × Entry N))
      → 1 ≤ cfg.score_buffer_size
      → r.scores d ≡ none
      → IsSteady h
      → (appended h).1 ≡ take cfg.score_buffer_size (map (λ x. x.1) h)
  appended-take [] k none' steady = sym (take_nil cfg.score_buffer_size)
  appended-take ((t, e) ∷ []) k none' steady =
      buffer_of t e []
      ∙ ap (λ o. ltrim cfg.score_buffer_size (e ∷ or_empty (live o t))) none'
      ∙ ltrim_single cfg.score_buffer_size e
      ∙ sym (take_single cfg.score_buffer_size e k)
  appended-take ((t, e) ∷ (t', e') ∷ h) k none' (soon, steady) =
      buffer_of t e ((t', e') ∷ h)
      ∙ ap (λ o. ltrim cfg.score_buffer_size (e ∷ or_empty (live o t))) (stored t' e' h)
      ∙ ap
          (λ b.
            ltrim cfg.score_buffer_size
              (e ∷ or_empty (if b then some (appended ((t', e') ∷ h)).1 else none)))
          (lt→ltb t (t' + cfg.redis_ttl_seconds) soon)
      ∙ ap (λ xs. ltrim cfg.score_buffer_size (e ∷ xs))
          (appended-take ((t', e') ∷ h) k none' steady)
      ∙ ltrim-take cfg.score_buffer_size e (map (λ x. x.1) ((t', e') ∷ h)) k

-- An alert clears the evidence: the buffer of the device's next frame holds that frame only,
-- whenever it comes.
pub append_score-mark_suppressed :
    {N : Type 0} (cfg : Settings N) (r : Redis N) (d id : String) (marked now : ℕ) (e : Entry N)
    → (append_score cfg (mark_suppressed cfg r marked d id) now d e).1 ≡ e ∷ []
unfolding append_score mark_suppressed
append_score-mark_suppressed cfg r d id marked now e =
    rw (str_eq_refl d) (ltrim_single cfg.score_buffer_size e)
