-- ===== src/Inference/Memory/Chronic.antt =====
-- When a sensor is chronic.
use drone_audio_sensor.Common.{
  ℕ, ◌+◌, ◌*◌, ◌≤◌, ◌≡◌, refl, ap, sym, ◌∙◌, ◌↔◌, Bool, true, false, not, ◌&&◌, ◌||◌, List, [], ◌∷◌,
  some, String, arith, leb, length, Bool-cases, inl, inr, str_eq_refl, leb→le, le→leb,
}
use drone_audio_sensor.Common.Int.{ℤ, eq_ℤ, eq_ℤ_sound, eq_ℤ_refl}
use drone_audio_sensor.Inference.Gate.{Settings}
use drone_audio_sensor.Inference.Memory.{
  Redis, live, or_empty, zadd, is_old, drop_old, record_fire_and_chronic,
}

abbrev pub has_time : List ℤ → ℤ → Bool
has_time [] t = false
has_time (x ∷ xs) t = eq_ℤ x t || has_time xs t

-- No time stands twice.
abbrev pub IsDistinct : List ℤ → Type 0
IsDistinct [] = Unit
IsDistinct (x ∷ xs) = (has_time xs x ≡ false) × IsDistinct xs

or_false : (a : Bool) → (a || false) ≡ (false || a)
or_false true = refl
or_false false = refl

or_again : (a b : Bool) → (a || b) ≡ ((a || b) || a)
or_again true b = refl
or_again false true = refl
or_again false false = refl

or_assoc : (a b c : Bool) → (a || (b || c)) ≡ ((a || b) || c)
or_assoc true b c = refl
or_assoc false b c = refl

zadd_lem : (xs : List ℤ) (t x : ℤ) → has_time (zadd xs t) x ≡ (has_time xs x || eq_ℤ t x)
zadd_lem [] t x = or_false (eq_ℤ t x)
zadd_lem (y ∷ xs) t x = elim (Bool-cases (eq_ℤ y t)) [
  | inl same ↦ rw same (rw (eq_ℤ_sound y t same) (or_again (eq_ℤ t x) (has_time xs x)))
  | inr other ↦ rw other (rw (zadd_lem xs t x) (or_assoc (eq_ℤ y x) (has_time xs x) (eq_ℤ t x)))
]

eq_ℤ_other : (y t : ℤ) → eq_ℤ y t ≡ false → eq_ℤ t y ≡ false
eq_ℤ_other y t other = elim (Bool-cases (eq_ℤ t y)) [
  | inl same ↦ absurd (
      let clash : eq_ℤ y t ≡ true = ap (λ z. eq_ℤ z t) (sym (eq_ℤ_sound t y same)) ∙ eq_ℤ_refl t in
      cc)
  | inr h ↦ h
]

zadd-IsDistinct : (xs : List ℤ) (t : ℤ) → IsDistinct xs → IsDistinct (zadd xs t)
zadd-IsDistinct [] t h = (refl, tt)
zadd-IsDistinct (y ∷ xs) t h = elim (Bool-cases (eq_ℤ y t)) [
  | inl same ↦ rw same h
  | inr other ↦
      rw other (zadd_lem xs t y ∙ rw (h.0) (eq_ℤ_other y t other), zadd-IsDistinct xs t h.1)
]

drop_old_lem :
    (t : ℤ) (window : ℕ) (xs : List ℤ) (x : ℤ)
    → has_time (drop_old t window xs) x ≡ (has_time xs x && not (is_old t window x))
drop_old_lem t window [] x = refl
drop_old_lem t window (y ∷ xs) x = ground (arith, drop_old_lem t window xs x)

drop_old-IsDistinct :
    (t : ℤ) (window : ℕ) (xs : List ℤ) → IsDistinct xs → IsDistinct (drop_old t window xs)
drop_old-IsDistinct t window [] h = tt
drop_old-IsDistinct t window (y ∷ xs) h = elim (Bool-cases (is_old t window y)) [
  | inl old ↦ rw old (drop_old-IsDistinct t window xs h.1)
  | inr recent ↦
      rw recent (drop_old_lem t window xs y ∙ (rw (h.0) refl), drop_old-IsDistinct t window xs h.1)
]

leb_iff : (a b : ℕ) → (leb a b ≡ true) ↔ (a ≤ b)
leb_iff a b = (leb→le a b, le→leb a b)

module _ {N : Type 0} (cfg : Settings N) (r : Redis N) (now : ℕ) (d : String) (t : ℤ) where
  -- The fires of the device that the store still has.
  abbrev pub known : List ℤ
  known = or_empty (live (r.fires d) now)

  -- With the mute on, a fire at `t` leaves the distinct times that were known or are `t`, less those
  -- from 0 to `chronic_window_seconds` before `t`; they are kept for the next fire, the count is
  -- their number, and the sensor is chronic exactly if it is at least `chronic_alert_threshold`.
  -- The condition on the known times is kept by every fire.
  pub record_fire_and_chronic_lem :
      cfg.chronic_mute_enabled ≡ true
      → IsDistinct known
      → let o = record_fire_and_chronic cfg r now d t in
        (fires : List ℤ) × IsDistinct fires
        × ((x : ℤ)
            → has_time fires x ≡ (
                (has_time known x || eq_ℤ t x)
                && not (is_old t (cfg.chronic_window_seconds * 1000) x)))
        × (o.0.fires d
            ≡ some (record {
              value = fires;
              expires_at = now + (cfg.chronic_window_seconds + cfg.suppression_window_seconds);
            }))
        × (o.2 ≡ length fires)
        × ((o.1 ≡ true) ↔ (cfg.chronic_alert_threshold ≤ length fires))
  unfolding record_fire_and_chronic
  record_fire_and_chronic_lem on distinct =
      let window = cfg.chronic_window_seconds * 1000 in
      let fires = drop_old t window (zadd known t) in
      (
        fires,
        drop_old-IsDistinct t window (zadd known t) (zadd-IsDistinct known t distinct),
        (λ x.
            drop_old_lem t window (zadd known t) x
            ∙ ap (λ b. b && not (is_old t window x)) (zadd_lem known t x)),
        rw on (rw (str_eq_refl d) refl),
        rw on refl,
        rw on (leb_iff cfg.chronic_alert_threshold (length fires)),
      )
