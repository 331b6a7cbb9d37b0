-- ===== src/Inference/Gate/Veto.antt =====
-- What the confounder veto can do to the detection gate.
use drone_audio_sensor.Common.{
  ◌≡◌, refl, ap, true, false, not, ◌&&◌, List, [], ◌∷◌, arith, All, if◌then◌else◌,
}
use drone_audio_sensor.Inference.Float.{Float, IsIeee}
use drone_audio_sensor.Inference.Gate.{
  Entry, Settings, is_over, counts, seconds_if, gate, gate_without_veto, evaluate,
}

-- The settings with the veto switched off.
abbrev pub without_veto : {N : Type 0} → Settings N → Settings N
without_veto cfg = record cfg { confounder_veto_enabled = false }

module _ (fl : Float) where
  open fl use {Num, zero, le, add}

  counts_off :
      (cfg : Settings Num) (b : Entry Num) → counts fl (without_veto cfg) b ≡ is_over fl cfg b
  counts_off cfg b = ground arith

  seconds_off :
      (cfg : Settings Num) (acc : Num) (bs : List (Entry Num))
      → seconds_if fl (counts fl (without_veto cfg)) acc bs ≡ seconds_if fl (is_over fl cfg) acc bs
  seconds_off cfg acc [] = refl
  seconds_off cfg acc (b ∷ bs) =
      rw (counts_off cfg b)
        (seconds_off cfg (if is_over fl cfg b then add acc b.frame_s else acc) bs)

  gate_off :
      (cfg : Settings Num) (bs : List (Entry Num))
      → gate fl (without_veto cfg) bs ≡ gate_without_veto fl cfg bs
  unfolding gate gate_without_veto
  gate_off cfg bs = ap (le cfg.min_seconds_over_threshold) (seconds_off cfg zero bs)

  -- The gate that the worker compares with is the gate of the settings without the veto: an event
  -- is reported as blocked by the veto exactly when it does not fire and would fire with the veto
  -- switched off.
  pub veto_blocked_lem :
      (cfg : Settings Num) (buffer : List (Entry Num))
      → (evaluate fl cfg buffer).veto_blocked_trigger ≡ (
          not (evaluate fl cfg buffer).should_trigger
          && (evaluate fl (without_veto cfg) buffer).should_trigger)
  unfolding evaluate
  veto_blocked_lem cfg [] = refl
  veto_blocked_lem cfg (b ∷ bs) = rw (gate_off cfg (b ∷ bs)) refl

  -- Every frame lasts some time that is not negative.
  abbrev pub HasDurations : List (Entry Num) → Type 0
  HasDurations = All (λ b. le zero b.frame_s ≡ true)

  module _ (ieee : IsIeee fl) (cfg : Settings Num) where
    step_le :
        (b : Entry Num) (a c : Num)
        → le zero b.frame_s ≡ true
        → le zero a ≡ true
        → le zero c ≡ true
        → le a c ≡ true
        → let a' = if counts fl cfg b then add a b.frame_s else a in
          let c' = if is_over fl cfg b then add c b.frame_s else c in
          (le zero a' ≡ true) × (le zero c' ≡ true) × (le a' c' ≡ true)
    step_le b a c d ha hc h = ground (
      arith,
      ieee.add_nonneg a b.frame_s,
      ieee.add_nonneg c b.frame_s,
      ieee.add_mono a c b.frame_s,
      ieee.le_add c b.frame_s,
      ieee.le_trans a c (add c b.frame_s),
    )

    seconds_le :
        (bs : List (Entry Num)) (a c : Num)
        → HasDurations bs
        → le zero a ≡ true
        → le zero c ≡ true
        → le a c ≡ true
        → le (seconds_if fl (counts fl cfg) a bs) (seconds_if fl (is_over fl cfg) c bs) ≡ true
    seconds_le [] a c d ha hc h = h
    seconds_le (b ∷ bs) a c d ha hc h =
        let (ha', hc', h') = step_le b a c d.0 ha hc h in seconds_le bs _ _ d.1 ha' hc' h'

    gate_le :
        (bs : List (Entry Num))
        → HasDurations bs
        → gate fl cfg bs ≡ true
        → gate_without_veto fl cfg bs ≡ true
    unfolding gate gate_without_veto
    gate_le bs d h =
        ieee.le_trans _ _ _ h (seconds_le bs zero zero d ieee.le_zero ieee.le_zero ieee.le_zero)

    -- The veto can only suppress: a buffer that fires with it fires without it.
    pub veto_only_suppresses :
        (buffer : List (Entry Num))
        → HasDurations buffer
        → (evaluate fl cfg buffer).should_trigger ≡ true
        → (evaluate fl (without_veto cfg) buffer).should_trigger ≡ true
    unfolding evaluate
    veto_only_suppresses [] d h = cc
    veto_only_suppresses (b ∷ bs) d h = rw (gate_off cfg (b ∷ bs)) (gate_le (b ∷ bs) d h)
