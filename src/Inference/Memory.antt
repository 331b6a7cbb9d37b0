-- ===== src/Inference/Memory.antt =====
-- `DetectionState` of backend/inference/src/inference/detection.py: the score buffer, the
-- suppression key and the recent fires of each device, in Redis. A key with an expiry is there
-- until the server's clock, in seconds, reaches it.
pub mod Buffer
pub mod Chronic
use drone_audio_sensor.Common.{
  ℕ, ◌+◌, ◌*◌, Bool, true, false, not, List, [], ◌∷◌, Option, none, some, String, if◌then◌else◌,
  str_eq, ltb, leb, ◌==◌, ◌&&◌, length, take,
}
use drone_audio_sensor.Common.Int.{ℤ, pos, eq_ℤ, leb_ℤ, diff_ge}
use drone_audio_sensor.Gateway.Store.{Table, write}
use drone_audio_sensor.Inference.Gate.{Entry, Settings}

pub record Expiring (V : Type 0) : Type 0 where
  pub value : V
  pub expires_at : ℕ

-- The value of a key at a time.
abbrev pub live : {V : Type 0} → Option (Expiring V) → ℕ → Option V
live none now = none
live (some e) now = if ltb now e.expires_at then some e.value else none

pub record Redis (N : Type 0) : Type 0 where
  pub scores : Table (Expiring (List (Entry N)))
  pub suppression : Table (Expiring String)
  pub fires : Table (Expiring (List ℤ))

abbrev pub remove : {V : Type 0} → Table V → String → Table V
remove m k j = if str_eq k j then none else m j

abbrev pub or_empty : {A : Type 0} → Option (List A) → List A
or_empty none = []
or_empty (some xs) = xs

-- `LTRIM key 0 (n - 1)`: the first `n` elements, and all of them where `n - 1` is -1.
abbrev pub ltrim : {A : Type 0} → ℕ → List A → List A
ltrim n xs = if n == 0 then xs else take n xs

-- `ZADD key {str(t): t}`: a member that is there stays.
abbrev pub zadd : List ℤ → ℤ → List ℤ
zadd [] t = t ∷ []
zadd (x ∷ xs) t = if eq_ℤ x t then x ∷ xs else x ∷ zadd xs t

-- The scores from 0 to `t - window`.
abbrev pub is_old : ℤ → ℕ → ℤ → Bool
is_old t window x = leb_ℤ (pos 0) x && diff_ge t x window

-- `ZREMRANGEBYSCORE key 0 (t - window)`.
abbrev pub drop_old : ℤ → ℕ → List ℤ → List ℤ
drop_old t window [] = []
drop_old t window (x ∷ xs) =
    let rest = drop_old t window xs in if is_old t window x then rest else x ∷ rest

module _ {N : Type 0} (cfg : Settings N) where
  -- The new buffer is returned with the store.
  unfoldable pub append_score : Redis N → ℕ → String → Entry N → Redis N × List (Entry N)
  append_score r now device_id entry =
      let buffer = ltrim cfg.score_buffer_size (entry ∷ or_empty (live (r.scores device_id) now)) in
      (
        record r {
          scores =
              write r.scores device_id
                (record { value = buffer; expires_at = now + cfg.redis_ttl_seconds });
        },
        buffer,
      )

  unfoldable pub is_suppressed : Redis N → ℕ → String → Bool
  is_suppressed r now device_id = elim (live (r.suppression device_id) now) [
    | none ↦ false
    | some id ↦ true
  ]

  -- The window opens, and the evidence that was used is cleared.
  unfoldable pub mark_suppressed : Redis N → ℕ → String → String → Redis N
  mark_suppressed r now device_id detection_id = record r {
    suppression =
        write r.suppression device_id
          (record { value = detection_id; expires_at = now + cfg.suppression_window_seconds });
    scores = remove r.scores device_id;
  }

  -- Whether the sensor is chronic, and the number of fires in its window.
  unfoldable pub record_fire_and_chronic : Redis N → ℕ → String → ℤ → Redis N × Bool × ℕ
  record_fire_and_chronic r now device_id timestamp_ms =
      if not cfg.chronic_mute_enabled
      then (r, false, 0)
      else (let fires =
            drop_old timestamp_ms (cfg.chronic_window_seconds * 1000)
              (zadd (or_empty (live (r.fires device_id) now)) timestamp_ms) in
          (
            record r {
              fires = write r.fires device_id (record {
                value = fires;
                expires_at = now + (cfg.chronic_window_seconds + cfg.suppression_window_seconds);
              });
            },
            leb cfg.chronic_alert_threshold (length fires),
            length fires,
          ))
