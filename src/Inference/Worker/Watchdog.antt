-- ===== src/Inference/Worker/Watchdog.antt =====
-- `_watchdog_loop` of backend/inference/src/inference/worker.py. A moment is a reading of
-- `time.monotonic`, in nanoseconds; the settings are in seconds. What happens outside - when the
-- sleeps end, and what `_last_frame_at` holds then - is a parameter.
use mathlib.Core.Path.{subst}
use drone_audio_sensor.Common.{
  ℕ, zero, suc, ◌+◌, ◌-◌, ◌*◌, ◌/◌, ◌≤◌, ◌<◌, ◌≡◌, refl, ap, ◌⊎◌, inl, inr, Bool, true, false,
  Option, none, some, arith, ltb, ◌==◌, if◌then◌else◌, ltb→lt,
}

abbrev pub second : ℕ
second = 1000000000

abbrev pub max : ℕ → ℕ → ℕ
max a b = if ltb a b then b else a

-- `settings.watchdog_check_interval_seconds or max(30, stall_threshold // 4)`.
unfoldable pub check_interval : ℕ → ℕ → ℕ
check_interval configured stall_threshold =
    if configured == 0 then max 30 (stall_threshold / 4) else configured

-- The test after one sleep.
unfoldable pub is_stalled : ℕ → ℕ → ℕ → Bool
is_stalled stall_threshold now last_frame_at = ltb (stall_threshold * second) (now - last_frame_at)

le_cases : (k j : ℕ) → k ≤ j → (k ≡ j) ⊎ (suc k ≤ j)
le_cases k j h = ground arith

module _ (stall_threshold : ℕ) (wake last_frame_at : ℕ → ℕ) where
  -- `while True`, from the sleep `k` on, for as many rounds as there is fuel: the round that exits.
  unfoldable pub watchdog : ℕ → ℕ → Option ℕ
  watchdog zero k = none
  watchdog (suc fuel) k =
      let later = watchdog fuel (suc k) in
      if is_stalled stall_threshold (wake k) (last_frame_at k) then some k else later

  -- The sleeps last at least `interval` seconds.
  abbrev pub Sleeps : ℕ → Type 0
  Sleeps interval = (k : ℕ) → wake k + interval * second ≤ wake (suc k)

  -- No frame is counted after the moment `t`.
  abbrev pub IsSilentFrom : ℕ → Type 0
  IsSilentFrom t = (k : ℕ) → last_frame_at k ≤ t

  -- The loop ends at round `r`: it found a stall there, and none at a round before, from `k` on.
  abbrev pub ExitsAt : ℕ → ℕ → Type 0
  ExitsAt k r =
      (last_frame_at r + stall_threshold * second < wake r)
      × ((j : ℕ) → k ≤ j → j < r → wake j ≤ last_frame_at j + stall_threshold * second)

  stalled_iff :
      (k : ℕ) (b : Bool)
      → is_stalled stall_threshold (wake k) (last_frame_at k) ≡ b
      → ((b ≡ true) × (last_frame_at k + stall_threshold * second < wake k))
        ⊎ ((b ≡ false) × (wake k ≤ last_frame_at k + stall_threshold * second))
  unfolding is_stalled
  stalled_iff k true h = inl (refl, omega (arith, ltb→lt _ _ h))
  stalled_iff k false h = inr (refl, ground arith)

  earlier :
      (k r : ℕ)
      → ((j : ℕ) → suc k ≤ j → j < r → wake j ≤ last_frame_at j + stall_threshold * second)
      → wake k ≤ last_frame_at k + stall_threshold * second
      → (j : ℕ) → k ≤ j
      → j < r
      → wake j ≤ last_frame_at j + stall_threshold * second
  earlier k r before calm j above below = elim (le_cases k j above) [
    | inl same ↦ subst (λ i. wake i ≤ last_frame_at i + stall_threshold * second) same calm
    | inr more ↦ before j more below
  ]

  exit_now :
      (n k : ℕ)
      → is_stalled stall_threshold (wake k) (last_frame_at k) ≡ true
      → last_frame_at k + stall_threshold * second < wake k
      → (r : ℕ) × (r ≤ k + n) × (watchdog (suc n) k ≡ some r) × ExitsAt k r
  unfolding watchdog
  exit_now n k over stall =
      (k, omega arith, rw over refl, (stall, λ j above below. absurd (omega arith)))

  -- A round that comes after the deadline is enough fuel.
  exits_by :
      (t n k : ℕ)
      → IsSilentFrom t
      → t + stall_threshold * second < wake (k + n)
      → (r : ℕ) × (r ≤ k + n) × (watchdog (suc n) k ≡ some r) × ExitsAt k r
  unfolding watchdog
  exits_by t zero k silent late = elim (stalled_iff k _ refl) [
    | inl (over, stall) ↦ exit_now zero k over stall
    | inr (under, calm) ↦
        let here : wake (k + 0) ≡ wake k = ap wake (omega arith) in
        let quiet = silent k in absurd (omega arith)
  ]
  exits_by t (suc n) k silent late = elim (stalled_iff k _ refl) [
    | inl (over, stall) ↦ exit_now (suc n) k over stall
    | inr (under, calm) ↦
        let next : wake (suc k + n) ≡ wake (k + suc n) = ap wake (omega arith) in
        let (r, bound, exits, (stall, before)) = exits_by t n (suc k) silent (omega arith) in
        (r, omega arith, rw under exits, (stall, earlier k r before calm))
  ]

  wake_grows : (interval n : ℕ) → 1 ≤ interval → Sleeps interval → n * second ≤ wake n
  wake_grows interval zero positive sleeps = omega arith
  wake_grows interval (suc n) positive sleeps =
      let before = wake_grows interval n positive sleeps in let step = sleeps n in omega arith

-- The interval is never zero.
check_interval-positive : (configured stall : ℕ) → 1 ≤ check_interval configured stall
unfolding check_interval
check_interval-positive configured stall = ground arith

-- If each sleep lasts its interval at least, and no frame is counted after the moment `t`, then the
-- watchdog ends the process after as many rounds, at most, as `t` and the threshold have seconds
-- together, and one. At the round that ends it the last frame is older than the threshold, and at
-- each round before, it was not.
pub watchdog-exits :
    (configured stall t : ℕ) (wake last_frame_at : ℕ → ℕ)
    → Sleeps stall wake last_frame_at (check_interval configured stall)
    → IsSilentFrom stall wake last_frame_at t
    → let rounds = t / second + stall + 1 in
      (r : ℕ) × (r ≤ rounds)
      × (watchdog stall wake last_frame_at (suc rounds) 0 ≡ some r)
      × ExitsAt stall wake last_frame_at 0 r
watchdog-exits configured stall t wake last_frame_at sleeps silent =
    let rounds = t / second + stall + 1 in
    let reached =
      wake_grows stall wake last_frame_at (check_interval configured stall) rounds
        (check_interval-positive configured stall) sleeps in
    let here : wake (0 + rounds) ≡ wake rounds = ap wake (omega arith) in
    let (r, bound, exits, at_exit) =
      exits_by stall wake last_frame_at t rounds 0 silent (omega arith) in
    (r, omega arith, exits, at_exit)
