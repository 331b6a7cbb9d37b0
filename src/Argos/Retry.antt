-- ===== src/Argos/Retry.antt =====
-- `replay_station` of scripts/argos_bridge/bridge.py: the waits between the sessions of a station,
-- in milliseconds. How a session ends, how long it ran and when the shutdown comes are inputs.
use drone_audio_sensor.Common.{
  ℕ, ◌+◌, ◌≤◌, ◌≡◌, refl, inl, inr, Bool, true, false, List, [], ◌∷◌, arith, All, if◌then◌else◌,
  Bool-cases, ltb, ◌==◌,
}

pub data SessionEnd : Type 0 where
  returned : ℕ → SessionEnd
  raised : SessionEnd

-- A session, whether the shutdown came by its end, and whether it came while the station waited.
pub record Turn : Type 0 where
  pub end : SessionEnd
  pub is_shutdown : Bool
  pub is_stopped : Bool

-- `RECONNECT_BACKOFF_S[min(backoff_idx, len(RECONNECT_BACKOFF_S) - 1)]`.
unfoldable pub backoff_ms : ℕ → ℕ
backoff_ms i =
    if i == 0
    then 1000
    else if i == 1
    then 2000
    else if i == 2
    then 5000
    else if i == 3
    then 10000
    else 30000

-- The index after a session: it starts again only after one that returned.
abbrev pub index_after : SessionEnd → ℕ → ℕ
index_after (returned session_ms) i = if ltb 30000 session_ms then 0 else i
index_after raised i = i

-- The loop.
unfoldable pub station_waits : ℕ → List Turn → List ℕ
station_waits i [] = []
station_waits i (t ∷ turns) =
    let j = index_after t.end i in
    let rest = station_waits (j + 1) turns in
    if t.is_shutdown then [] else if t.is_stopped then backoff_ms j ∷ [] else backoff_ms j ∷ rest

-- From the first, staggered start on.
unfoldable pub replay_station : Bool → List Turn → List ℕ
replay_station stops_early turns = if stops_early then [] else station_waits 0 turns

abbrev pub IsBounded : ℕ → Type 0
IsBounded ms = (1000 ≤ ms) × (ms ≤ 30000)

backoff_ms-IsBounded : (i : ℕ) → IsBounded (backoff_ms i)
unfolding backoff_ms
backoff_ms-IsBounded i = ground arith

backoff_ms_rises : (i j : ℕ) → i ≤ j → backoff_ms i ≤ backoff_ms j
unfolding backoff_ms
backoff_ms_rises i j h = ground arith

-- The session raised, however long it ran, or returned within 30 seconds.
abbrev pub IsShort : SessionEnd → Type 0
IsShort (returned session_ms) = session_ms ≤ 30000
IsShort raised = Unit

index_after-IsShort : (e : SessionEnd) (i : ℕ) → IsShort e → index_after e i ≡ i
index_after-IsShort (returned session_ms) i h = ground arith
index_after-IsShort raised i h = refl

-- Each wait is at least the one before it, from this one on.
abbrev pub RisesFrom : ℕ → List ℕ → Type 0
RisesFrom low [] = Unit
RisesFrom low (ms ∷ rest) = (low ≤ ms) × RisesFrom ms rest

All-waits : (i : ℕ) (turns : List Turn) → All IsBounded (station_waits i turns)
unfolding station_waits
All-waits i [] = tt
All-waits i (t ∷ turns) =
    let j = index_after t.end i in
    elim (Bool-cases t.is_shutdown) [
      | inl off ↦ rw off tt
      | inr on ↦ elim (Bool-cases t.is_stopped) [
        | inl stops ↦ rw (on, stops) (backoff_ms-IsBounded j, tt)
        | inr runs ↦ rw (on, runs) (backoff_ms-IsBounded j, All-waits (j + 1) turns)
      ]
    ]

waits_rise :
    (i low : ℕ) (turns : List Turn)
    → All (λ (t : Turn). IsShort t.end) turns
    → low ≤ backoff_ms i
    → RisesFrom low (station_waits i turns)
unfolding station_waits
waits_rise i low [] short h = tt
waits_rise i low (t ∷ turns) (first, short) h =
    let j = index_after t.end i in
    let same : j ≡ i = index_after-IsShort t.end i first in
    let now : low ≤ backoff_ms j = rw same h in
    elim (Bool-cases t.is_shutdown) [
      | inl off ↦ rw off tt
      | inr on ↦ elim (Bool-cases t.is_stopped) [
        | inl stops ↦ rw (on, stops) (now, tt)
        | inr runs ↦
            rw (on, runs)
              (
                now,
                waits_rise (j + 1) (backoff_ms j) turns short
                    (backoff_ms_rises j (j + 1) (omega arith)),
              )
      ]
    ]

-- Where each session of a station raised, however long it ran, or returned within 30 seconds, the
-- waits between its sessions are of 1 to 30 seconds, and none is shorter than the one before it.
pub replay_station-RisesFrom :
    (stops_early : Bool) (turns : List Turn)
    → All (λ (t : Turn). IsShort t.end) turns
    → All IsBounded (replay_station stops_early turns)
      × RisesFrom 0 (replay_station stops_early turns)
unfolding replay_station
replay_station-RisesFrom true turns short = (tt, tt)
replay_station-RisesFrom false turns short =
    (All-waits 0 turns, waits_rise 0 0 turns short (omega arith))
