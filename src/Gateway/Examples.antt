-- ===== src/Gateway/Examples.antt =====
-- The gateway's results at concrete devices, tokens and messages, and tests.
use drone_audio_sensor.Common.{
  ℕ, ◌+◌, ◌<◌, ◌∷◌, List, ◌≡◌, refl, ◌⊎◌, true, false, [], none, some, String, arith, str_eq, map,
}
use drone_audio_sensor.Common.Int.{ℤ, minus_one}
use drone_audio_sensor.Common.Results.{ok}
use drone_audio_sensor.Common.Text.{strip, lower}
use drone_audio_sensor.Lifecycle.{
  state_eq, State, active, setup_pending, lost, normalize, text, is_connectable,
}
use drone_audio_sensor.Lifecycle.Rules.{normalize-text}
use drone_audio_sensor.Gateway.Store.{Handshake, handshake}
use drone_audio_sensor.Gateway.Registry.{
  state_of, get_state, lookup, get_public_key, complete_setup, upsert_handshake,
}
use drone_audio_sensor.Gateway.Registry.States.{
  life, complete_setup_lem, upsert_handshake_forgets_status, after_setup,
}
use drone_audio_sensor.Gateway.Auth.{KeyCache, validate, get_key, check_token}
use drone_audio_sensor.Gateway.Auth.Keys.{Vouches}
use drone_audio_sensor.Gateway.Session.Acks.{acks, Spaced}
use drone_audio_sensor.Gateway.Session.Frames.{audio_frames}
use drone_audio_sensor.Gateway.Admission.{
  authenticate, check_first, check_handshake, extract_bearer, token_of,
}
use drone_audio_sensor.Gateway.Stream.{session_state, run_session, stream_audio, handshake_fields}
use drone_audio_sensor.Gateway.Fixtures.{
  lenient, config, readings, phone, legacy, fleet, world, hello, two_frames, bearer,
  session_state_active,
}
use drone_audio_sensor.Gateway.Stream.Effects.{run_session-life, after_session}
use drone_audio_sensor.Gateway.Stream.Audio.{
  entry_for, run_session_muted, run_session_forwards, run_session-acks,
}
use drone_audio_sensor.Gateway.Stream.History.{
  Call, Event, called, serve_call, cache_after, VouchedIn, stream_audio_authenticated,
}
use drone_audio_sensor.Gateway.Stream.Gate.{Refused, Served, stream_audio_cases}

state_of-phone : (s : State) → state_of (phone (text s)) ≡ s
unfolding state_of
state_of-phone State.setup_pending = normalize-text State.setup_pending
state_of-phone State.active = normalize-text State.active
state_of-phone State.lost = normalize-text State.lost
state_of-phone State.revoked = normalize-text State.revoked
state_of-phone State.wipe_requested = normalize-text State.wipe_requested
state_of-phone State.wipe_sent = normalize-text State.wipe_sent

complete_setup_lem_example :
    let r = complete_setup (fleet (phone "setup_pending")) "d1" "s1" 1000 in
    (life (r.0 "d1") ≡ some (after_setup (state_of (phone "setup_pending"))))
    × (r.1 ≡ state_eq (state_of (phone "setup_pending")) setup_pending)
    × (r.1 ≡ false → r.0 ≡ fleet (phone "setup_pending"))
    × ((j : String) → str_eq "d1" j ≡ false → r.0 j ≡ fleet (phone "setup_pending") j)
complete_setup_lem_example =
    complete_setup_lem (fleet (phone "setup_pending")) "d1" "s1" 1000 (phone "setup_pending") refl

upsert_handshake_forgets_status_example :
    life ((upsert_handshake (fleet legacy) "d1" (handshake_fields hello "s1") 1001).0 "d1")
    ≡ some active
upsert_handshake_forgets_status_example =
    upsert_handshake_forgets_status (fleet legacy) "d1" (handshake_fields hello "s1") 1001 legacy
      refl refl

run_session-life_example :
    let after =
      (run_session
        (config false)
        readings
        (world (phone "setup_pending"))
        hello
        two_frames
        none).0.devices in
    (life (after "d1") ≡ some (after_session (state_of (phone "setup_pending"))))
    × ((j : String) → str_eq "d1" j ≡ false → after j ≡ fleet (phone "setup_pending") j)
run_session-life_example =
    run_session-life (config false) readings (world (phone "setup_pending")) hello
      (phone "setup_pending") "setup_pending" refl refl two_frames none

session_state_lost : session_state (fleet (phone "lost")) "d1" ≡ lost
unfolding session_state get_state lookup state_of normalize strip lower
session_state_lost = refl

run_session_muted_example :
    (run_session (config false) readings (world (phone "lost")) hello two_frames none).0.frames ≡ []
run_session_muted_example =
    run_session_muted (config false) readings (world (phone "lost")) hello two_frames none
      (λ h. let other = session_state_lost in ground arith)

run_session_forwards_example :
    (run_session (config false) readings (world (phone "active")) hello two_frames none).0.frames
    ≡ map (entry_for hello readings) (audio_frames two_frames)
run_session_forwards_example =
    run_session_forwards (config false) readings (world (phone "active")) hello two_frames none
      session_state_active (refl, (refl, tt))

run_session-acks_example :
    (hi : ℤ) × Spaced 2 minus_one
      (acks (run_session (config false) readings (world (phone "active")) hello two_frames none).1)
      hi
run_session-acks_example =
    run_session-acks (config false) readings (world (phone "active")) hello two_frames none

abbrev no_keys : KeyCache
no_keys id = none

stream_audio_cases_example :
    Refused
      (config false)
      readings
      (world (phone "active"))
      no_keys
      bearer
      (some (handshake hello))
      two_frames
      none
      (stream_audio
        (config false)
        readings
        (world (phone "active"))
        no_keys
        bearer
        (some (handshake hello))
        two_frames
        none)
    ⊎ Served
        (config false)
        readings
        (world (phone "active"))
        no_keys
        bearer
        (some (handshake hello))
        two_frames
        none
        (stream_audio
          (config false)
          readings
          (world (phone "active"))
          no_keys
          bearer
          (some (handshake hello))
          two_frames
          none)
stream_audio_cases_example =
    stream_audio_cases (config false) readings (world (phone "active")) no_keys bearer
      (some (handshake hello)) two_frames none

abbrev call : String → ℕ → Call ℕ
call state now = record {
  readings = record readings { monotonic = now };
  world = world (phone state);
  metadata = bearer;
  first = some (handshake hello);
  arrivals = two_frames;
  end = none;
}

-- The key is cached in the first call; by the second the device was revoked.
abbrev earlier : List (Event ℕ)
earlier = called (call "active" 5) ∷ []

accepted :
    (serve_call (config true) (call "revoked" 304) (cache_after (config true) earlier)).aborted
    ≡ none
unfolding stream_audio authenticate validate get_key get_public_key lookup state_of is_connectable
    normalize strip lower check_token extract_bearer check_first check_handshake
accepted = refl

-- One second later the cached key is no longer fresh, and the registry refuses.
refused_later :
    (serve_call (config true) (call "revoked" 305) (cache_after (config true) earlier)).sent ≡ []
unfolding stream_audio authenticate validate get_key get_public_key lookup state_of is_connectable
    normalize strip lower check_token extract_bearer check_first check_handshake
refused_later = refl

stream_audio_authenticated_example :
    (h : Handshake ℕ) × (pem : String) × (some (handshake hello) ≡ some (handshake h))
    × (lenient.decode (token_of (extract_bearer bearer)) pem ≡ ok (some h.device_id))
    × (Vouches (fleet (phone "revoked")) h.device_id pem
        ⊎ ((t : ℕ) × VouchedIn earlier h.device_id pem t × (304 < t + 300)))
stream_audio_authenticated_example =
    stream_audio_authenticated (config true) lenient 300 refl refl earlier (call "revoked" 304)
      accepted
