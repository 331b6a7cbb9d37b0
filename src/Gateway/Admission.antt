-- ===== src/Gateway/Admission.antt =====
-- Who is admitted to `StreamAudio` of backend/gateway/src/gateway/service.py: the token of the
-- metadata, and the checks on the first message.
use drone_audio_sensor.Common.{
  ℕ, Bool, true, false, not, List, [], ◌∷◌, Option, none, some, String, if◌then◌else◌, str_eq, ◌==◌,
  ◌&&◌,
}
use drone_audio_sensor.Common.Results.{Result, ok, err}
use drone_audio_sensor.Common.Text.{codes, strip, lower, text_eq}
use drone_audio_sensor.Gateway.Store.{Device, Table, Handshake, Payload, handshake}
use drone_audio_sensor.Gateway.Auth.{Jwt, AuthError, KeyCache, validate}

-- The settings that the handler reads, and the token checker that it was built with: PyJWT and the
-- age of its cached keys.
pub record Config : Type 0 where
  pub require_auth : Bool
  pub auth : Option (Jwt × ℕ)
  pub ack_interval_frames : ℕ
  pub health_report_interval_seconds : ℕ

-- `context.abort`, with its status.
pub data Abort : Type 0 where
  not_configured no_handshake not_handshake no_device_id wrong_subject : Abort
  auth_failed : AuthError → Abort

abbrev starts_with : List ℕ → List ℕ → Bool
starts_with [] s = true
starts_with (c ∷ p) [] = false
starts_with (c ∷ p) (d ∷ s) = c == d && starts_with p s

abbrev drop : ℕ → List ℕ → List ℕ
drop ℕ.zero s = s
drop (ℕ.suc n) [] = []
drop (ℕ.suc n) (c ∷ s) = drop n s

-- `_extract_bearer`: the first authorization header of the metadata that carries a bearer token.
unfoldable pub extract_bearer : List (String × String) → Option (List ℕ)
unfolding strip lower
extract_bearer [] = none
extract_bearer ((key, value) ∷ rest) =
    if text_eq (lower (codes key)) (codes "authorization")
      && starts_with (codes "bearer ") (lower (codes value))
    then some (strip (drop 7 (codes value)))
    else extract_bearer rest

abbrev pub token_of : Option (List ℕ) → List ℕ
token_of none = []
token_of (some t) = t

abbrev as_abort : Result AuthError String → Result Abort (Option String)
as_abort (ok sub) = ok (some sub)
as_abort (err e) = err (auth_failed e)

-- `_next_message`, and the checks on the first message. `authed` is the authenticated subject.
abbrev pub subject_matches : Option String → String → Bool
subject_matches none device_id = true
subject_matches (some sub) device_id = str_eq sub device_id

module _ {F : Type 0} where
  -- The checks of a session's start: the subject that was authenticated, if any.
  unfoldable pub authenticate :
      Config
      → KeyCache
      → Table (Device F)
      → ℕ
      → List (String × String)
      → KeyCache × Result Abort (Option String)
  unfolding validate extract_bearer
  authenticate cfg cache devices now metadata =
      if not cfg.require_auth then (cache, ok none) else elim cfg.auth [
        | none ↦ (cache, err not_configured)
        | some (jwt, ttl) ↦
            let (cache', r) =
              validate ttl jwt cache devices now (token_of (extract_bearer metadata)) in
            (cache', as_abort r)
      ]

  unfoldable pub check_handshake : Option String → Handshake F → Result Abort (Handshake F)
  check_handshake authed h =
      if str_eq h.device_id ""
      then err no_device_id
      else if not (subject_matches authed h.device_id)
      then err wrong_subject
      else ok h

  unfoldable pub check_first : Option String → Option (Payload F) → Result Abort (Handshake F)
  unfolding check_handshake
  check_first authed none = err no_handshake
  check_first authed (some (handshake h)) = check_handshake authed h
  check_first authed (some (Payload.audio_frame f)) = err not_handshake
  check_first authed (some (Payload.health h)) = err not_handshake
  check_first authed (some (Payload.location_update l)) = err not_handshake
  check_first authed (some Payload.unset) = err not_handshake
