-- ===== src/Gateway/Stream/Gate.antt =====
-- Who gets a session.
use drone_audio_sensor.Common.{
  ℕ, ◌≡◌, refl, ◌⊎◌, true, false, List, [], Option, none, some, String, arith, inl, inr, str_eq,
  str_eq_iff,
}
use drone_audio_sensor.Common.Results.{ok, Result-cases}
use drone_audio_sensor.Gateway.Store.{
  World, Device, Table, Handshake, Payload, handshake, audio_frame, health, location_update, unset,
}
use drone_audio_sensor.Gateway.Auth.{Jwt, KeyCache, validate}
use drone_audio_sensor.Gateway.Session.{Fault, Arrival}
use drone_audio_sensor.Gateway.Admission.{
  Config, Abort, authenticate, check_first, subject_matches, extract_bearer, token_of,
}
use drone_audio_sensor.Gateway.Stream.{Readings, Reply, run_session, stream_audio}

module _ {F : Type 0} where
  check_first_ok :
      (sub : Option String) (p : Option (Payload F)) (h : Handshake F)
      → check_first sub p ≡ ok h
      → (p ≡ some (handshake h))
        × (str_eq h.device_id "" ≡ false)
        × (subject_matches sub h.device_id ≡ true)
  unfolding check_first
  check_first_ok sub none h e = cc
  check_first_ok sub (some (handshake h')) h e = ground arith
  check_first_ok sub (some (audio_frame f)) h e = cc
  check_first_ok sub (some (health f)) h e = cc
  check_first_ok sub (some (location_update f)) h e = cc
  check_first_ok sub (some unset) h e = cc

-- With authentication on, a session's subject is that of an accepted token.
pub authenticate_ok :
    {F : Type 0} (cfg : Config) (cache : KeyCache) (devices : Table (Device F)) (now : ℕ)
    (metadata : List (String × String)) (sub : Option String) (jwt : Jwt) (ttl : ℕ)
    → cfg.require_auth ≡ true
    → cfg.auth ≡ some (jwt, ttl)
    → (authenticate cfg cache devices now metadata).1 ≡ ok sub
    → (id : String) × (sub ≡ some id)
      × ((validate ttl jwt cache devices now (token_of (extract_bearer metadata))).1 ≡ ok id)
unfolding authenticate
authenticate_ok cfg cache devices now metadata sub jwt ttl on set h =
    elim (Result-cases
      (validate ttl jwt cache devices now (token_of (extract_bearer metadata))).1) [
        | inr (e, bad) ↦ absurd (ground arith)
        | inl (id, good) ↦ (id, ground arith, good)
      ]

pub same_subject :
    (id device_id : String) → subject_matches (some id) device_id ≡ true → id ≡ device_id
same_subject id device_id h = ground (arith, str_eq_iff id device_id)

module _ {F : Type 0} (cfg : Config) (r : Readings) (w : World F) (cache : KeyCache)
    (metadata : List (String × String)) (first : Option (Payload F)) (arrivals : List (Arrival F))
    (end : Option Fault) where
  abbrev pub Refused : Reply F → Type 0
  Refused reply = (a : Abort) × (reply.aborted ≡ some a) × (reply.world ≡ w) × (reply.sent ≡ [])

  -- The session that a handshake opened, for the subject that was authenticated, if any.
  pub record Served (reply : Reply F) : Type 0 where
    pub h : Handshake F
    pub sub : Option String
    pub authed : (authenticate cfg cache w.devices r.monotonic metadata).1 ≡ ok sub
    pub greeted : first ≡ some (handshake h)
    pub named : str_eq h.device_id "" ≡ false
    pub matches : subject_matches sub h.device_id ≡ true
    pub not_aborted : reply.aborted ≡ none
    pub ran :
        (reply.world ≡ (run_session cfg r w h arrivals end).0)
        × (reply.sent ≡ (run_session cfg r w h arrivals end).1)

  -- A call of the handler is refused, and then it writes nothing and sends nothing, or it runs the
  -- session of a handshake that came first, that names a device, and that names the subject which
  -- was authenticated if one was.
  pub stream_audio_cases :
      Refused (stream_audio cfg r w cache metadata first arrivals end)
      ⊎ Served (stream_audio cfg r w cache metadata first arrivals end)
  unfolding stream_audio
  stream_audio_cases =
      elim (Result-cases (authenticate cfg cache w.devices r.monotonic metadata).1) [
        | inr (a, bad) ↦ inl (
          a,
          rw (bad, stream_audio) refl,
          rw (bad, stream_audio) refl,
          rw (bad, stream_audio) refl,
        )
        | inl (sub, good) ↦
            rw (good, stream_audio)
              (elim (Result-cases (check_first sub first)) [
                | inr (a, bad) ↦ inl (a, rw bad refl, rw bad refl, rw bad refl)
                | inl (h, fine) ↦
                    let (greeted, named, matches) = check_first_ok sub first h fine in
                    inr (record {
                      h = h;
                      sub = sub;
                      authed = good;
                      greeted = greeted;
                      named = named;
                      matches = matches;
                      not_aborted = rw fine refl;
                      ran = rw fine (refl, refl);
                    })
              ])
      ]
