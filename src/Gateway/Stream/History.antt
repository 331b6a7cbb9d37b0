-- ===== src/Gateway/Stream/History.antt =====
-- Who gets a session, over the life of the process that holds the cache of keys.
use mathlib.Core.Path.{subst}
use drone_audio_sensor.Common.{
  ℕ, ◌+◌, ◌<◌, ◌≡◌, refl, sym, ◌∙◌, ◌⊎◌, inl, inr, true, Bool-cases, List, [], ◌∷◌, Option, none,
  some, String, arith, str_eq,
}
use drone_audio_sensor.Common.Results.{ok, Result-cases}
use drone_audio_sensor.Gateway.Store.{World, Handshake, Payload, handshake}
use drone_audio_sensor.Gateway.Auth.{Jwt, KeyCache, invalidate, validate}
use drone_audio_sensor.Gateway.Auth.Keys.{
  IsHonest, Kept, Kept-IsHonest, Obtained, Vouches, fresh_key-entry, validate-Kept,
  validate_accepts,
}
use drone_audio_sensor.Gateway.Session.{Fault, Arrival}
use drone_audio_sensor.Gateway.Admission.{
  Config, authenticate, check_first, extract_bearer, token_of,
}
use drone_audio_sensor.Gateway.Stream.{Readings, Reply, stream_audio}
use drone_audio_sensor.Gateway.Stream.Gate.{stream_audio_cases, authenticate_ok, same_subject}

-- What one call of `StreamAudio` reads: the clocks, the store as it finds it, the metadata, the first
-- message, the others, and the end of the stream.
pub record Call (F : Type 0) : Type 0 where
  pub readings : Readings
  pub world : World F
  pub metadata : List (String × String)
  pub first : Option (Payload F)
  pub arrivals : List (Arrival F)
  pub end : Option Fault

-- What happens to the cache: a call, accepted or refused, or `invalidate` on a device.
pub data Event (F : Type 0) : Type 0 where
  called : Call F → Event F
  invalidated : String → Event F

module _ {F : Type 0} (cfg : Config) where
  abbrev pub serve_call : Call F → KeyCache → Reply F
  serve_call c cache = stream_audio cfg c.readings c.world cache c.metadata c.first c.arrivals c.end

  abbrev pub after_event : Event F → KeyCache → KeyCache
  after_event (called c) cache = (serve_call c cache).cache
  after_event (invalidated id) cache = invalidate cache id

  -- The cache after the events, which stand with the latest first; the process starts without keys.
  abbrev pub cache_after : List (Event F) → KeyCache
  cache_after [] id = none
  cache_after (e ∷ es) id = after_event e (cache_after es) id

-- In one of the calls, at time `t`, the registry vouched for the key.
abbrev pub VouchedIn : {F : Type 0} → List (Event F) → String → String → ℕ → Type 0
VouchedIn [] id pem t = ⊥
VouchedIn (called c ∷ es) id pem t =
    (Vouches c.world.devices id pem × (t ≡ c.readings.monotonic)) ⊎ VouchedIn es id pem t
VouchedIn (invalidated j ∷ es) id pem t = VouchedIn es id pem t

invalidate-IsHonest :
    (ttl : ℕ) (Told : String → String → ℕ → Type 0) (cache : KeyCache) (id : String)
    → IsHonest ttl Told cache
    → IsHonest ttl Told (invalidate cache id)
unfolding invalidate
invalidate-IsHonest ttl Told cache id honest j k e = elim (Bool-cases (str_eq id j)) [
  | inl same ↦ absurd (let e' = rw same at e in cc)
  | inr other ↦ honest j k (rw other at e)
]

module _ {F : Type 0} (cfg : Config) (jwt : Jwt) (ttl : ℕ) (on : cfg.require_auth ≡ true)
    (set : cfg.auth ≡ some (jwt, ttl)) where
  authenticate_cache :
      (c : Call F) (cache : KeyCache)
      → (authenticate cfg cache c.world.devices c.readings.monotonic c.metadata).0
        ≡ (validate ttl jwt cache c.world.devices c.readings.monotonic
            (token_of (extract_bearer c.metadata))).0
  unfolding authenticate
  authenticate_cache c cache = rw (on, set) refl

  serve_call_cache :
      (c : Call F) (cache : KeyCache)
      → (serve_call cfg c cache).cache
        ≡ (authenticate cfg cache c.world.devices c.readings.monotonic c.metadata).0
  unfolding stream_audio
  serve_call_cache c cache =
      elim (Result-cases
        (authenticate cfg cache c.world.devices c.readings.monotonic c.metadata).1) [
          | inr (a, bad) ↦ rw (bad, stream_audio) refl
          | inl (sub, good) ↦
              rw (good, stream_audio)
                (elim (Result-cases (check_first sub c.first)) [
                  | inr (a, bad) ↦ rw bad refl
                  | inl (h, fine) ↦ rw fine refl
                ])
        ]

  serve_call-Kept :
      (c : Call F) (cache : KeyCache)
      → Kept ttl cache c.world.devices c.readings.monotonic (serve_call cfg c cache).cache
  serve_call-Kept c cache =
      subst (Kept ttl cache c.world.devices c.readings.monotonic)
        (sym (serve_call_cache c cache ∙ authenticate_cache c cache))
        (validate-Kept ttl jwt cache c.world.devices c.readings.monotonic
          (token_of (extract_bearer c.metadata)))

  -- Every cached key was vouched for in a call, `ttl` before it stops being fresh.
  cache_after-IsHonest : (es : List (Event F)) → IsHonest ttl (VouchedIn es) (cache_after cfg es)
  cache_after-IsHonest [] = λ id c e. absurd (cc)
  cache_after-IsHonest (called c ∷ es) =
      Kept-IsHonest ttl (VouchedIn es) (VouchedIn (called c ∷ es)) (cache_after cfg es) _
        c.world.devices c.readings.monotonic (λ j p t was. inr was) (λ j p v. inl (v, refl))
        (cache_after-IsHonest es) (serve_call-Kept c (cache_after cfg es))
  cache_after-IsHonest (invalidated id ∷ es) =
      invalidate-IsHonest ttl (VouchedIn es) (cache_after cfg es) id (cache_after-IsHonest es)

  key-origin :
      (es : List (Event F)) (c : Call F) (id pem : String) (cache' : KeyCache)
      → Obtained ttl (cache_after cfg es) c.world.devices c.readings.monotonic id pem cache'
      → Vouches c.world.devices id pem
        ⊎ ((t : ℕ) × VouchedIn es id pem t × (c.readings.monotonic < t + ttl))
  key-origin es c id pem cache' (inr (v, wrote)) = inl v
  key-origin es c id pem cache' (inl (fresh, same)) =
      let (k, e, p, soon) =
        fresh_key-entry (cache_after cfg es id) c.readings.monotonic pem fresh in
      let (t, was, until) = cache_after-IsHonest es id k e in
      inr (t, subst (λ x. VouchedIn es id x t) p was, omega arith)

  abbrev Held : List (Event F) → Call F → String → String → Type 0
  Held es c id pem =
      (jwt.decode (token_of (extract_bearer c.metadata)) pem ≡ ok (some id))
      × (Vouches c.world.devices id pem
          ⊎ ((t : ℕ) × VouchedIn es id pem t × (c.readings.monotonic < t + ttl)))

  -- With authentication on, over any calls of `StreamAudio`, accepted and refused, and any forgotten
  -- keys, from a process without cached keys: a call that is not aborted serves a handshake for a
  -- device that the token names. PyJWT accepted the token for that device under a key for which the
  -- registry vouched - the device was known, had that key, and was in a state that may connect - in
  -- this call, or in an earlier one, less than the cache's `ttl` before.
  pub stream_audio_authenticated :
      (es : List (Event F)) (c : Call F)
      → (serve_call cfg c (cache_after cfg es)).aborted ≡ none
      → (h : Handshake F) × (pem : String) × (c.first ≡ some (handshake h))
        × (jwt.decode (token_of (extract_bearer c.metadata)) pem ≡ ok (some h.device_id))
        × (Vouches c.world.devices h.device_id pem
            ⊎ ((t : ℕ) × VouchedIn es h.device_id pem t × (c.readings.monotonic < t + ttl)))
  stream_audio_authenticated es c accepted =
      let cache = cache_after cfg es in
      let now = c.readings.monotonic in
      elim (stream_audio_cases cfg c.readings c.world cache c.metadata c.first c.arrivals c.end) [
        | inl (a, aborted, _, _) ↦ absurd (cc)
        | inr served ↦
            let (id, subject, valid) =
              authenticate_ok cfg cache c.world.devices now c.metadata served.sub jwt ttl on set
                served.authed in
            let (pem, _, signed, obtained) =
              validate_accepts ttl jwt cache c.world.devices now _ id valid in
            let same : id ≡ served.h.device_id =
              same_subject id served.h.device_id (rw subject at served.matches) in
            let held : Held es c id pem = (signed, key-origin es c id pem _ obtained) in
            let (decoded, vouched) = subst (λ (x : String). Held es c x pem) same held in
            (served.h, pem, served.greeted, decoded, vouched)
      ]
