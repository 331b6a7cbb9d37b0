-- ===== src/Gateway/Auth.antt =====
-- `JwtAuth` of backend/gateway/src/gateway/auth.py: a token is checked against the public key of
-- the device that it names, from a cache of limited age or from the registry.
pub mod Keys
use drone_audio_sensor.Common.{
  ℕ, ◌+◌, Bool, true, false, not, List, [], ◌∷◌, Option, none, some, String, if◌then◌else◌, str_eq,
  ltb,
}
use drone_audio_sensor.Common.Results.{Result, ok, err, ◌>>=◌}
use drone_audio_sensor.Gateway.Store.{Device, Table, write}
use drone_audio_sensor.Gateway.Registry.{get_public_key, present}

-- The exceptions of PyJWT that the code tells apart.
pub data JwtError : Type 0 where
  expired invalid_signature invalid_audience invalid_issuer : JwtError
  other : String → JwtError

pub data AuthError : Type 0 where
  missing_token missing_kid token_expired bad_signature bad_audience bad_issuer sub_mismatch :
      AuthError
  unparseable_header : String → AuthError
  unknown_or_revoked : String → AuthError
  invalid_token : String → AuthError

-- PyJWT: the header of a token, unverified, with its `kid`; and the claims that a token carries if
-- it is signed by the key and meets the required claims, with their `sub`.
pub record Jwt : Type 0 where
  pub get_unverified_header : List ℕ → Result String (Option String)
  pub decode : List ℕ → String → Result JwtError (Option String)

-- The key that was cached for a device, and when it stops being fresh.
pub record CachedKey : Type 0 where
  pub pem : String
  pub fresh_until : ℕ

abbrev pub KeyCache : Type 0
KeyCache = Table CachedKey

abbrev pub fresh_key : Option CachedKey → ℕ → Option String
fresh_key none now = none
fresh_key (some c) now = if ltb now c.fresh_until then some c.pem else none

abbrev auth_error : JwtError → AuthError
auth_error expired = token_expired
auth_error invalid_signature = bad_signature
auth_error invalid_audience = bad_audience
auth_error invalid_issuer = bad_issuer
auth_error (other e) = invalid_token e

abbrev decoded : Result JwtError (Option String) → Result AuthError (Option String)
decoded (ok sub) = ok sub
decoded (err e) = err (auth_error e)

abbrev kid_of : Result String (Option String) → Result AuthError String
kid_of (err e) = err (unparseable_header e)
kid_of (ok kid) = elim (present kid) [ none ↦ err missing_kid | some k ↦ ok k ]

abbrev sub_is : Option String → String → Bool
sub_is none kid = false
sub_is (some sub) kid = str_eq sub kid

abbrev is_missing : List ℕ → Bool
is_missing [] = true
is_missing (c ∷ t) = false

-- The tail of `validate`, from the key on. It answers with the subject.
unfoldable pub check_token : Jwt → List ℕ → String → Option String → Result AuthError String
check_token jwt token kid none = err (unknown_or_revoked kid)
check_token jwt token kid (some pem) = do
  sub ← decoded (jwt.decode token pem)
  if sub_is sub kid then ok kid else err sub_mismatch

module _ {F : Type 0} (ttl : ℕ) where
  -- `_get_public_key`: a fresh cached key, or the registry's, which is then cached.
  unfoldable pub get_key : KeyCache → Table (Device F) → ℕ → String → KeyCache × Option String
  unfolding get_public_key
  get_key cache devices now device_id = elim (fresh_key (cache device_id) now) [
    | some pem ↦ (cache, some pem)
    | none ↦ elim (get_public_key devices device_id) [
      | none ↦ (cache, none)
      | some pem ↦ (write cache device_id (record { pem = pem; fresh_until = now + ttl }), some pem)
    ]
  ]

  unfoldable pub validate :
      Jwt → KeyCache → Table (Device F) → ℕ → List ℕ → KeyCache × Result AuthError String
  unfolding get_key check_token
  validate jwt cache devices now token =
      if is_missing token
      then (cache, err missing_token)
      else elim (kid_of (jwt.get_unverified_header token)) [
        | err e ↦ (cache, err e)
        | ok kid ↦
            let (cache', key) = get_key cache devices now kid in
            (cache', check_token jwt token kid key)
      ]

-- `invalidate`: the process forgets the key of a device.
unfoldable pub invalidate : KeyCache → String → KeyCache
invalidate cache device_id j = if str_eq device_id j then none else cache j
