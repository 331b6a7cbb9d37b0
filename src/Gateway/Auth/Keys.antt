-- ===== src/Gateway/Auth/Keys.antt =====
-- Which devices can authenticate.
use Prim.Native.String.{String}
use mathlib.Core.Path.{subst}
use drone_audio_sensor.Common.{
  [], ◌∷◌, ℕ, ◌+◌, ◌<◌, ◌≡◌, refl, ap, sym, ◌∙◌, ◌⊎◌, inl, inr, true, List, Option, none, some,
  arith, str_eq_iff, Option-cases,
}
use drone_audio_sensor.Common.Results.{Result, ok, err, Result-cases}
use drone_audio_sensor.Lifecycle.{State, text, is_connectable, connectable_states, contains}
use drone_audio_sensor.Lifecycle.Rules.{normalize-text}
use drone_audio_sensor.Gateway.Store.{Device, Table, write}
use drone_audio_sensor.Gateway.Registry.{get_public_key, state_of, present}
use drone_audio_sensor.Gateway.Auth.{
  Jwt, KeyCache, CachedKey, fresh_key, get_key, check_token, validate, kid_of,
}

connectable-text : (s : State) → is_connectable (text s) ≡ contains connectable_states s
unfolding is_connectable
connectable-text s = rw (normalize-text s) refl

-- `Told id pem t` says that the registry vouched for the key at time `t`.
-- Every cached key was vouched for `ttl` before it stops being fresh.
abbrev pub IsHonest : ℕ → (String → String → ℕ → Type 0) → KeyCache → Type 0
IsHonest ttl Told cache =
    (id : String) (c : CachedKey)
    → cache id ≡ some c
    → (t : ℕ) × Told id c.pem t × (c.fresh_until ≡ t + ttl)

pub fresh_key-entry :
    (c : Option CachedKey) (now : ℕ) (pem : String)
    → fresh_key c now ≡ some pem
    → (k : CachedKey) × (c ≡ some k) × (k.pem ≡ pem) × (now < k.fresh_until)
fresh_key-entry none now pem h = cc
fresh_key-entry (some k) now pem h = (k, refl, ground arith, ground arith)

write-entry :
    (cache : KeyCache) (id j : String) (k c : CachedKey)
    → write cache id k j ≡ some c
    → ((id ≡ j) × (k ≡ c)) ⊎ (cache j ≡ some c)
write-entry cache id j k c h = ground (arith, str_eq_iff id j)

kid_of_ok :
    (r : Result String (Option String)) (kid : String) → kid_of r ≡ ok kid → r ≡ ok (some kid)
kid_of_ok (err e) kid h = cc
kid_of_ok (ok none) kid h = cc
kid_of_ok (ok (some k)) kid h = ground arith

check_token_ok :
    (jwt : Jwt) (token : List ℕ) (kid sub : String) (key : Option String)
    → check_token jwt token kid key ≡ ok sub
    → (sub ≡ kid) × ((pem : String) × (key ≡ some pem) × (jwt.decode token pem ≡ ok (some kid)))
unfolding check_token
check_token_ok jwt token kid sub none h = cc
check_token_ok jwt token kid sub (some pem) h = elim (Result-cases (jwt.decode token pem)) [
  | inr (e, bad) ↦ absurd (let h' = rw bad at h in cc)
  | inl (none, good) ↦ absurd (let h' = rw good at h in cc)
  | inl (some s, good) ↦
      let h' = rw good at h in (ground arith, (pem, refl, ground (arith, str_eq_iff s kid)))
]

module _ {F : Type 0} where
  -- The registry vouches for a key: the device has a document with that key, in a state in which
  -- it may connect.
  pub record Vouches (devices : Table (Device F)) (id pem : String) : Type 0 where
    pub doc : Device F
    pub found : devices id ≡ some doc
    pub keyed : present doc.public_key_pem ≡ some pem
    pub allowed : contains connectable_states (state_of doc) ≡ true

  none_case :
      (devices : Table (Device F)) (id pem : String)
      → devices id ≡ none
      → get_public_key devices id ≡ some pem
      → ⊥
  unfolding get_public_key
  none_case devices id pem missing h = ground (arith)

  some_case :
      (devices : Table (Device F)) (id pem : String) (d : Device F)
      → devices id ≡ some d
      → get_public_key devices id ≡ some pem
      → (contains connectable_states (state_of d) ≡ true) × (present d.public_key_pem ≡ some pem)
  unfolding get_public_key
  some_case devices id pem d found h = ground (arith, connectable-text (state_of d))

  cached_case :
      (ttl : ℕ) (cache : KeyCache) (devices : Table (Device F)) (now : ℕ) (id pem p : String)
      → fresh_key (cache id) now ≡ some p
      → (get_key ttl cache devices now id).1 ≡ some pem
      → (fresh_key (cache id) now ≡ some pem) × ((get_key ttl cache devices now id).0 ≡ cache)
  unfolding get_key
  cached_case ttl cache devices now id pem p fresh h = ground arith

  unknown_case :
      (ttl : ℕ) (cache : KeyCache) (devices : Table (Device F)) (now : ℕ) (id pem : String)
      → fresh_key (cache id) now ≡ none
      → get_public_key devices id ≡ none
      → (get_key ttl cache devices now id).1 ≡ some pem
      → ⊥
  unfolding get_key
  unknown_case ttl cache devices now id pem stale unknown h = ground arith

  fetched_case :
      (ttl : ℕ) (cache : KeyCache) (devices : Table (Device F)) (now : ℕ) (id pem p : String)
      → fresh_key (cache id) now ≡ none
      → get_public_key devices id ≡ some p
      → (get_key ttl cache devices now id).1 ≡ some pem
      → (p ≡ pem)
        × ((get_key ttl cache devices now id).0
            ≡ write cache id (record { pem = pem; fresh_until = now + ttl }))
  unfolding get_key
  fetched_case ttl cache devices now id pem p stale key h = ground arith

  get_public_key-Vouches :
      (devices : Table (Device F)) (id pem : String)
      → get_public_key devices id ≡ some pem
      → Vouches devices id pem
  get_public_key-Vouches devices id pem h = elim (Option-cases (devices id)) [
    | inl missing ↦ absurd (none_case devices id pem missing h)
    | inr (d, found) ↦ record {
      doc = d;
      found = found;
      keyed = (some_case devices id pem d found h).1;
      allowed = (some_case devices id pem d found h).0;
    }
  ]

  -- A key that is given out is either fresh in the cache or vouched for by the registry now, and
  -- then it is cached until `now + ttl`. Nothing else in the cache changes.
  abbrev pub Obtained : ℕ → KeyCache → Table (Device F) → ℕ → String → String → KeyCache → Type 0
  Obtained ttl cache devices now id pem cache' =
      ((fresh_key (cache id) now ≡ some pem) × (cache' ≡ cache))
      ⊎ (Vouches devices id pem
          × (cache' ≡ write cache id (record { pem = pem; fresh_until = now + ttl })))

  get_key-Obtained :
      (ttl : ℕ) (cache : KeyCache) (devices : Table (Device F)) (now : ℕ) (id pem : String)
      → (get_key ttl cache devices now id).1 ≡ some pem
      → Obtained ttl cache devices now id pem (get_key ttl cache devices now id).0
  get_key-Obtained ttl cache devices now id pem h = elim (Option-cases (fresh_key (cache id) now)) [
    | inr (p, fresh) ↦ inl (cached_case ttl cache devices now id pem p fresh h)
    | inl stale ↦ elim (Option-cases (get_public_key devices id)) [
      | inl unknown ↦ absurd (unknown_case ttl cache devices now id pem stale unknown h)
      | inr (p, key) ↦
          let (same, wrote) = fetched_case ttl cache devices now id pem p stale key h in
          inr (get_public_key-Vouches devices id pem (key ∙ ap some same), wrote)
    ]
  ]

  header_case :
      (ttl : ℕ) (jwt : Jwt) (cache : KeyCache) (devices : Table (Device F)) (now : ℕ)
      (token : List ℕ) (sub : String)
      → (validate ttl jwt cache devices now token).1 ≡ ok sub
      → (kid : String) × (kid_of (jwt.get_unverified_header token) ≡ ok kid)
        × (check_token jwt token kid (get_key ttl cache devices now kid).1 ≡ ok sub)
        × ((validate ttl jwt cache devices now token).0 ≡ (get_key ttl cache devices now kid).0)
  unfolding validate
  header_case ttl jwt cache devices now [] sub h = cc
  header_case ttl jwt cache devices now (c ∷ token) sub h =
      elim (Result-cases (kid_of (jwt.get_unverified_header (c ∷ token)))) [
        | inr (e, bad) ↦ absurd (ground arith)
        | inl (kid, good) ↦ (kid, good, ground arith, ground arith)
      ]

  -- A token is accepted for a subject only if its header names that subject, and its signature and
  -- claims pass under a key that is obtained for the subject and the claims name it too.
  pub validate_accepts :
      (ttl : ℕ) (jwt : Jwt) (cache : KeyCache) (devices : Table (Device F)) (now : ℕ)
      (token : List ℕ) (sub : String)
      → (validate ttl jwt cache devices now token).1 ≡ ok sub
      → (pem : String) × (jwt.get_unverified_header token ≡ ok (some sub))
        × (jwt.decode token pem ≡ ok (some sub))
        × Obtained ttl cache devices now sub pem (validate ttl jwt cache devices now token).0
  validate_accepts ttl jwt cache devices now token sub h =
      let (kid, named, passed, left) = header_case ttl jwt cache devices now token sub h in
      let (same, (pem, key, signed)) = check_token_ok jwt token kid sub _ passed in
      rw (same, left)
        (pem, kid_of_ok _ kid named, signed, get_key-Obtained ttl cache devices now kid pem key)

  -- What a call leaves in the cache: what was there, with at most one new key, for which the
  -- registry vouches now, until `now + ttl`.
  abbrev pub Kept : ℕ → KeyCache → Table (Device F) → ℕ → KeyCache → Type 0
  Kept ttl cache devices now cache' =
      (cache' ≡ cache)
      ⊎ ((id : String) × (pem : String) × Vouches devices id pem
          × (cache' ≡ write cache id (record { pem = pem; fresh_until = now + ttl })))

  get_key-Kept :
      (ttl : ℕ) (cache : KeyCache) (devices : Table (Device F)) (now : ℕ) (id : String)
      → Kept ttl cache devices now (get_key ttl cache devices now id).0
  unfolding get_key
  get_key-Kept ttl cache devices now id = elim (Option-cases (fresh_key (cache id) now)) [
    | inr (p, fresh) ↦ inl (rw (fresh, get_key) refl)
    | inl stale ↦ elim (Option-cases (get_public_key devices id)) [
      | inl unknown ↦ inl (rw (stale, get_key) (rw unknown refl))
      | inr (p, key) ↦
          inr (id, p, get_public_key-Vouches devices id p key, rw (stale, get_key) (rw key refl))
    ]
  ]

  pub validate-Kept :
      (ttl : ℕ) (jwt : Jwt) (cache : KeyCache) (devices : Table (Device F)) (now : ℕ)
      (token : List ℕ)
      → Kept ttl cache devices now (validate ttl jwt cache devices now token).0
  unfolding validate
  validate-Kept ttl jwt cache devices now [] = inl refl
  validate-Kept ttl jwt cache devices now (c ∷ token) =
      elim (Result-cases (kid_of (jwt.get_unverified_header (c ∷ token)))) [
        | inr (e, bad) ↦ rw bad (inl refl)
        | inl (kid, good) ↦ rw good (get_key-Kept ttl cache devices now kid)
      ]

  pub Kept-IsHonest :
      (ttl : ℕ) (Told Told' : String → String → ℕ → Type 0) (cache cache' : KeyCache)
      (devices : Table (Device F)) (now : ℕ)
      → ((j p : String) (t : ℕ) → Told j p t → Told' j p t)
      → ((j p : String) → Vouches devices j p → Told' j p now)
      → IsHonest ttl Told cache
      → Kept ttl cache devices now cache'
      → IsHonest ttl Told' cache'
  Kept-IsHonest ttl Told Told' cache cache' devices now before told honest (inl same) =
      rw same (λ j c e. let (t, was, until) = honest j c e in (t, before j c.pem t was, until))
  Kept-IsHonest ttl Told Told' cache cache' devices now before told honest
        (inr (id, pem, v, wrote)) =
      rw wrote (λ j c e. elim (write-entry cache id j _ c e) [
        | inl (same, is) ↦ (
          now,
          subst (λ (x : String). Told' x c.pem now) same
              (subst (λ (x : CachedKey). Told' id x.pem now) is (told id pem v)),
          ap (λ (x : CachedKey). x.fresh_until) (sym is),
        )
        | inr old ↦ let (t, was, until) = honest j c old in (t, before j c.pem t was, until)
      ])
