-- ===== src/Argos/Heard.antt =====
-- What a listener makes of a station's messages who keeps the last location that was sent.
use drone_audio_sensor.Common.{
  ℕ, ◌+◌, ◌≡◌, refl, sym, ap, ◌∙◌, inl, inr, Bool, true, false, not, ◌||◌, List, [], ◌∷◌, ◌++◌,
  Option, none, some, arith, Bool-cases,
}
use drone_audio_sensor.Common.Int.{ℤ, eq_ℤ, eq_ℤ_sound}
use drone_audio_sensor.Argos.Locate.{
  Provider, sidecar_gps, registry, ResolvedLocation, Floats, same_provider, loc_changed,
}
use drone_audio_sensor.Argos.Bridge.{
  Message, handshake, location_update, audio_frame, Producer, put, moved, locate,
}

-- A location, as far as the bridge tells two apart.
pub record Place : Type 0 where
  pub latitude : ℤ
  pub longitude : ℤ
  pub altitude : ℤ
  pub provider : Provider

pub record Frame : Type 0 where
  pub sequence : ℕ
  pub payload : List ℕ
  pub rate : ℕ
  pub timestamp_ms : ℤ
  pub place : Option Place

pub record Listener : Type 0 where
  pub place : Option Place
  pub frames : List Frame

abbrev pub nothing_yet : Listener
nothing_yet = record { place = none; frames = [] }

module _ {F : Type 0} (fl : Floats F) where
  abbrev pub place_of : ResolvedLocation F → Place
  place_of loc = record {
    latitude = fl.round_7 loc.latitude;
    longitude = fl.round_7 loc.longitude;
    altitude = fl.round_3 loc.altitude_m;
    provider = loc.provider;
  }

  abbrev pub hear : Message F → Listener → Listener
  hear (handshake loc) l = record l { place = some (place_of loc) }
  hear (location_update loc) l = record l { place = some (place_of loc) }
  hear (audio_frame n payload rate t) l = record l {
    frames =
        l.frames
        ++ record {
          sequence = n;
          payload = payload;
          rate = rate;
          timestamp_ms = t;
          place = l.place;
        }
          ∷ [];
  }

  abbrev pub heard : List (Message F) → Listener → Listener
  heard [] l = l
  heard (m ∷ ms) l = heard ms (hear m l)

  pub heard-put :
      (ms : List (Message F)) (m : Message F) (l : Listener)
      → heard (ms ++ m ∷ []) l ≡ hear m (heard ms l)
  heard-put [] m l = refl
  heard-put (x ∷ ms) m l = heard-put ms m (hear x l)

  -- The frame of a clip, with the clip's own location.
  abbrev pub frame_of : ℕ → Option (List ℕ × ℕ) → Option (ResolvedLocation F) → List Frame
  frame_of n audio none = []
  frame_of n none (some loc) = []
  frame_of n (some (payload, rate)) (some loc) =
      record {
        sequence = n + 1;
        payload = payload;
        rate = rate;
        timestamp_ms = loc.timestamp_ms;
        place = some (place_of loc);
      }
      ∷ []

  same_provider_sound : (p q : Provider) → same_provider p q ≡ true → p ≡ q
  same_provider_sound sidecar_gps sidecar_gps h = refl
  same_provider_sound registry registry h = refl
  same_provider_sound sidecar_gps registry h = absurd (cc)
  same_provider_sound registry sidecar_gps h = absurd (cc)

  quiet :
      (a b c d : Bool)
      → (not a || not b || not c || not d) ≡ false
      → (a ≡ true) × (b ≡ true) × (c ≡ true) × (d ≡ true)
  quiet a b c d h = ground arith

  -- Two locations without a change between them are one place.
  loc_changed-place_of :
      (a b : ResolvedLocation F) → loc_changed fl a b ≡ false → place_of a ≡ place_of b
  unfolding loc_changed
  loc_changed-place_of a b h =
      let (lat, lon, alt, by) =
        quiet (eq_ℤ (fl.round_7 a.latitude) (fl.round_7 b.latitude))
          (eq_ℤ (fl.round_7 a.longitude) (fl.round_7 b.longitude))
          (eq_ℤ (fl.round_3 a.altitude_m) (fl.round_3 b.altitude_m))
          (same_provider a.provider b.provider) h in
      λ i. record {
        latitude = eq_ℤ_sound (fl.round_7 a.latitude) (fl.round_7 b.latitude) lat i;
        longitude = eq_ℤ_sound (fl.round_7 a.longitude) (fl.round_7 b.longitude) lon i;
        altitude = eq_ℤ_sound (fl.round_3 a.altitude_m) (fl.round_3 b.altitude_m) alt i;
        provider = same_provider_sound a.provider b.provider by i;
      }

  -- The listener stands where the last location is, with these frames.
  abbrev pub Hears : Producer F → List Frame → Type 0
  Hears p fs =
      heard p.queue nothing_yet ≡ record { place = some (place_of p.last_loc); frames = fs }

  pub put-Hears-audio :
      (p : Producer F) (fs : List Frame) (n : ℕ) (payload : List ℕ) (rate : ℕ) (t : ℤ)
      → Hears p fs
      → heard (put (audio_frame n payload rate t) p).queue nothing_yet ≡ record {
        place = some (place_of p.last_loc);
        frames =
            fs
            ++ record {
              sequence = n;
              payload = payload;
              rate = rate;
              timestamp_ms = t;
              place = some (place_of p.last_loc);
            }
              ∷ [];
      }
  put-Hears-audio p fs n payload rate t h =
      heard-put p.queue (audio_frame n payload rate t) nothing_yet
      ∙ ap (hear (audio_frame n payload rate t)) h

  module _ (snap : Bool) (reg : Option (F × F)) where
    moved-Hears :
        (loc : ResolvedLocation F) (p : Producer F) (fs : List Frame)
        → Hears p fs
        → Hears (moved fl snap reg loc p) fs
    moved-Hears loc p fs h =
        heard-put p.queue (location_update loc) nothing_yet ∙ ap (hear (location_update loc)) h

    -- After the location of a clip was looked at, the listener stands at the clip's place.
    pub locate-Hears :
        (is_first : Bool) (loc : ResolvedLocation F) (p : Producer F) (fs : List Frame)
        → ((is_first ≡ true) → place_of loc ≡ place_of p.last_loc)
        → Hears p fs
        → Hears (locate fl snap reg is_first loc p) fs
          × (place_of (locate fl snap reg is_first loc p).last_loc ≡ place_of loc)
    locate-Hears true loc p fs first h = (h, sym (first refl))
    locate-Hears false loc p fs first h = elim (Bool-cases (loc_changed fl loc p.last_loc)) [
      | inl changed ↦ rw changed (moved-Hears loc p fs h, refl)
      | inr same ↦ rw same (h, sym (loc_changed-place_of loc p.last_loc same))
    ]
