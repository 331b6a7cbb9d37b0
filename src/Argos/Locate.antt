-- ===== src/Argos/Locate.antt =====
-- `LocationResolver` of scripts/argos_bridge/bridge.py: where a clip was recorded. `F` is the type of
-- numbers; the distance to the registry's position, the rounding, the conversion to an integer, and
-- the reader of ISO dates are operations of it. A sidecar is a JSON object whose `altitude` is no text.
use drone_audio_sensor.Common.{
  ℕ, Bool, true, false, not, ◌&&◌, ◌||◌, Option, none, some, String, if◌then◌else◌, get_or,
}
use drone_audio_sensor.Common.Int.{ℤ, pos, eq_ℤ}

-- `start_time`: a finite number, a text, or nothing of these.
pub data Stamp (F : Type 0) : Type 0 where
  number : F → Stamp F
  date : String → Stamp F
  neither : Stamp F

-- The object `location`; a coordinate that is no number is `none`.
pub record SidecarLocation (F : Type 0) : Type 0 where
  pub latitude : Option F
  pub longitude : Option F
  pub altitude : Option F
  pub is_exact : Bool

-- A `location` that is no object is `none`.
pub record Sidecar (F : Type 0) : Type 0 where
  pub location : Option (SidecarLocation F)
  pub start_time : Stamp F

pub data Provider : Type 0 where
  sidecar_gps registry : Provider

pub data LocationStatus : Type 0 where
  current manual : LocationStatus

pub record ResolvedLocation (F : Type 0) : Type 0 where
  pub latitude : F
  pub longitude : F
  pub altitude_m : F
  pub timestamp_ms : ℤ
  pub provider : Provider
  pub status : LocationStatus
  pub accuracy_m : Option F

-- What is used of numbers and of the library of dates. `is_far` is `haversine_km(…) > SANITY_DIST_KM`,
-- `is_seconds` is `value < 1e11`, `int` is `int(value)`, and `int_thousandfold` is `int(value * 1000)`.
pub record Floats (F : Type 0) : Type 0 where
  pub zero : F
  pub is_zero : F → Bool
  pub is_far : F → F → F → F → Bool
  pub round_7 : F → ℤ
  pub round_3 : F → ℤ
  pub is_seconds : F → Bool
  pub int : F → ℤ
  pub int_thousandfold : F → ℤ
  pub from_iso_ms : String → Option ℤ

abbrev pub same_provider : Provider → Provider → Bool
same_provider sidecar_gps sidecar_gps = true
same_provider registry registry = true
same_provider p q = false

module _ {F : Type 0} (fl : Floats F) where
  -- `_parse_ts_ms`.
  abbrev pub parse_ts_ms : Stamp F → Option ℤ
  parse_ts_ms (number n) = some (if fl.is_seconds n then fl.int_thousandfold n else fl.int n)
  parse_ts_ms (date s) = fl.from_iso_ms s
  parse_ts_ms neither = none

  -- The position of the sidecar, where both coordinates are there and are not both 0.
  abbrev pub both : Option F → Option F → Option (F × F)
  both (some lat) (some lon) = if fl.is_zero lat && fl.is_zero lon then none else some (lat, lon)
  both lat lon = none

  abbrev pub from_registry : ℤ → F × F → ResolvedLocation F
  from_registry timestamp_ms (lat, lon) = record {
    latitude = lat;
    longitude = lon;
    altitude_m = fl.zero;
    timestamp_ms = timestamp_ms;
    provider = registry;
    status = manual;
    accuracy_m = none;
  }

  -- `float(sc_loc.get("altitude") or 0.0)`.
  abbrev pub or_zero : Option F → F
  or_zero none = fl.zero
  or_zero (some x) = if fl.is_zero x then fl.zero else x

  abbrev pub from_sidecar : ℤ → SidecarLocation F → F × F → ResolvedLocation F
  from_sidecar timestamp_ms loc (lat, lon) = record {
    latitude = lat;
    longitude = lon;
    altitude_m = or_zero loc.altitude;
    timestamp_ms = timestamp_ms;
    provider = sidecar_gps;
    status = current;
    accuracy_m = if loc.is_exact then some fl.zero else none;
  }

  -- The guard: a position that is far from the registry's is replaced where `snap` is set.
  abbrev pub guarded : Bool → ℤ → SidecarLocation F → F × F → Option (F × F) → ResolvedLocation F
  guarded snap timestamp_ms loc p none = from_sidecar timestamp_ms loc p
  guarded snap timestamp_ms loc (lat, lon) (some (reg_lat, reg_lon)) =
      if fl.is_far lat lon reg_lat reg_lon && snap
      then from_registry timestamp_ms (reg_lat, reg_lon)
      else from_sidecar timestamp_ms loc (lat, lon)

  abbrev pub fallback : ℕ → Option (F × F) → Option (ResolvedLocation F)
  fallback now none = none
  fallback now (some p) = some (from_registry (pos now) p)

  -- From the position that the sidecar gives, if any.
  abbrev pub resolve_at :
      Bool
      → ℕ
      → Stamp F
      → SidecarLocation F
      → Option (F × F)
      → Option (F × F)
      → Option (ResolvedLocation F)
  resolve_at snap now start loc none reg = fallback now reg
  resolve_at snap now start loc (some p) reg =
      some (guarded snap (get_or (parse_ts_ms start) (pos now)) loc p reg)

  abbrev pub resolve_in :
      Bool → ℕ → Stamp F → Option (SidecarLocation F) → Option (F × F) → Option (ResolvedLocation F)
  resolve_in snap now start none reg = fallback now reg
  resolve_in snap now start (some loc) reg =
      resolve_at snap now start loc (both loc.latitude loc.longitude) reg

  -- `resolve`, with the registry's entry for the station.
  unfoldable pub resolve :
      Bool → ℕ → Option (Sidecar F) → Option (F × F) → Option (ResolvedLocation F)
  resolve snap now none reg = fallback now reg
  resolve snap now (some sc) reg = resolve_in snap now sc.start_time sc.location reg

  -- `_loc_changed`.
  unfoldable pub loc_changed : ResolvedLocation F → ResolvedLocation F → Bool
  loc_changed a b =
      not (eq_ℤ (fl.round_7 a.latitude) (fl.round_7 b.latitude))
      || not (eq_ℤ (fl.round_7 a.longitude) (fl.round_7 b.longitude))
      || not (eq_ℤ (fl.round_3 a.altitude_m) (fl.round_3 b.altitude_m))
      || not (same_provider a.provider b.provider)
