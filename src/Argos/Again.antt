-- ===== src/Argos/Again.antt =====
-- A clip whose location is resolved at two times.
use drone_audio_sensor.Common.{
  ℕ, ◌≡◌, refl, Bool, true, false, ◌&&◌, Option, none, some, if◌then◌else◌, get_or,
}
use drone_audio_sensor.Common.Int.{ℤ, pos}
use drone_audio_sensor.Argos.Locate.{
  ResolvedLocation, Floats, Stamp, Sidecar, SidecarLocation, resolve, resolve_at, resolve_in,
  fallback, guarded, both, parse_ts_ms, from_registry, from_sidecar,
}
use drone_audio_sensor.Argos.Heard.{Place, place_of}

-- The place of a location, where there is one.
abbrev pub place_at : {F : Type 0} → Floats F → Option (ResolvedLocation F) → Option Place
place_at fl none = none
place_at fl (some loc) = some (place_of fl loc)

module _ {F : Type 0} (fl : Floats F) where
  replaced_place :
      (b : Bool) (t u : ℤ) (loc : SidecarLocation F) (p q : F × F)
      → place_of fl (if b then from_registry fl t q else from_sidecar fl t loc p)
        ≡ place_of fl (if b then from_registry fl u q else from_sidecar fl u loc p)
  replaced_place true t u loc p q = refl
  replaced_place false t u loc p q = refl

  guarded-place :
      (snap : Bool) (t u : ℤ) (loc : SidecarLocation F) (p : F × F) (reg : Option (F × F))
      → place_of fl (guarded fl snap t loc p reg) ≡ place_of fl (guarded fl snap u loc p reg)
  guarded-place snap t u loc p none = refl
  guarded-place snap t u loc (lat, lon) (some (reg_lat, reg_lon)) =
      replaced_place (fl.is_far lat lon reg_lat reg_lon && snap) t u loc (lat, lon)
        (reg_lat, reg_lon)

  fallback-place :
      (t u : ℕ) (reg : Option (F × F))
      → place_at fl (fallback fl t reg) ≡ place_at fl (fallback fl u reg)
  fallback-place t u none = refl
  fallback-place t u (some p) = refl

  resolve_at-place :
      (snap : Bool) (t u : ℕ) (start : Stamp F) (loc : SidecarLocation F) (o reg : Option (F × F))
      → place_at fl (resolve_at fl snap t start loc o reg)
        ≡ place_at fl (resolve_at fl snap u start loc o reg)
  resolve_at-place snap t u start loc none reg = fallback-place t u reg
  resolve_at-place snap t u start loc (some p) reg = λ i. some (
      guarded-place snap (get_or (parse_ts_ms fl start) (pos t))
        (get_or (parse_ts_ms fl start) (pos u)) loc p reg i)

  resolve_in-place :
      (snap : Bool) (t u : ℕ) (start : Stamp F) (o : Option (SidecarLocation F))
      (reg : Option (F × F))
      → place_at fl (resolve_in fl snap t start o reg)
        ≡ place_at fl (resolve_in fl snap u start o reg)
  resolve_in-place snap t u start none reg = fallback-place t u reg
  resolve_in-place snap t u start (some loc) reg =
      resolve_at-place snap t u start loc (both fl loc.latitude loc.longitude) reg

  -- A clip has one place, whenever it is resolved.
  pub resolve-place :
      (snap : Bool) (t u : ℕ) (o : Option (Sidecar F)) (reg : Option (F × F))
      → place_at fl (resolve fl snap t o reg) ≡ place_at fl (resolve fl snap u o reg)
  unfolding resolve
  resolve-place snap t u none reg = fallback-place t u reg
  resolve-place snap t u (some sc) reg = resolve_in-place snap t u sc.start_time sc.location reg
