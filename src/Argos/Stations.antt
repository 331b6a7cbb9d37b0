-- ===== src/Argos/Stations.antt =====
-- The names of the Argos sensors: `short_id` of scripts/argos_bridge/stations.py, and
-- `device_id_for` and `_sensor_from_path` of scripts/argos_live_pull/subscriber.py. A text is the
-- list of its code points.
use drone_audio_sensor.Common.{
  ℕ, Bool, true, false, List, [], ◌∷◌, ◌++◌, Option, none, some, if◌then◌else◌, ◌==◌,
}
use drone_audio_sensor.Common.Text.{codes, strip, text_eq}

-- The rest of a text that starts with the prefix.
abbrev pub rest_after : List ℕ → List ℕ → Option (List ℕ)
rest_after [] t = some t
rest_after (c ∷ p) [] = none
rest_after (c ∷ p) (d ∷ t) = let rest = rest_after p t in if c == d then rest else none

abbrev pub or_rest : Option (List ℕ) → List ℕ → List ℕ
or_rest none t = t
or_rest (some rest) t = rest

abbrev pub starts_with : List ℕ → List ℕ → Bool
starts_with p t = elim (rest_after p t) [ none ↦ false | some rest ↦ true ]

unfoldable pub short_id : List ℕ → List ℕ
short_id station_id =
    or_rest (rest_after (codes "ARGOS-SHAW-") station_id)
      (or_rest (rest_after (codes "SIM-SHAW-") station_id) station_id)

-- The sensor's name, with its "SH".
abbrev pub with_prefix : List ℕ → List ℕ
with_prefix sensor = if starts_with (codes "SH") sensor then sensor else codes "SH" ++ sensor

unfoldable pub device_id_for : List ℕ → List ℕ
device_id_for sensor = codes "ARGOS-SHAW-" ++ with_prefix (strip sensor)

-- `text.split(c)`.
abbrev pub onto : ℕ → List (List ℕ) → List (List ℕ)
onto c [] = (c ∷ []) ∷ []
onto c (part ∷ parts) = (c ∷ part) ∷ parts

unfoldable pub split : ℕ → List ℕ → List (List ℕ)
split sep [] = [] ∷ []
split sep (c ∷ t) = let rest = split sep t in if c == sep then [] ∷ rest else onto c rest

abbrev pub first_part : List (List ℕ) → Option (List ℕ)
first_part [] = none
first_part (part ∷ parts) = some part

-- The part after the first "SH".
abbrev pub after_sh : List (List ℕ) → Option (List ℕ)
after_sh [] = none
after_sh (part ∷ parts) =
    let rest = after_sh parts in if text_eq part (codes "SH") then first_part parts else rest

unfoldable pub sensor_from_path : List ℕ → Option (List ℕ)
sensor_from_path object_id = after_sh (split 47 object_id)
