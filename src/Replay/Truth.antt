-- ===== src/Replay/Truth.antt =====
-- `load_ground_truth` of scripts/replay_fleet.py: the flybys of a clip, from one of three schemas. `F`
-- is the type of floats; the numbers of the file are floats, and its labels are a list.
use drone_audio_sensor.Common.{ℕ, ◌+◌, Bool, true, false, List, [], ◌∷◌, map, Option, none, some}

pub record Flyby (F : Type 0) : Type 0 where
  pub start_s : F
  pub end_s : F
  pub cpa_s : F

-- An entry of `flybys`, which may lack its `cpa_s`.
pub record Entry (F : Type 0) : Type 0 where
  pub start_s : F
  pub end_s : F
  pub cpa_s : Option F

-- The file: a key that is missing holds an empty list, or none. `window` is a list of two numbers.
pub record Truth (F : Type 0) : Type 0 where
  pub flybys : List (Entry F)
  pub drone_present_window_s : Option (F × F)
  pub flyby_cpa_second : Option F
  pub per_second : List Bool
  pub drone_present : List Bool
  pub per_second_label : List Bool

-- The runs of labels that hold, from the second `i` on: whether a run is open, and since when.
abbrev pub runs_from : Bool → ℕ → ℕ → List Bool → List (ℕ × ℕ)
runs_from true run_start i [] = (run_start, i) ∷ []
runs_from false run_start i [] = []
runs_from true run_start i (true ∷ labels) = runs_from true run_start (i + 1) labels
runs_from false run_start i (true ∷ labels) = runs_from true i (i + 1) labels
runs_from true run_start i (false ∷ labels) =
    (run_start, i) ∷ runs_from false run_start (i + 1) labels
runs_from false run_start i (false ∷ labels) = runs_from false run_start (i + 1) labels

unfoldable pub runs : List Bool → List (ℕ × ℕ)
runs labels = runs_from false 0 0 labels

-- `a or b` on lists.
abbrev pub or_labels : List Bool → List Bool → List Bool
or_labels [] b = b
or_labels (x ∷ a) b = x ∷ a

-- What is used of floats: a whole number, half of one, and the middle of two.
module _ {F : Type 0} (of_ℕ half : ℕ → F) (middle : F → F → F) where
  abbrev pub cpa_or : Option F → F → F → F
  cpa_or none start_s end_s = middle start_s end_s
  cpa_or (some cpa_s) start_s end_s = cpa_s

  abbrev pub of_entry : Entry F → Flyby F
  of_entry e = record {
    start_s = e.start_s;
    end_s = e.end_s;
    cpa_s = cpa_or e.cpa_s e.start_s e.end_s;
  }

  abbrev pub of_run : ℕ × ℕ → Flyby F
  of_run (a, b) = record { start_s = of_ℕ a; end_s = of_ℕ b; cpa_s = half (a + b) }

  -- An exception is none.
  abbrev pub of_labels : List Bool → Option (List (Flyby F))
  of_labels [] = none
  of_labels (x ∷ labels) = some (map of_run (runs (x ∷ labels)))

  abbrev pub of_window : Option (F × F) → Truth F → Option (List (Flyby F))
  of_window (some (a, b)) t =
      some (record { start_s = a; end_s = b; cpa_s = cpa_or t.flyby_cpa_second a b } ∷ [])
  of_window none t =
      of_labels (or_labels (or_labels t.per_second t.drone_present) t.per_second_label)

  abbrev pub of_flybys : List (Entry F) → Truth F → Option (List (Flyby F))
  of_flybys [] t = of_window t.drone_present_window_s t
  of_flybys (e ∷ flybys) t = some (map of_entry (e ∷ flybys))

  unfoldable pub load_ground_truth : Truth F → Option (List (Flyby F))
  load_ground_truth t = of_flybys t.flybys t
