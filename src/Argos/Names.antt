-- ===== src/Argos/Names.antt =====
-- The names of the sensors, back and forth.
use drone_audio_sensor.Common.{ℕ, ◌≡◌, false, List, [], ◌∷◌, ◌++◌, All, ◌==◌}
use drone_audio_sensor.Common.Text.{codes, text_eq}

-- Parts that are joined by a slash.
abbrev pub joined : List ℕ → List (List ℕ) → List ℕ
joined part [] = part
joined part (next ∷ parts) = part ++ 47 ∷ joined next parts

abbrev pub HasNoSlash : List ℕ → Type 0
HasNoSlash = All (λ (c : ℕ). (c == 47) ≡ false)

-- No part is "SH".
abbrev pub HasNoSh : List (List ℕ) → Type 0
HasNoSh = All (λ (part : List ℕ). text_eq part (codes "SH") ≡ false)

abbrev pub join : List (List ℕ) → List ℕ
join [] = []
join (part ∷ parts) = joined part parts
