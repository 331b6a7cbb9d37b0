-- ===== src/Argos/Handlers.antt =====
-- The handlers of the live subscriber that are under way: what one step does to their sums.
use drone_audio_sensor.Common.{
  ℕ, ◌+◌, ◌≤◌, ◌≡◌, refl, ap, ◌∙◌, inl, inr, List, [], ◌∷◌, ◌++◌, Option, none, some, arith,
  Bool-cases, length, length-append,
}
use drone_audio_sensor.Common.Text.{codes, lower}
use drone_audio_sensor.Argos.Stations.{sensor_from_path}
use drone_audio_sensor.Argos.Live.{
  Notification, Handler, waiting, loading, forwarding, ended, attribute_or, ends_with, with_sensor,
  with_object, begin, behind, total, place_of, pick,
}

pub total-append :
    (w : Handler → ℕ) (xs ys : List Handler) → total w (xs ++ ys) ≡ total w xs + total w ys
total-append w [] ys = omega arith
total-append w (x ∷ xs) ys = omega (arith, total-append w xs ys)

-- A handler whose frame, if any, was handed on.
abbrev pub past_of : Handler → ℕ
past_of (waiting n) = 0
past_of (loading n device_id) = 0
past_of (forwarding ok) = 1
past_of (ended e) = 1

with_sensor-place : (n : Notification) (o : Option (List ℕ)) → place_of (with_sensor n o) ≤ 1
with_sensor-place n none = omega arith
with_sensor-place n (some []) = omega arith
with_sensor-place n (some (c ∷ t)) = omega arith

with_object-place : (n : Notification) (o : Option (List ℕ)) → place_of (with_object n o) ≤ 1
with_object-place n none = omega arith
with_object-place n (some id) = elim (Bool-cases (ends_with (codes ".wav") (lower id))) [
  | inl wav ↦ rw wav (with_sensor-place n (sensor_from_path id))
  | inr other ↦ rw other (omega arith)
]

pub begin-place : (n : Notification) → place_of (begin n) ≤ 1
unfolding begin
begin-place n = with_object-place n (attribute_or n.object_id n.object_id_snake)

-- A handler in the list gives way to another one: how the sums change.
abbrev pub Replaced : (before : List Handler) (h h' : Handler) (after hs : List Handler) → Type 0
Replaced before h h' after hs =
    (length (before ++ h' ∷ after) ≡ length hs)
    × (total place_of (before ++ h' ∷ after) + place_of h ≡ total place_of hs + place_of h')
    × (total past_of (before ++ h' ∷ after) + past_of h ≡ total past_of hs + past_of h')

pub replaced :
    (before : List Handler) (h h' : Handler) (after hs : List Handler)
    → hs ≡ before ++ h ∷ after
    → Replaced before h h' after hs
replaced before h h' after hs e = rw e (
  omega (arith, length-append before (h ∷ after), length-append before (h' ∷ after)),
  omega
      (arith, total-append place_of before (h ∷ after), total-append place_of before (h' ∷ after)),
  omega (arith, total-append past_of before (h ∷ after), total-append past_of before (h' ∷ after)),
)

abbrev pub Removed : (before : List Handler) (h : Handler) (after hs : List Handler) → Type 0
Removed before h after hs =
    (length (before ++ after) + 1 ≡ length hs)
    × (total place_of (before ++ after) + place_of h ≡ total place_of hs)
    × (total past_of (before ++ after) + past_of h ≡ total past_of hs)

pub removed :
    (before : List Handler) (h : Handler) (after hs : List Handler)
    → hs ≡ before ++ h ∷ after
    → Removed before h after hs
removed before h after hs e = rw e (
  omega (arith, length-append before (h ∷ after), length-append before after),
  omega (arith, total-append place_of before (h ∷ after), total-append place_of before after),
  omega (arith, total-append past_of before (h ∷ after), total-append past_of before after),
)

abbrev list_of : Option (List Handler × Handler × List Handler) → List Handler
list_of none = []
list_of (some (before, h, after)) = before ++ h ∷ after

pick_later :
    (x : Handler) (hs before : List Handler) (h : Handler) (after : List Handler)
    (o : Option (List Handler × Handler × List Handler))
    → ((b : List Handler) (y : Handler) (a : List Handler) → o ≡ some (b, y, a) → hs ≡ b ++ y ∷ a)
    → behind x o ≡ some (before, h, after)
    → x ∷ hs ≡ before ++ h ∷ after
pick_later x hs before h after none ih e = absurd (cc)
pick_later x hs before h after (some (b, y, a)) ih e =
    ap (λ ys. x ∷ ys) (ih b y a refl) ∙ ap list_of e

pub pick_lem :
    (i : ℕ) (hs before : List Handler) (h : Handler) (after : List Handler)
    → pick i hs ≡ some (before, h, after)
    → hs ≡ before ++ h ∷ after
pick_lem i [] before h after e = absurd (cc)
pick_lem ℕ.zero (x ∷ hs) before h after e = ground arith
pick_lem (ℕ.suc i) (x ∷ hs) before h after e =
    pick_later x hs before h after (pick i hs) (pick_lem i hs) e
