-- ===== src/Inference/Stream/Examples.antt =====
-- Tests of the consumer on small streams. UTF-8 stands here for one number to each character.
use Prim.Native.Nat.{Ordering, compare}
use Prim.Native.Char.{Char, char, code, IsLt, IsScalar}
use native.Mathlib.Decide.{dec_lt}
use drone_audio_sensor.Common.{
  ℕ, ◌+◌, ◌≡◌, refl, ap, Bool, true, false, List, [], ◌∷◌, Option, none, some, String,
}
use drone_audio_sensor.Common.Int.{pos}
use drone_audio_sensor.Common.Decimal.{str_ℤ, int}
use drone_audio_sensor.Common.Text.{codes, strip}
use drone_audio_sensor.Gateway.Store.{FrameEntry}
use drone_audio_sensor.Gateway.Fixtures.{
  config, readings, phone, world, hello, two_frames, session_state_active,
}
use drone_audio_sensor.Gateway.Session.Frames.{audio_frames}
use drone_audio_sensor.Gateway.Stream.{run_session}
use drone_audio_sensor.Inference.Stream.{
  Utf8, stored, get_str, int_or, frame_of, decode_frame, Delivery, Read, raised, entries, Consumer,
  busygroup, run, Handler,
}
use drone_audio_sensor.Inference.Stream.Decode.{IsUtf8, frame_with, decode_frame-stored}
use drone_audio_sensor.Inference.Stream.Loop.{delivered, fold, frames_of, ids_of, run_lem}
use drone_audio_sensor.Inference.Stream.Pipeline.{decoded, heard, session_heard}

abbrev Both : Ordering → Ordering → Type 0
Both Ordering.lt o = IsLt o
Both Ordering.eq _ = ⊥
Both Ordering.gt _ = ⊥

abbrev Scalar : Ordering → Ordering → Ordering → Type 0
Scalar Ordering.lt _ _ = Unit
Scalar Ordering.eq o p = Both o p
Scalar Ordering.gt o p = Both o p

abbrev less : (o : Ordering) → Option (IsLt o)
less Ordering.lt = some tt
less Ordering.eq = none
less Ordering.gt = none

abbrev above : (o p : Ordering) → Option (Both o p)
above Ordering.lt p = less p
above Ordering.eq p = none
above Ordering.gt p = none

abbrev scalar_if : (o p q : Ordering) → Option (Scalar o p q)
scalar_if Ordering.lt p q = some tt
scalar_if Ordering.eq p q = above p q
scalar_if Ordering.gt p q = above p q

less_lem : (o : Ordering) (h : IsLt o) → less o ≡ some h
less_lem Ordering.lt h = refl
less_lem Ordering.eq h = absurd h
less_lem Ordering.gt h = absurd h

above_lem : (o p : Ordering) (h : Both o p) → above o p ≡ some h
above_lem Ordering.lt p h = less_lem p h
above_lem Ordering.eq p h = absurd h
above_lem Ordering.gt p h = absurd h

scalar_if_lem : (o p q : Ordering) (h : Scalar o p q) → scalar_if o p q ≡ some h
scalar_if_lem Ordering.lt p q h = refl
scalar_if_lem Ordering.eq p q h = above_lem p q h
scalar_if_lem Ordering.gt p q h = above_lem p q h

abbrev char_if : (n : ℕ) → Option (IsScalar n) → Option Char
char_if n none = none
char_if n (some h) = some (char n h)

abbrev to_char : ℕ → Option Char
to_char n = char_if n (scalar_if (compare n 55296) (compare 57343 n) (compare n 1114112))

to_char_lem : (c : Char) → to_char (code c) ≡ some c
to_char_lem (char n h) =
    ap (char_if n) (scalar_if_lem (compare n 55296) (compare 57343 n) (compare n 1114112) h)

abbrev cons_if : Option Char → Option String → Option String
cons_if none s = none
cons_if (some c) none = none
cons_if (some c) (some s) = some (String.◌∷◌ c s)

abbrev of_codes : List ℕ → Option String
of_codes [] = some String.[]
of_codes (n ∷ s) = cons_if (to_char n) (of_codes s)

abbrev simple : Utf8
simple = record { encode = codes; decode = of_codes }

simple-IsUtf8 : IsUtf8 simple
simple-IsUtf8 String.[] = refl
simple-IsUtf8 (String.◌∷◌ c s) = rw (to_char_lem c, simple-IsUtf8 s) refl

abbrev sample : FrameEntry
sample = record {
  d = "d1";
  ses = "s1";
  s = 1204;
  t = pos 1700000000000;
  r = pos 48000;
  l = "north";
  p = 7 ∷ 8 ∷ [];
  c = some "flac";
}

decode_frame-stored_example :
    decode_frame simple (stored simple sample) ≡ frame_with sample sample.p
decode_frame-stored_example = decode_frame-stored simple simple-IsUtf8 sample

session_heard_example :
    decoded simple
      (run_session (config false) readings (world (phone "active")) hello two_frames none).0.frames
    ≡ heard "d1" "s1" "north" (audio_frames two_frames)
session_heard_example =
    session_heard simple simple-IsUtf8 (config false) readings (world (phone "active")) hello
      two_frames none session_state_active (refl, (refl, tt))

-- It counts its calls, and raises on the mark `false`.
abbrev counting : Handler Bool ℕ
counting ok f n = (n + 1, ok)

abbrev delivery : ℕ → Bool → List ℕ → Delivery Bool
delivery id ok payload = record {
  entry_id = id;
  fields = stored simple (record sample { p = payload });
  around = ok;
  acks = true;
}

abbrev reads : List (Read Bool)
reads =
    raised
    ∷ entries (delivery 1 true (5 ∷ []) ∷ delivery 2 true [] ∷ [])
    ∷ entries []
    ∷ entries (delivery 3 false (5 ∷ []) ∷ delivery 4 true (6 ∷ []) ∷ [])
    ∷ []

abbrev fresh : Consumer ℕ
fresh = record { handled = 0; acked = [] }

run_lem_example :
    run simple counting busygroup reads fresh
    ≡ some (
      record {
        handled = fold simple counting (frames_of simple counting (delivered reads)) 0;
        acked = ids_of simple counting (delivered reads) 0;
      },
      true,
    )
run_lem_example =
    run_lem simple counting busygroup reads fresh (cc)
      ((λ h. refl), ((λ h. refl), ((λ h. refl), ((λ h. refl), tt))))

-- Of the four entries the third is lost: it was handed to the handler, which raised, and its id is
-- not acknowledged.
acknowledged : ids_of simple counting (delivered reads) 0 ≡ 1 ∷ 2 ∷ 4 ∷ []
unfolding decode_frame stored frame_of get_str int_or int str_ℤ strip dec_lt
acknowledged = refl
