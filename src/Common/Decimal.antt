-- ===== src/Common/Decimal.antt =====
-- Python's `str` and `int` on integers: decimal print and parse.
pub mod RoundTrip
use Prim.Native.Nat.{ℕ, zero, suc, ◌+◌, ◌-◌, ◌*◌, ◌/◌, ◌%◌, ◌<◌}
use Prim.Native.Char.{Char, code}
use Prim.Native.String.{String}
use mathlib.Core.Path.{◌≡◌, refl, sym, ap, subst, ◌∙◌}
use mathlib.Core.Logic.{dite, inl, inr}
use mathlib.Core.Bool.{Bool, true, false, not, ◌&&◌}
use mathlib.Core.Option.{Option, none, some}
use mathlib.Core.List.{List, [], ◌∷◌, reverse, reverse-cons, reverse-reverse}
use mathlib.Core.WellFounded.{Acc}
use native.Mathlib.Decide.{dec_lt}
use native.Mathlib.Omega.{arith}
use drone_audio_sensor.Common.Tests.{leb, ◌==◌, if◌then◌else◌, Bool-cases}
use drone_audio_sensor.Common.Lists.{All, All-append}
use drone_audio_sensor.Common.Text.{codes, is_space, lstrip, strip}
use drone_audio_sensor.Common.Int.{ℤ, pos, negsuc}

-- Every number is accessible from below.
pub below : (bound n : ℕ) → n < bound → Acc ◌<◌ n
below zero n h = absurd (omega arith)
below (suc bound) n h = Acc.intro n λ m smaller. below bound m (omega arith)

pub digit : ℕ → Char
digit zero = "0"
digit (suc zero) = "1"
digit (suc (suc zero)) = "2"
digit (suc (suc (suc zero))) = "3"
digit (suc (suc (suc (suc zero)))) = "4"
digit (suc (suc (suc (suc (suc zero))))) = "5"
digit (suc (suc (suc (suc (suc (suc zero)))))) = "6"
digit (suc (suc (suc (suc (suc (suc (suc zero))))))) = "7"
digit (suc (suc (suc (suc (suc (suc (suc (suc zero)))))))) = "8"
digit n = "9"

pub tenth : {n : ℕ} → 0 < n → n / 10 < n
tenth h = omega arith

pub prepend : (n : ℕ) → Acc ◌<◌ n → String → String
prepend n (Acc.intro _ smaller) rest =
    dite (dec_lt 0 n)
      (λ h. prepend (n / 10) (smaller (n / 10) (tenth h)) (String.◌∷◌ (digit (n % 10)) rest))
      (λ _. rest)

pub str_ℕ : ℕ → String
str_ℕ zero = "0"
str_ℕ (suc n) = prepend (suc n) (below (suc (suc n)) (suc n) (omega arith)) ""

-- `str(z)`.
unfoldable pub str_ℤ : ℤ → String
unfolding str_ℕ prepend digit below tenth
str_ℤ (pos n) = str_ℕ n
str_ℤ (negsuc n) = String.◌∷◌ "-" (str_ℕ (suc n))

abbrev pub is_digit : ℕ → Bool
is_digit c = leb b'0' c && leb c b'9'

-- The digits of a number, with single underscores between them; the flag says that a digit must come.
abbrev pub scan : Bool → List ℕ → ℕ → Option ℕ
scan true [] n = none
scan false [] n = some n
scan must (c ∷ s) n =
    let after_digit = scan false s (n * 10 + (c - b'0')) in
    let after_underscore = scan true s n in
    if is_digit c then after_digit else if c == b'_' && not must then after_underscore else none

abbrev pub as_pos : Option ℕ → Option ℤ
as_pos none = none
as_pos (some n) = some (pos n)

abbrev pub as_neg : Option ℕ → Option ℤ
as_neg none = none
as_neg (some zero) = some (pos 0)
as_neg (some (suc n)) = some (negsuc n)

abbrev pub signed : List ℕ → Option ℤ
signed [] = none
signed (c ∷ s) =
    if c == b'-'
    then as_neg (scan true s 0)
    else if c == b'+'
    then as_pos (scan true s 0)
    else as_pos (scan true (c ∷ s) 0)

-- `int(s)` on ASCII digits; `none` is the `ValueError`. The other decimal digits of Unicode, and
-- Python's bound on the number of digits, are left out.
unfoldable pub int : String → Option ℤ
unfolding strip
int s = signed (strip (codes s))
