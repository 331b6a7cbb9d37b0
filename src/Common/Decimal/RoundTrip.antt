-- ===== src/Common/Decimal/RoundTrip.antt =====
-- An integer that is printed is read back.
use Prim.Native.Nat.{ℕ, zero, suc, ◌+◌, ◌-◌, ◌*◌, ◌/◌, ◌%◌, ◌<◌}
use Prim.Native.Char.{code}
use Prim.Native.String.{String}
use mathlib.Core.Path.{◌≡◌, refl, sym, ap, subst, ◌∙◌}
use mathlib.Core.Logic.{dite, inl, inr}
use mathlib.Core.Bool.{Bool, true, false, ◌&&◌}
use mathlib.Core.Option.{none, some}
use mathlib.Core.List.{List, [], ◌∷◌, reverse, reverse-cons, reverse-reverse}
use mathlib.Core.WellFounded.{Acc}
use native.Mathlib.Decide.{dec_lt}
use native.Mathlib.Omega.{arith}
use drone_audio_sensor.Common.Tests.{◌==◌, Bool-cases}
use drone_audio_sensor.Common.Lists.{All, All-append}
use drone_audio_sensor.Common.Text.{codes, is_space, lstrip, strip}
use drone_audio_sensor.Common.Int.{ℤ, pos, negsuc}
use drone_audio_sensor.Common.Decimal.{
  digit, tenth, prepend, str_ℕ, str_ℤ, is_digit, scan, as_pos, as_neg, signed, int,
}

digit-code : (d : ℕ) → d < 10 → code (digit d) ≡ b'0' + d
unfolding digit
digit-code zero h = refl
digit-code (suc zero) h = refl
digit-code (suc (suc zero)) h = refl
digit-code (suc (suc (suc zero))) h = refl
digit-code (suc (suc (suc (suc zero)))) h = refl
digit-code (suc (suc (suc (suc (suc zero))))) h = refl
digit-code (suc (suc (suc (suc (suc (suc zero)))))) h = refl
digit-code (suc (suc (suc (suc (suc (suc (suc zero))))))) h = refl
digit-code (suc (suc (suc (suc (suc (suc (suc (suc zero)))))))) h = refl
digit-code (suc (suc (suc (suc (suc (suc (suc (suc (suc zero))))))))) h = refl
digit-code (suc (suc (suc (suc (suc (suc (suc (suc (suc (suc d)))))))))) h = absurd (omega arith)

scan-cons :
    (must : Bool) (c : ℕ) (s : List ℕ) (n : ℕ)
    → is_digit c ≡ true
    → scan must (c ∷ s) n ≡ scan false s (n * 10 + (c - b'0'))
scan-cons true c s n h = rw h refl
scan-cons false c s n h = rw h refl

scan-digit :
    (must : Bool) (d : ℕ) (s : List ℕ) (n : ℕ)
    → d < 10
    → scan must (code (digit d) ∷ s) n ≡ scan false s (n * 10 + d)
scan-digit must d s n h =
    let c = digit-code d h in
    scan-cons must (code (digit d)) s n (rw c (ground arith))
    ∙ ap (λ k. scan false s k) (rw c (omega arith))

prepend-done : (n : ℕ) (a : Acc ◌<◌ n) (rest : String) → ¬ (0 < n) → prepend n a rest ≡ rest
unfolding prepend
prepend-done n (Acc.intro _ smaller) rest done =
    elim (dec_lt 0 n)
      as (λ d.
        dite d
          (λ h. prepend (n / 10) (smaller (n / 10) (tenth h)) (String.◌∷◌ (digit (n % 10)) rest))
          (λ _. rest)
        ≡ rest) [ yes h ↦ absurd (done h) | no h ↦ refl ]

-- Reading what was printed in front of `rest` is reading `rest` behind the number.
scan-prepend :
    (n : ℕ) (a : Acc ◌<◌ n) (rest : String)
    → 0 < n
    → scan true (codes (prepend n a rest)) 0 ≡ scan false (codes rest) n
unfolding prepend
scan-prepend n (Acc.intro _ smaller) rest positive =
    elim (dec_lt 0 n)
      as (λ d.
        scan true
          (codes (
            dite d
              (λ h.
                prepend (n / 10) (smaller (n / 10) (tenth h)) (String.◌∷◌ (digit (n % 10)) rest))
              (λ _. rest)))
          0
        ≡ scan false (codes rest) n) [
          | yes h ↦ elim (dec_lt 0 (n / 10)) [
            | yes more ↦
                scan-prepend (n / 10) (smaller (n / 10) (tenth h))
                  (String.◌∷◌ (digit (n % 10)) rest) more
                ∙ scan-digit false (n % 10) (codes rest) (n / 10) (omega arith)
                ∙ ap (λ k. scan false (codes rest) k) (omega arith)
            | no last ↦
                ap (λ t. scan true (codes t) 0)
                  (prepend-done (n / 10) (smaller (n / 10) (tenth h))
                    (String.◌∷◌ (digit (n % 10)) rest) last)
                ∙ scan-digit true (n % 10) (codes rest) 0 (omega arith)
                ∙ ap (λ k. scan false (codes rest) k) (omega arith)
          ]
          | no h ↦ absurd (h positive)
        ]

-- Text that `str.strip` leaves alone.
IsTight : List ℕ → Type 0
IsTight = All (λ c. is_space c ≡ false)

lstrip_tight : (s : List ℕ) → IsTight s → lstrip s ≡ s
unfolding lstrip IsTight
lstrip_tight [] h = refl
lstrip_tight (c ∷ s) h = rw (h.0) refl

reverse-IsTight : (s : List ℕ) → IsTight s → IsTight (reverse s)
unfolding IsTight
reverse-IsTight [] h = tt
reverse-IsTight (c ∷ s) h =
    subst IsTight (sym (reverse-cons c s))
      (All-append (λ c. is_space c ≡ false) (reverse s) (c ∷ []) (reverse-IsTight s h.1) (h.0, tt))

strip_tight : (s : List ℕ) → IsTight s → strip s ≡ s
unfolding strip
strip_tight s h =
    ap (λ t. reverse (lstrip (reverse t))) (lstrip_tight s h)
    ∙ ap reverse (lstrip_tight (reverse s) (reverse-IsTight s h))
    ∙ reverse-reverse s

digit-tight : (d : ℕ) → d < 10 → is_space (code (digit d)) ≡ false
unfolding is_space
digit-tight d h = rw (digit-code d h) (ground arith)

prepend-IsTight :
    (n : ℕ) (a : Acc ◌<◌ n) (rest : String)
    → IsTight (codes rest)
    → IsTight (codes (prepend n a rest))
unfolding prepend IsTight
prepend-IsTight n (Acc.intro _ smaller) rest tight =
    elim (dec_lt 0 n)
      as (λ d. IsTight (
        codes (
          dite d
            (λ h. prepend (n / 10) (smaller (n / 10) (tenth h)) (String.◌∷◌ (digit (n % 10)) rest))
            (λ _. rest)))) [
              | yes h ↦
                  prepend-IsTight (n / 10) (smaller (n / 10) (tenth h))
                    (String.◌∷◌ (digit (n % 10)) rest) (digit-tight (n % 10) (omega arith), tight)
              | no h ↦ tight
            ]

str_ℕ-IsTight : (n : ℕ) → IsTight (codes (str_ℕ n))
unfolding str_ℕ IsTight is_space
str_ℕ-IsTight zero = (refl, tt)
str_ℕ-IsTight (suc n) = prepend-IsTight (suc n) _ "" tt

scan-str_ℕ : (n : ℕ) → scan true (codes (str_ℕ n)) 0 ≡ some n
unfolding str_ℕ
scan-str_ℕ zero = refl
scan-str_ℕ (suc n) = scan-prepend (suc n) _ "" (omega arith)

not_minus : (c : ℕ) → is_digit c ≡ true → (c == b'-') ≡ false
not_minus c h = ground arith

not_plus : (c : ℕ) → is_digit c ≡ true → (c == b'+') ≡ false
not_plus c h = ground arith

and_false : (a : Bool) → (a && false) ≡ false
and_false true = refl
and_false false = refl

-- What the scan accepts starts with a digit, so it is read without a sign.
digit_signed :
    (c : ℕ) (s : List ℕ) → is_digit c ≡ true → signed (c ∷ s) ≡ as_pos (scan true (c ∷ s) 0)
digit_signed c s h = rw (not_minus c h, not_plus c h) refl

refused : (c : ℕ) (s : List ℕ) → is_digit c ≡ false → scan true (c ∷ s) 0 ≡ none
refused c s h = rw (h, and_false (c == b'_')) refl

signed-scan : (s : List ℕ) (n : ℕ) → scan true s 0 ≡ some n → signed s ≡ some (pos n)
signed-scan [] n h = cc
signed-scan (c ∷ s) n h = elim (Bool-cases (is_digit c)) [
  | inl yes_digit ↦ digit_signed c s yes_digit ∙ ap as_pos h
  | inr no_digit ↦ absurd (let clash : none ≡ some n = sym (refused c s no_digit) ∙ h in cc)
]

signed-str_ℕ : (n : ℕ) → signed (codes (str_ℕ n)) ≡ some (pos n)
signed-str_ℕ n = signed-scan (codes (str_ℕ n)) n (scan-str_ℕ n)

-- An integer that was printed is read back.
pub int-str_ℤ : (z : ℤ) → int (str_ℤ z) ≡ some z
unfolding int str_ℤ IsTight
int-str_ℤ (pos n) = ap signed (strip_tight (codes (str_ℕ n)) (str_ℕ-IsTight n)) ∙ signed-str_ℕ n
int-str_ℤ (negsuc n) =
    ap signed (strip_tight (b'-' ∷ codes (str_ℕ (suc n))) (refl, str_ℕ-IsTight (suc n)))
    ∙ ap as_neg (scan-str_ℕ (suc n))
