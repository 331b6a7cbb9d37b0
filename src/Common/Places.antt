-- ===== src/Common/Places.antt =====
-- Where an element stands in a list.
use mathlib.Core.Path.{subst, ◌≡◌, refl, ap}
use Prim.Native.Nat.{ℕ, ◌<◌}
use mathlib.Core.List.{List, [], ◌∷◌, ◌++◌, map}
use native.Mathlib.Omega.{arith}
use drone_audio_sensor.Common.Lists.{length, All}

-- `x` stands at the place `i`.
abbrev pub At : {A : Type 0} → List A → ℕ → A → Type 0
At [] i x = ⊥
At (y ∷ ys) ℕ.zero x = y ≡ x
At (y ∷ ys) (ℕ.suc i) x = At ys i x

abbrev pub Among : {A : Type 0} → List A → A → Type 0
Among xs x = (i : ℕ) × At xs i x

pub At-append : {A : Type 0} (xs ys : List A) (i : ℕ) (x : A) → At xs i x → At (xs ++ ys) i x
At-append [] ys i x h = absurd h
At-append (y ∷ xs) ys ℕ.zero x h = h
At-append (y ∷ xs) ys (ℕ.suc i) x h = At-append xs ys i x h

pub Among-append : {A : Type 0} (xs : List A) (x : A) → Among (xs ++ x ∷ []) x
Among-append [] x = (0, refl)
Among-append (y ∷ xs) x = let (i, h) = Among-append xs x in (ℕ.suc i, h)

pub At-map :
    {A B : Type 0} (f : A → B) (xs : List A) (i : ℕ) (x : A) → At xs i x → At (map f xs) i (f x)
At-map f [] i x h = h
At-map f (y ∷ xs) ℕ.zero x h = ap f h
At-map f (y ∷ xs) (ℕ.suc i) x h = At-map f xs i x h

pub At-before :
    {A : Type 0} (xs ys : List A) (i : ℕ) (x : A) → At (xs ++ ys) i x → i < length xs → At xs i x
At-before [] ys i x h k = absurd (omega arith)
At-before (y ∷ xs) ys ℕ.zero x h k = h
At-before (y ∷ xs) ys (ℕ.suc i) x h k = At-before xs ys i x h (omega arith)

pub All-At :
    {A : Type 0} (P : A → Type 0) (xs : List A) (i : ℕ) (x : A) → All P xs → At xs i x → P x
All-At P [] i x h k = absurd k
All-At P (y ∷ xs) ℕ.zero x h k = subst P k h.0
All-At P (y ∷ xs) (ℕ.suc i) x h k = All-At P xs i x h.1 k

pub All-weaken :
    {A : Type 0} (P Q : A → Type 0) (xs : List A) → ((x : A) → P x → Q x) → All P xs → All Q xs
All-weaken P Q [] f h = h
All-weaken P Q (x ∷ xs) f h = (f x h.0, All-weaken P Q xs f h.1)

pub map-append :
    {A B : Type 0} (f : A → B) (xs ys : List A) → map f (xs ++ ys) ≡ map f xs ++ map f ys
map-append f [] ys = refl
map-append f (x ∷ xs) ys = ap (λ zs. f x ∷ zs) (map-append f xs ys)
