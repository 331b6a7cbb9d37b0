-- ===== src/Tak/Dedup.antt =====
-- `_LruSet` of backend/tak_publisher/src/tak_publisher/subscriber.py: the detection ids that were
-- seen, the least recent first, as the `OrderedDict` holds them.
use drone_audio_sensor.Common.{
  ℕ, ◌+◌, ◌≤◌, ◌≡◌, refl, ◌∙◌, Bool, true, false, not, ◌||◌, List, [], ◌∷◌, ◌++◌, String,
  if◌then◌else◌, str_eq, str_eq_refl, ltb, arith, tests, length, length-append, Bool-cases, inl,
  inr,
}

pub record LruSet : Type 0 where
  pub cap : ℕ
  pub store : List String

abbrev pub has : List String → String → Bool
has [] k = false
has (x ∷ xs) k = str_eq x k || has xs k

abbrev pub remove : List String → String → List String
remove [] k = []
remove (x ∷ xs) k = let rest = remove xs k in if str_eq x k then xs else x ∷ rest

abbrev pub tail : List String → List String
tail [] = []
tail (x ∷ xs) = xs

-- `add`: the set, and whether the key is new.
unfoldable pub add : LruSet → String → LruSet × Bool
add s key =
    if has s.store key
    then (record s { store = remove s.store key ++ key ∷ [] }, false)
    else (let grown = s.store ++ key ∷ [] in
        (record s { store = if ltb s.cap (length grown) then tail grown else grown }, true))

has-append : (xs : List String) (k : String) → has (xs ++ k ∷ []) k ≡ true
has-append [] k = rw (str_eq_refl k) refl
has-append (x ∷ xs) k = rw (has-append xs k) (ground arith)

length-remove :
    (xs : List String) (k : String) → has xs k ≡ true → length (remove xs k) + 1 ≡ length xs
length-remove [] k h = cc
length-remove (x ∷ xs) k h = elim (Bool-cases (str_eq x k)) [
  | inl same ↦ rw same (omega arith)
  | inr other ↦ rw other (let ih = length-remove xs k (rw other at h) in omega arith)
]

length-tail : (xs : List String) (k : String) → length (tail (xs ++ k ∷ [])) ≡ length xs
length-tail [] k = refl
length-tail (x ∷ xs) k = length-append xs (k ∷ []) ∙ (omega arith)

-- A key is reported as new exactly when the set does not hold it, and the set never holds more
-- keys than its capacity.
pub add_lem :
    (s : LruSet) (key : String)
    → length s.store ≤ s.cap
    → ((add s key).1 ≡ not (has s.store key)) × (length (add s key).0.store ≤ (add s key).0.cap)
unfolding add
add_lem s key small = elim (Bool-cases (has s.store key)) [
  | inl old ↦ rw old (
    refl,
    (let a = length-append (remove s.store key) (key ∷ []) in
        let b = length-remove s.store key old in omega arith),
  )
  | inr new ↦ rw new (
    refl,
    elim (Bool-cases (ltb s.cap (length (s.store ++ key ∷ [])))) [
      | inl full ↦ rw full (let a = length-tail s.store key in omega arith)
      | inr room ↦ rw room (grind (arith, tests))
    ],
  )
]

has-tail : (xs : List String) (k : String) → 1 ≤ length xs → has (tail (xs ++ k ∷ [])) k ≡ true
has-tail [] k h = absurd (omega arith)
has-tail (x ∷ xs) k h = has-append xs k

-- A key that was just added is held, if the set may hold any.
pub add-has : (s : LruSet) (key : String) → 1 ≤ s.cap → has (add s key).0.store key ≡ true
unfolding add
add-has s key room = elim (Bool-cases (has s.store key)) [
  | inl old ↦ rw old (has-append (remove s.store key) key)
  | inr new ↦ rw new (elim (Bool-cases (ltb s.cap (length (s.store ++ key ∷ [])))) [
    | inr fits ↦ rw fits (has-append s.store key)
    | inl full ↦
        rw full
          (has-tail s.store key (let a = length-append s.store (key ∷ []) in grind (arith, tests)))
  ])
]

pub add_new : (s : LruSet) (key : String) → (add s key).1 ≡ not (has s.store key)
unfolding add
add_new s key = elim (Bool-cases (has s.store key)) [
  | inl old ↦ rw old refl
  | inr new ↦ rw new refl
]
