-- ===== src/Admin/Sites.antt =====
-- What `list_sites` gives.
use Prim.Native.Nat.{Ordering, compare as compare_ℕ}
use Prim.Native.String.{compare, then as first_of}
use Prim.Native.String.compare.{nil-cons, cons-cons}
use Prim.Native.Char.{code}
use text.Mathlib.TextEquality.{path_by_compare}
use drone_audio_sensor.Common.{
  ℕ, ◌≡◌, refl, sym, ap, ◌∙◌, ◌⊎◌, inl, inr, ◌↔◌, true, false, List, [], ◌∷◌, Option, none, some,
  String, arith, str_eq, Bool-cases,
}
use mathlib.Core.Option.{some-injective}
use drone_audio_sensor.Admin.Devices.{Snap, placed, add_site, add_named, list_sites}

-- Each text comes strictly before the next one, so none stands twice.
abbrev pub IsAscending : List String → Type 0
IsAscending [] = Unit
IsAscending (x ∷ []) = Unit
IsAscending (x ∷ y ∷ rest) = (compare x y ≡ Ordering.lt) × IsAscending (y ∷ rest)

abbrev pub HasText : List String → String → Type 0
HasText [] s = ⊥
HasText (x ∷ xs) s = (x ≡ s) ⊎ HasText xs s

flip_ℕ : (a b : ℕ) → compare_ℕ a b ≡ Ordering.gt → compare_ℕ b a ≡ Ordering.lt
flip_ℕ a b h = ground arith

same_ℕ : (a b : ℕ) → compare_ℕ a b ≡ Ordering.eq → compare_ℕ b a ≡ Ordering.eq
same_ℕ a b h = ground arith

then_gt :
    (o p : Ordering)
    → first_of o p ≡ Ordering.gt
    → (o ≡ Ordering.gt) ⊎ ((o ≡ Ordering.eq) × (p ≡ Ordering.gt))
then_gt Ordering.lt p h = absurd (cc)
then_gt Ordering.eq p h = inr (refl, h)
then_gt Ordering.gt p h = inl refl

-- The order of texts is antisymmetric.
flip : (s t : String) → compare s t ≡ Ordering.gt → compare t s ≡ Ordering.lt
flip String.[] String.[] h = absurd (let clash : Ordering.eq ≡ Ordering.gt = h in cc)
flip String.[] (String.◌∷◌ d t) h =
    absurd (let clash : Ordering.lt ≡ Ordering.gt = sym (nil-cons d t) ∙ h in cc)
flip (String.◌∷◌ c s) String.[] h = nil-cons c s
flip (String.◌∷◌ c s) (String.◌∷◌ d t) h =
    elim (then_gt (compare_ℕ (code c) (code d)) (compare s t) (sym (cons-cons c d s t) ∙ h)) [
      | inl first ↦
          cons-cons d c t s ∙ ap (λ o. first_of o (compare t s)) (flip_ℕ (code c) (code d) first)
      | inr (same, rest) ↦
          cons-cons d c t s
          ∙ ap (λ o. first_of o (compare t s)) (same_ℕ (code c) (code d) same)
          ∙ flip s t rest
    ]

-- A text that may stand at the front of the list.
abbrev Below : String → List String → Type 0
Below a [] = Unit
Below a (x ∷ xs) = compare a x ≡ Ordering.lt

Below-cons : (a : String) (xs : List String) → Below a xs → IsAscending xs → IsAscending (a ∷ xs)
Below-cons a [] h k = tt
Below-cons a (x ∷ xs) h k = (h, k)

tail-IsAscending :
    (x : String) (xs : List String) → IsAscending (x ∷ xs) → Below x xs × IsAscending xs
tail-IsAscending x [] h = (tt, tt)
tail-IsAscending x (y ∷ xs) h = h

placed-Below :
    (a s x : String) (xs rest : List String) (o : Ordering)
    → compare a s ≡ Ordering.lt
    → compare a x ≡ Ordering.lt
    → Below a (placed o s x xs rest)
placed-Below a s x xs rest Ordering.lt h k = h
placed-Below a s x xs rest Ordering.eq h k = k
placed-Below a s x xs rest Ordering.gt h k = k

add_site-Below :
    (a s : String) (xs : List String)
    → compare a s ≡ Ordering.lt
    → Below a xs
    → Below a (add_site s xs)
add_site-Below a s [] h k = h
add_site-Below a s (x ∷ xs) h k = placed-Below a s x xs (add_site s xs) (compare s x) h k

placed-IsAscending :
    (s x : String) (xs rest : List String) (o : Ordering)
    → compare s x ≡ o
    → IsAscending (x ∷ xs)
    → ((o ≡ Ordering.gt) → IsAscending (x ∷ rest))
    → IsAscending (placed o s x xs rest)
placed-IsAscending s x xs rest Ordering.lt is h k = (is, h)
placed-IsAscending s x xs rest Ordering.eq is h k = h
placed-IsAscending s x xs rest Ordering.gt is h k = k refl

add_site-IsAscending :
    (s : String) (xs : List String) → IsAscending xs → IsAscending (add_site s xs)
add_site-IsAscending s [] h = tt
add_site-IsAscending s (x ∷ xs) h =
    let (below, rest) = tail-IsAscending x xs h in
    placed-IsAscending s x xs (add_site s xs) (compare s x) refl h (λ more.
      Below-cons x (add_site s xs) (add_site-Below x s xs (flip s x more) below)
        (add_site-IsAscending s xs rest))

either_in :
    (s t x : String) (xs : List String) → s ≡ x → (s ≡ t) ⊎ HasText (x ∷ xs) t → HasText (x ∷ xs) t
either_in s t x xs same (inl is) = inl (sym same ∙ is)
either_in s t x xs same (inr there) = there

swapped :
    (s x t : String) (xs rest : List String)
    → (HasText rest t → (s ≡ t) ⊎ HasText xs t)
    → HasText (x ∷ rest) t
    → (s ≡ t) ⊎ HasText (x ∷ xs) t
swapped s x t xs rest f (inl is) = inr (inl is)
swapped s x t xs rest f (inr there) = elim (f there) [ inl is ↦ inl is | inr more ↦ inr (inr more) ]

swapped_back :
    (s x t : String) (xs rest : List String)
    → ((s ≡ t) ⊎ HasText xs t → HasText rest t)
    → (s ≡ t) ⊎ HasText (x ∷ xs) t
    → HasText (x ∷ rest) t
swapped_back s x t xs rest f (inl is) = inr (f (inl is))
swapped_back s x t xs rest f (inr (inl is)) = inl is
swapped_back s x t xs rest f (inr (inr there)) = inr (f (inr there))

HasText-placed :
    (s x t : String) (xs rest : List String) (o : Ordering)
    → compare s x ≡ o
    → HasText rest t ↔ ((s ≡ t) ⊎ HasText xs t)
    → HasText (placed o s x xs rest) t ↔ ((s ≡ t) ⊎ HasText (x ∷ xs) t)
HasText-placed s x t xs rest Ordering.lt is ih = (λ h. h, λ h. h)
HasText-placed s x t xs rest Ordering.eq is ih = (inr, either_in s t x xs (path_by_compare s x is))
HasText-placed s x t xs rest Ordering.gt is ih =
    (swapped s x t xs rest ih.0, swapped_back s x t xs rest ih.1)

-- A site is among the others after it was added, and no other is.
HasText-add_site :
    (s t : String) (xs : List String) → HasText (add_site s xs) t ↔ ((s ≡ t) ⊎ HasText xs t)
HasText-add_site s t [] = (λ h. h, λ h. h)
HasText-add_site s t (x ∷ xs) =
    HasText-placed s x t xs (add_site s xs) (compare s x) refl (HasText-add_site s t xs)

add_named-IsAscending :
    (o : Option String) (seen : List String) → IsAscending seen → IsAscending (add_named o seen)
add_named-IsAscending none seen h = h
add_named-IsAscending (some s) seen h = elim (Bool-cases (str_eq s "")) [
  | inl empty ↦ rw empty h
  | inr named ↦ rw named (add_site-IsAscending s seen h)
]

HasText-add_named :
    (o : Option String) (t : String) (seen : List String)
    → str_eq t "" ≡ false
    → HasText (add_named o seen) t ↔ ((o ≡ some t) ⊎ HasText seen t)
HasText-add_named none t seen named =
    (inr, λ h. elim h [ inl clash ↦ absurd (cc) | inr there ↦ there ])
HasText-add_named (some s) t seen named = elim (Bool-cases (str_eq s "")) [
  | inl empty ↦ rw empty (
    inr,
    λ h. (elim h [
      | inl is ↦
          let same : s ≡ t = some-injective s t is in
          absurd (let clash : true ≡ false = sym empty ∙ ap (λ x. str_eq x "") same ∙ named in cc)
      | inr there ↦ there
    ]),
  )
  | inr full ↦ rw full (
    λ h. (elim ((HasText-add_site s t seen).0 h) [
      | inl is ↦ inl (ap some is)
      | inr there ↦ inr there
    ]),
    λ h.
        (HasText-add_site s t seen).1
          (elim h [ inl is ↦ inl (some-injective s t is) | inr there ↦ inr there ]),
  )
]

module _ {F : Type 0} where
  -- Some document names the site.
  abbrev pub IsNamed : List (Snap F) → String → Type 0
  IsNamed [] t = ⊥
  IsNamed ((id, d) ∷ rest) t = (d.site ≡ some t) ⊎ IsNamed rest t

  ascending : (docs : List (Snap F)) → IsAscending (list_sites docs)
  unfolding list_sites
  ascending [] = tt
  ascending ((id, d) ∷ rest) = add_named-IsAscending d.site (list_sites rest) (ascending rest)

  listed :
      (docs : List (Snap F)) (t : String)
      → str_eq t "" ≡ false
      → HasText (list_sites docs) t ↔ IsNamed docs t
  unfolding list_sites
  listed [] t named = (λ h. h, λ h. h)
  listed ((id, d) ∷ rest) t named =
      let (sound, complete) = HasText-add_named d.site t (list_sites rest) named in
      let (here, there) = listed rest t named in
      (
        λ h. (elim (sound h) [ inl is ↦ inl is | inr more ↦ inr (here more) ]),
        λ h. complete (elim h [ inl is ↦ inl is | inr more ↦ inr (there more) ]),
      )

  -- The sites are listed in strictly ascending order, so none stands twice, and a text that is not
  -- empty is among them exactly if some document names it.
  pub list_sites_lem :
      (docs : List (Snap F))
      → IsAscending (list_sites docs)
        × ((t : String) → str_eq t "" ≡ false → HasText (list_sites docs) t ↔ IsNamed docs t)
  list_sites_lem docs = (ascending docs, listed docs)
