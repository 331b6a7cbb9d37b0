-- ===== src/Admin/Lists.antt =====
-- The recent and the suppressed detections against each other.
use drone_audio_sensor.Common.{
  ℕ, zero, suc, ◌≤◌, ◌+◌, ◌*◌, ◌-◌, ◌≡◌, refl, ap, false, not, List, [], ◌∷◌, Option, none, String,
  arith, str_eq, if◌then◌else◌, Bool-cases, inl, inr, get_or, length, take,
}
use drone_audio_sensor.Admin.{
  DetectionDoc, to_detection_row, is_old, reason_of, is_suppressed, differs, recent, suppressed,
  list_recent_detections, list_suppressed_detections,
}

-- The documents of the window and of the site.
abbrev pub in_window : Option String → ℕ → List DetectionDoc → ℕ
in_window site cutoff [] = 0
in_window site cutoff (d ∷ ds) =
    let n = in_window site cutoff ds in
    if is_old cutoff d then n else if differs site (get_or d.site "") then n else suc n

chronic : str_eq "chronic" "" ≡ false
chronic = refl

-- The two tests of suppression are one.
same_test : (d : DetectionDoc) → is_suppressed d ≡ not (str_eq (reason_of d) "")
unfolding is_suppressed reason_of
same_test d = elim (Bool-cases (str_eq (get_or d.suppression_reason "") "")) [
  | inl empty ↦ (elim (Bool-cases d.chronic_suppressed) [
    | inl legacy ↦ rw (empty, legacy) refl
    | inr plain ↦ rw (empty, plain) (rw empty refl)
  ])
  | inr named ↦ rw named (rw named refl)
]

-- Over the same documents, with all reasons asked for.
partition :
    (site : Option String) (cutoff : ℕ) (ds : List DetectionDoc)
    → length (recent site cutoff ds) + length (suppressed site none cutoff ds)
      ≡ in_window site cutoff ds
unfolding recent suppressed to_detection_row
partition site cutoff [] = omega arith
partition site cutoff (d ∷ ds) =
    let ih = partition site cutoff ds in
    elim (Bool-cases (is_old cutoff d)) [
      | inl old ↦ rw old ih
      | inr young ↦
          rw (young, same_test d)
            (elim (Bool-cases (str_eq (reason_of d) "")) [
              | inl live ↦ (elim (Bool-cases (differs site (get_or d.site ""))) [
                | inl elsewhere ↦ rw (live, elsewhere) ih
                | inr here ↦ rw (live, here) (omega (arith, ih))
              ])
              | inr killed ↦ (elim (Bool-cases (differs site (get_or d.site ""))) [
                | inl elsewhere ↦ rw (killed, elsewhere) ih
                | inr here ↦ rw (killed, here) (omega (arith, ih))
              ])
            ])
    ]

take_all : {A : Type 0} (n : ℕ) (xs : List A) → length xs ≤ n → take n xs ≡ xs
take_all zero [] h = refl
take_all zero (x ∷ xs) h = absurd (omega arith)
take_all (suc n) [] h = refl
take_all (suc n) (x ∷ xs) h = ap (λ l. x ∷ l) (take_all n xs (omega (arith, h)))

-- If the query has no more documents than the limit of the recent detections, then the list of
-- recent detections and that of suppressed ones for every reason have together as many rows as there
-- are documents in the window and of the site: none is missing and none counted twice.
pub list_recent_detections-list_suppressed_detections :
    (site : Option String) (now window limit : ℕ) (docs : List DetectionDoc)
    → length docs ≤ limit
    → length (list_recent_detections site now window limit docs)
        + length (list_suppressed_detections site none now window limit docs)
      ≡ in_window site (now - window * 1000) docs
unfolding list_recent_detections list_suppressed_detections
list_recent_detections-list_suppressed_detections site now window limit docs few =
    rw (take_all limit docs few, take_all (limit * 3) docs (omega (arith, few)))
      (partition site (now - window * 1000) docs)
