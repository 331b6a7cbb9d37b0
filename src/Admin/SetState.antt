-- ===== src/Admin/SetState.antt =====
-- What the admin's change of a state does to the documents.
use drone_audio_sensor.Common.{
  ℕ, ◌≡◌, refl, sym, ap, ◌∙◌, ◌⊎◌, inl, inr, false, Option, none, some, String, str_eq, str_eq_refl,
  get_or,
}
use drone_audio_sensor.Common.Results.{ok, err, Result-cases}
use drone_audio_sensor.Lifecycle.{State, text, TransitionError}
use drone_audio_sensor.Lifecycle.Graph.{AdminStep}
use drone_audio_sensor.Lifecycle.Rules.{normalize-text, validate_iff_AdminStep}
use drone_audio_sensor.Lifecycle.Mirror.{
  normalize, normalize_agrees, validate_admin_transition, Mirror-agrees,
}
use drone_audio_sensor.Gateway.Store.{Device, Table, empty, merge}
use drone_audio_sensor.Admin.{or_text, current_state, change, set_checked, set_known, set_state}

normalize_back : (s : State) → normalize (some (text s)) ≡ s
normalize_back s = normalize_agrees (some (text s)) ∙ normalize-text s

text_not_empty : (s : State) → str_eq (text s) "" ≡ false
text_not_empty State.setup_pending = refl
text_not_empty State.active = refl
text_not_empty State.lost = refl
text_not_empty State.revoked = refl
text_not_empty State.wipe_requested = refl
text_not_empty State.wipe_sent = refl

-- The validator on a state that was read.
accepts :
    (s : State) (target : String)
    → (validate_admin_transition (text s) target ≡ ok tt → AdminStep s (normalize (some target)))
      × (AdminStep s (normalize (some target)) → validate_admin_transition (text s) target ≡ ok tt)
accepts s target =
    let same = (Mirror-agrees (text s) target).2 in
    let (sound, complete) = validate_iff_AdminStep (text s) target in
    let here = sym (normalize-text s) in
    let there = normalize_agrees (some target) in
    (
      λ h. rw (there, here) (sound (sym same ∙ h)),
      λ a. same ∙ complete (rw (sym here, sym there) a),
    )

module _ {F : Type 0} where
  change-state : (t : State) (now : ℕ) (d : Device F) → (change t now d).state ≡ some (text t)
  unfolding change
  change-state State.setup_pending now d = refl
  change-state State.active now d = refl
  change-state State.lost now d = refl
  change-state State.revoked now d = refl
  change-state State.wipe_requested now d = refl
  change-state State.wipe_sent now d = refl

  current_state-change : (t : State) (now : ℕ) (d : Device F) → current_state (change t now d) ≡ t
  unfolding current_state
  current_state-change t now d =
      ap (λ o. normalize (or_text o (change t now d).status)) (change-state t now d)
      ∙ rw (text_not_empty t) (normalize_back t)

  -- The bookkeeping of a wipe request: stamped by a request, cleared by a return to `active`, and
  -- otherwise left.
  abbrev pub wipe_mark : State → ℕ → Device F → Option ℕ
  wipe_mark State.setup_pending now d = d.wipe_requested_at_ms
  wipe_mark State.active now d = none
  wipe_mark State.lost now d = d.wipe_requested_at_ms
  wipe_mark State.revoked now d = d.wipe_requested_at_ms
  wipe_mark State.wipe_requested now d = some now
  wipe_mark State.wipe_sent now d = d.wipe_requested_at_ms

  change-wipe_mark :
      (t : State) (now : ℕ) (d : Device F)
      → (change t now d).wipe_requested_at_ms ≡ wipe_mark t now d
  unfolding change
  change-wipe_mark State.setup_pending now d = refl
  change-wipe_mark State.active now d = refl
  change-wipe_mark State.lost now d = refl
  change-wipe_mark State.revoked now d = refl
  change-wipe_mark State.wipe_requested now d = refl
  change-wipe_mark State.wipe_sent now d = refl

  module _ (m : Table (Device F)) (id target : String) (now : ℕ) where
    -- The document moved to the target, with its bookkeeping, and no other document changed.
    abbrev pub Moved : Device F → Table (Device F) → Type 0
    Moved d m' =
        (d' : Device F) × (m' id ≡ some d')
        × (current_state d' ≡ normalize (some target))
        × (d'.wipe_requested_at_ms ≡ wipe_mark (normalize (some target)) now d)
        × ((j : String) → str_eq id j ≡ false → m' j ≡ m j)

    abbrev pub Outcome : Device F → Type 0
    Outcome d =
        (AdminStep (current_state d) (normalize (some target))
          × ((m' : Table (Device F)) × (set_state m id target now ≡ ok m') × Moved d m'))
        ⊎ (¬ (AdminStep (current_state d) (normalize (some target)))
            × ((e : TransitionError) × (set_state m id target now ≡ err e)))

    merge-Moved :
        (d : Device F) → m id ≡ some d → Moved d (merge m id (change (normalize (some target)) now))
    merge-Moved d there = (
      change (normalize (some target)) now d,
      rw (str_eq_refl id)
          (ap (λ o. some (change (normalize (some target)) now (get_or o empty))) there),
      current_state-change (normalize (some target)) now d,
      change-wipe_mark (normalize (some target)) now d,
      λ j other. rw other refl,
    )

    -- The change of a device that is known is made exactly if it is an edge of the admin's diagram
    -- from the state that its document is read to have: then the document is read as the target, its
    -- wipe mark is that of the target, and no other document changes. Otherwise it is refused.
    pub set_state_lem : (d : Device F) → m id ≡ some d → Outcome d
    unfolding set_state
    set_state_lem d there =
        elim (Result-cases (validate_admin_transition (text (current_state d)) target)) [
          | inl (unit, fine) ↦ inl (
            (accepts (current_state d) target).0 fine,
            (
              merge m id (change (normalize (some target)) now),
              ap (set_known m id target now) there
                  ∙ ap (set_checked m id (normalize (some target)) now) fine,
              merge-Moved d there,
            ),
          )
          | inr (e, refused) ↦ inr (
            (λ a.
                let clash : ok tt ≡ err e =
                  sym ((accepts (current_state d) target).1 a) ∙ refused in
                cc),
            (
              e,
              ap (set_known m id target now) there
                  ∙ ap (set_checked m id (normalize (some target)) now) refused,
            ),
          )
        ]
