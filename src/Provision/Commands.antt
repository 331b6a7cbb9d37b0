-- ===== src/Provision/Commands.antt =====
-- What the commands of the tool do to the documents.
use drone_audio_sensor.Common.{
  ℕ, ◌≡◌, refl, sym, ap, ◌∙◌, ◌⊎◌, inl, inr, Bool, true, false, not, ◌&&◌, Option, none, some,
  String, arith, str_eq, str_eq_refl, Bool-cases, Option-cases, get_or,
}
use drone_audio_sensor.Common.Results.{Result, ok, err, Result-cases, ◌>>=◌}
use drone_audio_sensor.Lifecycle.{
  State, setup_pending, wipe_requested, active, wipe_sent, state_eq, text, contains, contains_pair,
}
use drone_audio_sensor.Lifecycle
use drone_audio_sensor.Lifecycle.Graph.{AdminStep}
use drone_audio_sensor.Lifecycle.Rules.{
  normalize-text, AdminStep-of_contains, contains_of_AdminStep,
}
use drone_audio_sensor.Gateway.Store.{Table}
use drone_audio_sensor.Admin
use drone_audio_sensor.Admin.{or_text}
use drone_audio_sensor.Provision.{
  Doc, blank, merge_doc, UsageError, normalize_state, validate_transition, admin_transitions,
  extra_confirm, registered, first_registered, register, current_of, update, confirmed, found,
  set_state, requires_confirm,
}

normalize_state_agrees : (o : Option String) → normalize_state o ≡ Lifecycle.normalize o
unfolding normalize_state Lifecycle.normalize
normalize_state_agrees none = refl
normalize_state_agrees (some s) = refl

normalize_state_back : (s : State) → normalize_state (some (text s)) ≡ s
normalize_state_back s = normalize_state_agrees (some (text s)) ∙ normalize-text s

transitions_agree : (s : State) → admin_transitions s ≡ Lifecycle.admin_transitions s
transitions_agree State.setup_pending = refl
transitions_agree State.active = refl
transitions_agree State.lost = refl
transitions_agree State.revoked = refl
transitions_agree State.wipe_requested = refl
transitions_agree State.wipe_sent = refl

validate_sound :
    (s t : State) → validate_transition s t ≡ ok tt → contains (admin_transitions s) t ≡ true
unfolding validate_transition
validate_sound s t h = ground arith

validate_complete :
    (s t : State) → contains (admin_transitions s) t ≡ true → validate_transition s t ≡ ok tt
unfolding validate_transition
validate_complete s t h = ground arith

step_of_valid : (s t : State) → validate_transition s t ≡ ok tt → AdminStep s t
step_of_valid s t h =
    AdminStep-of_contains s t
      (ap (λ l. contains l t) (sym (transitions_agree s)) ∙ validate_sound s t h)

valid_of_step : (s t : State) → AdminStep s t → validate_transition s t ≡ ok tt
valid_of_step s t a =
    validate_complete s t (ap (λ l. contains l t) (transitions_agree s) ∙ contains_of_AdminStep a)

module _ {F : Type 0} where
  -- The tool writes the shared fields as the admin service does.
  update-device :
      (t : State) (now : ℕ) (user : String) (d : Doc F)
      → (update t now user d).device ≡ Admin.change t now d.device
  unfolding update Admin.change
  update-device State.setup_pending now user d = refl
  update-device State.active now user d = refl
  update-device State.lost now user d = refl
  update-device State.revoked now user d = refl
  update-device State.wipe_requested now user d = refl
  update-device State.wipe_sent now user d = refl

  module _ (m : Table (Doc F)) (id target : String) (confirm : Bool) (now : ℕ) (user : String) where
    abbrev pub goal_state : State
    goal_state = normalize_state (some target)

    -- The change is an edge, and it is confirmed where that is asked for.
    abbrev pub IsAllowed : Doc F → Type 0
    IsAllowed d =
        AdminStep (current_of d) goal_state
        × ((contains_pair extra_confirm (current_of d) goal_state && not confirm) ≡ false)

    -- The document got what the admin service writes, and no other document changed.
    abbrev pub Moved : Doc F → Table (Doc F) → Type 0
    Moved d m' =
        (d' : Doc F) × (m' id ≡ some d')
        × (d'.device ≡ Admin.change goal_state now d.device)
        × ((j : String) → str_eq id j ≡ false → m' j ≡ m j)

    abbrev pub Outcome : Doc F → Type 0
    Outcome d =
        (IsAllowed d
          × ((m' : Table (Doc F)) × (set_state m id target confirm now user ≡ ok m') × Moved d m'))
        ⊎ (¬ (IsAllowed d) × ((e : UsageError) × (set_state m id target confirm now user ≡ err e)))

    merge-Moved :
        (d : Doc F) → m id ≡ some d → Moved d (merge_doc m id (update goal_state now user))
    merge-Moved d there = (
      update goal_state now user d,
      rw (str_eq_refl id) (ap (λ o. some (update goal_state now user (get_or o blank))) there),
      update-device goal_state now user d,
      λ j other. rw other refl,
    )

    abbrev then_confirmed : Doc F → Result UsageError (Unit {0}) → Result UsageError (Table (Doc F))
    then_confirmed d r = r >>= λ _. confirmed m id (current_of d) goal_state confirm now user

    reached :
        (d : Doc F) (r : Result UsageError (Unit {0}))
        → m id ≡ some d
        → validate_transition (current_of d) goal_state ≡ r
        → set_state m id target confirm now user ≡ then_confirmed d r
    unfolding set_state
    reached d r there is =
        ap (found m id goal_state confirm now user) there ∙ ap (then_confirmed d) is

    -- The change of a device that is known is made exactly if it is an edge of the admin's diagram
    -- from the state that its document is read to have, and `--confirm` is given where it is asked
    -- for: then the document gets what the admin service would write, and no other document
    -- changes. Otherwise it is refused.
    pub set_state_outcome : (d : Doc F) → m id ≡ some d → Outcome d
    set_state_outcome d there =
        elim (Result-cases (validate_transition (current_of d) goal_state)) [
          | inl (unit, fine) ↦
              (elim (Bool-cases
                (contains_pair extra_confirm (current_of d) goal_state && not confirm)) [
                  | inl asks ↦ inr (
                    (λ a. let clash : true ≡ false = sym asks ∙ a.1 in cc),
                    (
                      requires_confirm (current_of d) goal_state,
                      reached d (ok tt) there fine ∙ rw asks refl,
                    ),
                  )
                  | inr calm ↦ inl (
                    (step_of_valid (current_of d) goal_state fine, calm),
                    (
                      merge_doc m id (update goal_state now user),
                      reached d (ok tt) there fine ∙ rw calm refl,
                      merge-Moved d there,
                    ),
                  )
                ])
          | inr (e, refused) ↦ inr (
            (λ a.
                let clash : ok tt ≡ err e =
                  sym (valid_of_step (current_of d) goal_state a.0) ∙ refused in
                cc),
            (e, reached d (err e) there refused),
          )
        ]

  module _ (m : Table (Doc F)) (id pem site notes : String) (now : ℕ) where
    -- A device that is new waits for its setup, and another keeps its state.
    abbrev pub Placed : Doc F → Type 0
    Placed d' =
        ((m id ≡ none) × (current_of d' ≡ setup_pending))
        ⊎ ((d : Doc F) × (m id ≡ some d) × (current_of d' ≡ current_of d))

    -- Registration stores the key, leaves every other document, makes a new device wait for its
    -- setup, and leaves a device that is known in its state, whatever that is.
    pub register_lem :
        let m' = register m id pem site notes now in
        ((d' : Doc F) × (m' id ≡ some d') × (d'.device.public_key_pem ≡ some pem) × Placed d')
        × ((j : String) → str_eq id j ≡ false → m' j ≡ m j)
    unfolding register current_of
    register_lem = elim (Option-cases (m id)) [
      | inl unknown ↦ (
        (
          first_registered id pem site notes now blank,
          rw (unknown, str_eq_refl id)
              (ap (λ o. some (first_registered id pem site notes now (get_or o blank))) unknown),
          refl,
          inl (unknown, normalize_state_back setup_pending),
        ),
        λ j other. rw (unknown, other) refl,
      )
      | inr (d, known) ↦ (
        (
          registered id pem site notes now d,
          rw (known, str_eq_refl id)
              (ap (λ o. some (registered id pem site notes now (get_or o blank))) known),
          refl,
          inr (d, known, refl),
        ),
        λ j other. rw (known, other) refl,
      )
    ]
