-- ===== src/Lifecycle/Rules.antt =====
-- What the functions of the state machine compute, against the diagram of Lifecycle/Graph.antt.
use drone_audio_sensor.Common.{
  ℕ, List, ◌≡◌, refl, ◌↔◌, ◌≢◌, ◌⊎◌, true, false, some, String, arith, [], ◌∷◌,
}
use drone_audio_sensor.Common.Results.{ok, err}
use drone_audio_sensor.Common.Text.{codes, strip, lower, text_eq}
use drone_audio_sensor.Lifecycle.{
  State, setup_pending, active, lost, revoked, wipe_requested, wipe_sent, text, normalize,
  requires_extra_confirmation, validate_admin_transition, contains, all_states, recognise, is_empty,
  contains_pair, admin_transitions, extra_confirm, validate, not_allowed, gateway_internal,
}
use drone_audio_sensor.Lifecycle.Graph.{
  AdminStep, promote, refuse_new, wipe_new, lose, revoke, wipe, find, revoke_lost, wipe_lost,
  reinstate,
}

-- A state that was stored is read back as itself.
pub normalize-text : (s : State) → normalize (some (text s)) ≡ s
unfolding normalize strip lower
normalize-text setup_pending = refl
normalize-text active = refl
normalize-text lost = refl
normalize-text revoked = refl
normalize-text wipe_requested = refl
normalize-text wipe_sent = refl

-- The diagram's edges, for the tactics.
ruleset edges =
    (promote, refuse_new, wipe_new, lose, revoke, wipe, find, revoke_lost, wipe_lost, reinstate)

pub AdminStep-of_contains : (s t : State) → contains (admin_transitions s) t ≡ true → AdminStep s t
AdminStep-of_contains s t h = grind (arith, edges)

pub contains_of_AdminStep : {s t : State} → AdminStep s t → contains (admin_transitions s) t ≡ true
contains_of_AdminStep promote = refl
contains_of_AdminStep refuse_new = refl
contains_of_AdminStep wipe_new = refl
contains_of_AdminStep lose = refl
contains_of_AdminStep revoke = refl
contains_of_AdminStep wipe = refl
contains_of_AdminStep find = refl
contains_of_AdminStep revoke_lost = refl
contains_of_AdminStep wipe_lost = refl
contains_of_AdminStep reinstate = refl

-- The validator on states that are already read.
validate_sound :
    (s t : State) (target : String)
    → validate s t target ≡ ok tt
    → contains (admin_transitions s) t ≡ true
unfolding validate
validate_sound s t target h = ground arith

validate_complete :
    (s t : State) (target : String)
    → contains (admin_transitions s) t ≡ true
    → validate s t target ≡ ok tt
unfolding validate
validate_complete s t target h = ground arith

-- The validator accepts a change exactly when the two texts stand for an edge of the admin's
-- diagram, whatever their spelling.
pub validate_iff_AdminStep :
    (current target : String)
    → (validate_admin_transition current target ≡ ok tt)
      ↔ AdminStep (normalize (some current)) (normalize (some target))
unfolding validate_admin_transition
validate_iff_AdminStep current target = (
  λ h. AdminStep-of_contains _ _ (validate_sound _ _ target h),
  λ a. validate_complete _ _ target (contains_of_AdminStep a),
)

validate_refuses :
    (s t : State) (target : String)
    → ¬ (validate s t target ≡ ok tt)
    → ((t ≡ wipe_sent) × (validate s t target ≡ err gateway_internal))
      ⊎ ((t ≢ wipe_sent) × (validate s t target ≡ err (not_allowed s t)))
unfolding validate
validate_refuses s t target h = ground arith

-- A change that is refused is refused as the gateway's own if its target reads `wipe_sent`, and
-- otherwise as not allowed, with both states as they were read; `unknown_target` is never raised.
pub validate_admin_transition_refusal :
    (current target : String)
    → ¬ (validate_admin_transition current target ≡ ok tt)
    → let s = normalize (some current) in
      let t = normalize (some target) in
      ((t ≡ wipe_sent) × (validate_admin_transition current target ≡ err gateway_internal))
      ⊎ ((t ≢ wipe_sent) × (validate_admin_transition current target ≡ err (not_allowed s t)))
unfolding validate_admin_transition
validate_admin_transition_refusal current target h = validate_refuses _ _ target h

confirm_index :
    (s t : State)
    → contains_pair extra_confirm s t ≡ true
    → AdminStep s t × ((t ≡ wipe_requested) ⊎ ((s ≡ revoked) × (t ≡ active)))
confirm_index s t h = grind (arith, edges)

confirm_complete :
    (s t : State)
    → AdminStep s t
    → (t ≡ wipe_requested) ⊎ ((s ≡ revoked) × (t ≡ active))
    → contains_pair extra_confirm s t ≡ true
confirm_complete s t a h = ground (arith, contains_of_AdminStep a)

-- An extra confirmation is asked for exactly at the allowed changes that request a wipe or that
-- bring a revoked device back.
pub requires_extra_confirmation_iff :
    (current target : String)
    → (requires_extra_confirmation current target ≡ true) ↔ (
        AdminStep (normalize (some current)) (normalize (some target))
        × ((normalize (some target) ≡ wipe_requested)
            ⊎ ((normalize (some current) ≡ revoked) × (normalize (some target) ≡ active))))
unfolding requires_extra_confirmation
requires_extra_confirmation_iff current target =
    (λ h. confirm_index _ _ h, λ h. confirm_complete _ _ h.0 h.1)

-- Text that, trimmed and folded, is the text of a state.
abbrev pub Spells : String → State → Type 0
Spells t s = lower (strip (codes t)) ≡ codes (text s)

text_eq_sound : (a b : List ℕ) → text_eq a b ≡ true → a ≡ b
text_eq_sound [] [] h = refl
text_eq_sound [] (d ∷ b) h = cc
text_eq_sound (c ∷ a) [] h = cc
text_eq_sound (c ∷ a) (d ∷ b) h = ground (arith, text_eq_sound a b)

recognise_sound :
    (xs : List State) (t : List ℕ) (s : State) → recognise xs t ≡ some s → t ≡ codes (text s)
recognise_sound [] t s h = cc
recognise_sound (x ∷ xs) t s h =
    ground (arith, text_eq_sound t (codes (text x)), recognise_sound xs t s)

recognise-text : (s : State) → recognise all_states (codes (text s)) ≡ some s
recognise-text setup_pending = refl
recognise-text active = refl
recognise-text lost = refl
recognise-text revoked = refl
recognise-text wipe_requested = refl
recognise-text wipe_sent = refl

not_empty_of_spelling :
    (c : List ℕ) (s : State) → lower (strip c) ≡ codes (text s) → is_empty c ≡ false
unfolding lower strip
not_empty_of_spelling [] setup_pending h = cc
not_empty_of_spelling [] active h = cc
not_empty_of_spelling [] lost h = cc
not_empty_of_spelling [] revoked h = cc
not_empty_of_spelling [] wipe_requested h = cc
not_empty_of_spelling [] wipe_sent h = cc
not_empty_of_spelling (c ∷ cs) s h = refl

-- A stored text is read as a state other than `active` exactly when, trimmed and folded to lower
-- case, it is that state's text; so every missing, empty or unknown text is read as `active`.
pub normalize_iff_Spells :
    (t : String) (s : State) → s ≢ active → (normalize (some t) ≡ s) ↔ Spells t s
unfolding normalize
normalize_iff_Spells t s other = (
  λ h. ground (arith, recognise_sound all_states (lower (strip (codes t))) s),
  λ e. rw (not_empty_of_spelling (codes t) s e) (rw e (rw (recognise-text s))),
)
