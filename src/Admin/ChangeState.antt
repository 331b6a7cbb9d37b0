-- ===== src/Admin/ChangeState.antt =====
-- `change_state` of backend/admin/src/admin/server.py: the request that changes a device's state.
-- The caller is one that `_resolve_user` lets in. The device is read first, and the change is made
-- in a transaction that reads it again: both readings are inputs.
use drone_audio_sensor.Common.{
  ℕ, ◌≡◌, refl, sym, ap, ◌∙◌, ◌⊎◌, inl, inr, ◌&&◌, not, true, false, ◌++◌, List, [], ◌∷◌, Option,
  none, some, String, str_eq, if◌then◌else◌, get_or, Bool-cases,
}
use drone_audio_sensor.Common.Results.{Result, ok, err}
use drone_audio_sensor.Common.Text.{codes, strip}
use drone_audio_sensor.Lifecycle.{State, text, TransitionError}
use drone_audio_sensor.Lifecycle.Graph.{AdminStep}
use drone_audio_sensor.Lifecycle.Mirror.{normalize, requires_extra_confirmation}
use drone_audio_sensor.Gateway.Store.{Device, Table}
use drone_audio_sensor.Admin.{current_state, set_state}
use drone_audio_sensor.Admin.Devices.{SiteDoc, DeviceRow, to_device_row, row_of, get_device}
use drone_audio_sensor.Admin.SetState.{Moved, set_state_lem}

-- A redirect, with the documents that are left, or the status of an `HTTPException`, which leaves
-- them as they are.
pub data Response (F : Type 0) : Type 0 where
  redirect : List ℕ → Table (Device F) → Response F
  http_error : ℕ → Response F

-- The page to go back to, with the site of the query.
abbrev pub back_to : List ℕ → List ℕ
back_to [] = codes "/registered"
back_to (c ∷ site) = codes "/registered?site=" ++ (c ∷ site)

module _ {F : Type 0} where
  abbrev pub answered : List ℕ → Result TransitionError (Table (Device F)) → Response F
  answered site (ok m) = redirect (back_to site) m
  answered site (err e) = http_error 400

  -- The request on the device that was read.
  abbrev pub change_row :
      State → String → List ℕ → Table (Device F) → String → ℕ → Option (DeviceRow F) → Response F
  change_row target confirm site m device_id now_ms none = http_error 404
  change_row target confirm site m device_id now_ms (some row) =
      if requires_extra_confirmation (text row.state) (text target) && not (str_eq confirm "yes")
      then http_error 400
      else answered site (set_state m device_id (text target) now_ms)

  unfoldable pub change_state :
      Table (SiteDoc F)
      → Table (Device F)
      → String
      → String
      → String
      → Option String
      → ℕ
      → Response F
  change_state m_read m device_id target confirm site now_ms =
      change_row (normalize (some target)) confirm (strip (codes (get_or site ""))) m device_id
        now_ms (get_device m_read device_id)

  module _ (m_read : Table (SiteDoc F)) (m : Table (Device F)) (id target confirm : String)
      (site : Option String) (now : ℕ) where
    -- The target, as `set_state` is given it.
    abbrev pub named : String
    named = text (normalize (some target))

    -- The question was answered, or there was none.
    abbrev pub Confirmed : SiteDoc F → Type 0
    Confirmed r =
        (requires_extra_confirmation (text (current_state r.device)) named
          && not (str_eq confirm "yes"))
        ≡ false

    -- What becomes of the request: `r` is the document that was read, `d` the one that the
    -- transaction finds.
    abbrev pub Verdict : SiteDoc F → Device F → Type 0
    Verdict r d =
        (Confirmed r
          × AdminStep (current_state d) (normalize (some named))
          × ((m' : Table (Device F)) × (change_state m_read m id target confirm site now
                ≡ redirect (back_to (strip (codes (get_or site "")))) m')
              × Moved m id named now d m'))
        ⊎ (¬ (Confirmed r × AdminStep (current_state d) (normalize (some named)))
            × (change_state m_read m id target confirm site now ≡ http_error 400))

    found : (r : SiteDoc F) → m_read id ≡ some r → get_device m_read id ≡ some (to_device_row id r)
    unfolding get_device
    found r there = ap (row_of id) there

    opened :
        (r : SiteDoc F)
        → m_read id ≡ some r
        → change_state m_read m id target confirm site now ≡ (
            if requires_extra_confirmation (text (current_state r.device)) named
              && not (str_eq confirm "yes")
            then http_error 400
            else answered (strip (codes (get_or site ""))) (set_state m id named now))
    unfolding change_state to_device_row
    opened r there =
        ap (change_row (normalize (some target)) confirm (strip (codes (get_or site ""))) m id now)
          (found r there)

    -- A request for a device that is there, at the first reading and in the transaction, is made
    -- exactly if the extra confirmation was given where the state that was read first asks for it, and
    -- the change is an edge of the admin's diagram from the state that the transaction finds: then the
    -- answer leads back to the page, the document is read as the target, its wipe mark is that of the
    -- target, and no other document changes. Otherwise the answer is 400, and no document changes.
    pub change_state_lem :
        (r : SiteDoc F) (d : Device F) → m_read id ≡ some r → m id ≡ some d → Verdict r d
    change_state_lem r d read there =
        let asked =
          requires_extra_confirmation (text (current_state r.device)) named
          && not (str_eq confirm "yes") in
        elim (Bool-cases asked) [
          | inl unsettled ↦ inr (
            λ h. (let clash : true ≡ false = sym unsettled ∙ h.0 in cc),
            opened r read ∙ rw unsettled refl,
          )
          | inr settled ↦ elim (set_state_lem m id named now d there) [
            | inl (step, (m', made, moved)) ↦
                inl (settled, step, (m', opened r read ∙ rw (settled, made) refl, moved))
            | inr (refused, (e, error)) ↦
                inr (λ h. refused h.1, opened r read ∙ rw (settled, error) refl)
          ]
        ]
