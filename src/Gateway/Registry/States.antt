-- ===== src/Gateway/Registry/States.antt =====
-- What the registry's methods do to lifecycle states.
use Prim.Native.String.{String}
use drone_audio_sensor.Common.{
  ℕ, ◌≡◌, refl, ◌∙◌, ap, sym, Bool-cases, true, false, Option, none, some, arith, str_eq,
  str_eq_refl, get_or, inl, inr,
}
use drone_audio_sensor.Common.Int.{ℤ}
use drone_audio_sensor.Lifecycle.{
  State, setup_pending, active, wipe_sent, wipe_requested, text, normalize, state_eq,
}
use drone_audio_sensor.Lifecycle.Rules.{normalize-text}
use drone_audio_sensor.Gateway.Store.{Device, Table, merge, empty}
use drone_audio_sensor.Gateway.Registry.{
  HandshakeFields, state_of, handshake_payload, put_location, location_payload, codec_payload,
  disconnect_payload, wipe_payload, upsert_handshake, update_location, update_audio_codec, lookup,
  get_state, setup_payload, setup_txn, complete_setup, mark_wipe_sent, mark_disconnected,
}

unfoldable pub after_setup : State → State
after_setup setup_pending = active
after_setup s = s

after_setup_other : (s : State) → state_eq s setup_pending ≡ false → after_setup s ≡ s
unfolding after_setup
after_setup_other s h = ground arith

after_setup_pending : (s : State) → state_eq s setup_pending ≡ true → after_setup s ≡ active
unfolding after_setup
after_setup_pending s h = ground arith

module _ {F : Type 0} where
  -- The state of a device, if it has a document.
  abbrev pub life : Option (Device F) → Option State
  life none = none
  life (some d) = some (state_of d)

  -- From one collection to the other, the document of `k` keeps its state and its legacy status,
  -- and every other document is the same.
  pub record Keeps (k : String) (m m' : Table (Device F)) : Type 0 where
    pub there :
        (d : Device F)
        → m k ≡ some d
        → (d' : Device F) × (m' k ≡ some d') × (d'.state ≡ d.state) × (d'.status ≡ d.status)
    pub elsewhere : (j : String) → str_eq k j ≡ false → m' j ≡ m j

  pub Keeps-refl : (k : String) (m : Table (Device F)) → Keeps k m m
  Keeps-refl k m = record { there = λ d e. (d, e, refl, refl); elsewhere = λ j h. refl }

  pub Keeps-trans :
      {k : String} {m m' m'' : Table (Device F)} → Keeps k m m' → Keeps k m' m'' → Keeps k m m''
  Keeps-trans h g = record {
    there = λ d e.
        let (d', e', s, t) = h.there d e in
        let (d'', e'', s', t') = g.there d' e' in (d'', e'', s' ∙ s, t' ∙ t);
    elsewhere = λ j n. g.elsewhere j n ∙ h.elsewhere j n;
  }

  pub merge_self :
      (m : Table (Device F)) (k : String) (f : Device F → Device F)
      → merge m k f k ≡ some (f (get_or (m k) empty))
  merge_self m k f = rw (str_eq_refl k)

  pub merge-Keeps :
      (m : Table (Device F)) (k : String) (f : Device F → Device F)
      → ((d : Device F) → ((f d).state ≡ d.state) × ((f d).status ≡ d.status))
      → Keeps k m (merge m k f)
  merge-Keeps m k f same = record {
    there = λ d e. (f d, (merge_self m k f ∙ rw e), (same d).0, (same d).1);
    elsewhere = λ j n. rw n;
  }

  pub update_location-Keeps :
      (m : Table (Device F)) (k : String) (lat lon : F) (acc : Option F) (status : Option String)
      (ts : ℤ) (now : ℕ)
      → Keeps k m (update_location m k lat lon acc status ts now)
  unfolding update_location
  update_location-Keeps m k lat lon acc status ts now =
      merge-Keeps m k (location_payload lat lon acc status ts now) (λ d. (refl, refl))

  pub update_audio_codec-Keeps :
      (m : Table (Device F)) (k codec : String) → Keeps k m (update_audio_codec m k codec)
  unfolding update_audio_codec
  update_audio_codec-Keeps m k codec = merge-Keeps m k (codec_payload codec) (λ d. (refl, refl))

  pub mark_disconnected-Keeps :
      (m : Table (Device F)) (k reason : String) (now : ℕ)
      → Keeps k m (mark_disconnected m k reason now)
  unfolding mark_disconnected
  mark_disconnected-Keeps m k reason now =
      merge-Keeps m k (disconnect_payload reason now) (λ d. (refl, refl))

  put_location-state :
      (lat lon acc : Option F) (status : Option String) (ts : ℤ) (d : Device F)
      → ((put_location lat lon acc status ts d).state ≡ d.state)
        × ((put_location lat lon acc status ts d).status ≡ d.status)
  unfolding put_location
  put_location-state none lon acc status ts d = (refl, refl)
  put_location-state (some lat) none acc status ts d = (refl, refl)
  put_location-state (some lat) (some lon) acc status ts d = (refl, refl)

  handshake_payload-state :
      (d : Device F) (k : String) (h : HandshakeFields F) (now : ℕ) (s : String)
      → d.state ≡ some s
      → ((handshake_payload (some d) k h now d).state ≡ d.state)
        × ((handshake_payload (some d) k h now d).status ≡ d.status)
  unfolding handshake_payload
  handshake_payload-state d k h now s e = ground (arith)

  pub upsert_handshake-Keeps :
      (m : Table (Device F)) (k : String) (h : HandshakeFields F) (now : ℕ) (d : Device F)
      (s : String)
      → m k ≡ some d
      → d.state ≡ some s
      → Keeps k m (upsert_handshake m k h now).0
  unfolding upsert_handshake
  upsert_handshake-Keeps m k h now d s e r = record {
    there = λ d' e'.
        let same : d ≡ d' = cc in
        let (st, stat) = handshake_payload-state d k h now s r in
        (
          handshake_payload (some d) k h now d,
          rw (str_eq_refl k, e) refl,
          st ∙ ap (λ (x : Device F). x.state) same,
          stat ∙ ap (λ (x : Device F). x.status) same,
        );
    elsewhere = λ j n. rw n;
  }

  -- The state that a document holds is the one by which a session goes.
  pub normalize-get_state :
      (m : Table (Device F)) (k : String) (d : Device F)
      → m k ≡ some d
      → normalize (get_state m k) ≡ state_of d
  unfolding get_state
  normalize-get_state m k d e = rw (e, get_state, lookup) (normalize-text (state_of d))

  pub life_of_Keeps :
      {k : String} {m m' : Table (Device F)} (d : Device F)
      → m k ≡ some d
      → Keeps k m m'
      → life (m' k) ≡ some (state_of d)
  unfolding state_of
  life_of_Keeps d e h = let (d', e', s, t) = h.there d e in rw e' (rw (s, t) refl)

  state_of-text : (d : Device F) (s : State) → d.state ≡ some (text s) → state_of d ≡ s
  unfolding state_of
  state_of-text d setup_pending e = rw e (normalize-text setup_pending)
  state_of-text d active e = rw e (normalize-text active)
  state_of-text d State.lost e = rw e (normalize-text State.lost)
  state_of-text d State.revoked e = rw e (normalize-text State.revoked)
  state_of-text d wipe_requested e = rw e (normalize-text wipe_requested)
  state_of-text d wipe_sent e = rw e (normalize-text wipe_sent)

  setup_payload-state :
      (session_id : String) (now : ℕ) (d : Device F)
      → state_of (setup_payload session_id now d) ≡ active
  unfolding setup_payload
  setup_payload-state session_id now d = state_of-text _ active refl

  -- A device in setup becomes active, and the call says so; any other device, and every other
  -- document, is left exactly as it was.
  pub complete_setup_lem :
      (m : Table (Device F)) (k session_id : String) (now : ℕ) (d : Device F)
      → m k ≡ some d
      → let r = complete_setup m k session_id now in
        (life (r.0 k) ≡ some (after_setup (state_of d)))
        × (r.1 ≡ state_eq (state_of d) setup_pending)
        × (r.1 ≡ false → r.0 ≡ m)
        × ((j : String) → str_eq k j ≡ false → r.0 j ≡ m j)
  unfolding complete_setup
  complete_setup_lem m k session_id now d e =
      rw (e, setup_txn)
        (elim (Bool-cases (state_eq (state_of d) setup_pending)) [
          | inl pending ↦ rw pending (
            rw (merge_self m k (setup_payload session_id now)) (
                ap some (
                  setup_payload-state session_id now (get_or (m k) empty)
                  ∙ sym (after_setup_pending _ pending))),
            refl,
            (λ f. cc),
            λ j n. rw n,
          )
          | inr other ↦
              rw other
                (rw e (ap some (sym (after_setup_other _ other))), refl, (λ f. refl), λ j n. refl)
        ])

  pub mark_wipe_sent-life :
      (m : Table (Device F)) (k session_id : String) (now : ℕ)
      → (life (mark_wipe_sent m k session_id now k) ≡ some wipe_sent)
        × ((j : String) → str_eq k j ≡ false → mark_wipe_sent m k session_id now j ≡ m j)
  unfolding mark_wipe_sent wipe_payload
  mark_wipe_sent-life m k session_id now =
      (rw (str_eq_refl k) (ap some (state_of-text _ wipe_sent refl)), λ j n. rw n)

  handshake_payload-seeds :
      (d : Device F) (k : String) (h : HandshakeFields F) (now : ℕ)
      → d.state ≡ none
      → (handshake_payload (some d) k h now d).state ≡ some (text active)
  unfolding handshake_payload
  handshake_payload-seeds d k h now e = ground arith

  -- A document that has no `state` is made active by a handshake, whatever its legacy `status`
  -- says, `revoked` included.
  pub upsert_handshake_forgets_status :
      (m : Table (Device F)) (k : String) (h : HandshakeFields F) (now : ℕ) (d : Device F)
      → m k ≡ some d
      → d.state ≡ none
      → life ((upsert_handshake m k h now).0 k) ≡ some active
  unfolding upsert_handshake
  upsert_handshake_forgets_status m k h now d e r =
      rw (str_eq_refl k, e)
        (ap some (
          state_of-text (handshake_payload (some d) k h now d) active
            (handshake_payload-seeds d k h now r)))

  -- The document after `complete_setup`, where the one before records its state.
  pub complete_setup-doc :
      (m : Table (Device F)) (k session_id : String) (now : ℕ) (d : Device F) (s : String)
      → m k ≡ some d
      → d.state ≡ some s
      → (d' : Device F) × (s' : String) × ((complete_setup m k session_id now).0 k ≡ some d')
        × (d'.state ≡ some s')
        × (state_of d' ≡ after_setup (state_of d))
  unfolding complete_setup
  complete_setup-doc m k session_id now d s e r =
      elim (Bool-cases (state_eq (state_of d) setup_pending)) [
        | inl pending ↦ (
          setup_payload session_id now d,
          text active,
          rw (e, setup_txn) (rw pending (rw (str_eq_refl k, e) refl)),
          (unfold setup_payload in refl),
          setup_payload-state session_id now d ∙ sym (after_setup_pending _ pending),
        )
        | inr other ↦ (d, s, rw (e, setup_txn) (rw other e), r, sym (after_setup_other _ other))
      ]

  pub state_of_same :
      (d d' : Device F) → d'.state ≡ d.state → d'.status ≡ d.status → state_of d' ≡ state_of d
  unfolding state_of
  state_of_same d d' s t = rw (s, t) refl
