-- ===== src/Inference/Publisher/Routing.antt =====
-- Where a detection goes.
use drone_audio_sensor.Common.{
  ◌≡◌, refl, ◌≢◌, ◌⊎◌, inl, inr, Bool, true, false, List, [], ◌∷◌, ◌++◌, Option, none, some, String,
  str_eq, str_eq_iff, Bool-cases, Option-cases, sym,
}
use mathlib.Core.List.{append-nil}
use drone_audio_sensor.Inference.Gate.{DetectionEvent}
use drone_audio_sensor.Inference.Publisher.{
  Message, Attributes, Doc, Sinks, Services, effective_reason, message_of, attributes_of, write_doc,
  publish,
}

-- A detection for the operator: no reason for suppression, and not flagged as chronic.
abbrev pub IsLive : {N : Type 0} → DetectionEvent N → Type 0
IsLive e = (e.suppression_reason ≡ "") × (e.chronic_suppressed ≡ false)

abbrev pub written : {N : Type 0} → Bool → Message N → String → List (Doc N)
written true m id = record { message = m; pubsub_message_id = id } ∷ []
written false m id = []

abbrev pub published :
    {N : Type 0} → Option String → Message N → Attributes → List (Message N × Attributes)
published none m a = []
published (some id) m a = (m, a) ∷ []

module _ {N : Type 0} where
  write_doc_lem :
      (sv : Services N) (t : Sinks N) (m : Message N) (id : String)
      → ((write_doc sv t m id).docs ≡ t.docs ++ written sv.takes_doc m id)
        × ((write_doc sv t m id).topic ≡ t.topic)
  unfolding write_doc
  write_doc_lem sv t m id = elim (Bool-cases sv.takes_doc) [
    | inl yes' ↦ rw yes' (refl, refl)
    | inr no' ↦ rw no' (sym (append-nil t.docs), refl)
  ]

  live_reason : (e : DetectionEvent N) → IsLive e → str_eq (effective_reason e) "" ≡ true
  unfolding effective_reason
  live_reason e h = rw (h.0, h.1) refl

  muted_reason :
      (e : DetectionEvent N)
      → (e.suppression_reason ≢ "") ⊎ (e.chronic_suppressed ≡ true)
      → str_eq (effective_reason e) "" ≡ false
  unfolding effective_reason
  muted_reason e h = elim (Bool-cases (str_eq e.suppression_reason "")) [
    | inr labelled ↦ rw labelled labelled
    | inl blank ↦ elim h [
      | inl named ↦ absurd (named ((str_eq_iff e.suppression_reason "").0 blank))
      | inr flagged ↦ rw (blank, flagged) refl
    ]
  ]

  -- A live detection is sent to the topic, unless Pub/Sub raises, and then mirrored to Firestore
  -- under the id that it was given; the call answers with that id.
  pub publish_live :
      (sv : Services N) (s : Sinks N) (e : DetectionEvent N)
      → IsLive e
      → ((publish sv s e).1 ≡ sv.message_id)
        × ((publish sv s e).0.topic
            ≡ s.topic ++ published sv.message_id (message_of sv e) (attributes_of sv e))
  unfolding publish
  publish_live sv s e h =
      rw (live_reason e h, publish)
        (elim (Option-cases sv.message_id) [
          | inl raised ↦ rw raised (refl, sym (append-nil s.topic))
          | inr (id, sent) ↦ rw sent (refl, (write_doc_lem sv _ (message_of sv e) id).1)
        ])

  -- A detection that carries a reason for suppression, or the legacy chronic flag, never reaches
  -- the topic: it is written to Firestore with a reason that is not empty, if Firestore takes it,
  -- and the call returns normally, whatever the services answer.
  pub publish_suppressed :
      (sv : Services N) (s : Sinks N) (e : DetectionEvent N)
      → (e.suppression_reason ≢ "") ⊎ (e.chronic_suppressed ≡ true)
      → ((publish sv s e).1 ≡ some "")
        × ((publish sv s e).0.topic ≡ s.topic)
        × ((publish sv s e).0.docs ≡ s.docs ++ written sv.takes_doc (message_of sv e) "")
        × (str_eq (message_of sv e).suppression_reason "" ≡ false)
  unfolding publish
  publish_suppressed sv s e h =
      rw (muted_reason e h, publish)
        (
          refl,
          (write_doc_lem sv s (message_of sv e) "").1,
          (write_doc_lem sv s (message_of sv e) "").0,
          refl,
        )
