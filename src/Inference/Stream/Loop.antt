-- ===== src/Inference/Stream/Loop.antt =====
-- What the loop of the consumer handles and acknowledges, over all the batches that it reads.
use drone_audio_sensor.Common.{
  ℕ, ◌≡◌, refl, ap, sym, ◌∙◌, ◌≢◌, Bool, true, false, ◌&&◌, List, [], ◌∷◌, ◌++◌, Option, none, some,
  All, Bool-cases, inl, inr, if◌then◌else◌,
}
use mathlib.Core.List.{append-nil, append_assoc}
use drone_audio_sensor.Inference.Gate.{FrameInput}
use drone_audio_sensor.Inference.Stream.{
  Utf8, Delivery, Read, raised, entries, Consumer, Handler, xack, outcome, with_frame, decode_frame,
  take_entry, take_batch, turns, Created, created, busygroup, failed, ensure_group, run,
}

-- The entries that were delivered, in order.
abbrev pub delivered : {A : Type 0} → List (Read A) → List (Delivery A)
delivered [] = []
delivered (raised ∷ reads) = delivered reads
delivered (entries ds ∷ reads) = ds ++ delivered reads

module _ {A : Type 0} {S : Type 0} (u : Utf8) (h : Handler A S) where
  -- The specification: the frames of the entries in order, each with what surrounds it.
  abbrev pub frame_then : A → Option FrameInput → List (A × FrameInput) → List (A × FrameInput)
  frame_then a none rest = rest
  frame_then a (some f) rest = (a, f) ∷ rest

  abbrev pub frames_of : List (Delivery A) → List (A × FrameInput)
  frames_of [] = []
  frames_of (d ∷ ds) = frame_then d.around (decode_frame u d.fields) (frames_of ds)

  -- Every frame is handled once, in order, whether or not the handler raises.
  abbrev pub fold : List (A × FrameInput) → S → S
  fold [] s = s
  fold ((a, f) ∷ rest) s = fold rest (h a f s).0

  -- The XACKs of the entries that give no frame return.
  abbrev pub Settles : List (Delivery A) → Type 0
  Settles = All (λ (d : Delivery A). (decode_frame u d.fields ≡ none) → d.acks ≡ true)

  -- Those ids are acknowledged that give no frame, or whose handler returns, if the XACK returns.
  abbrev pub id_if : Bool → ℕ → List ℕ
  id_if true id = id ∷ []
  id_if false id = []

  abbrev pub settled : A → Option FrameInput → S → Bool
  settled a none s = true
  settled a (some f) s = (h a f s).1

  abbrev pub next : A → Option FrameInput → S → S
  next a none s = s
  next a (some f) s = (h a f s).0

  abbrev pub ids_of : List (Delivery A) → S → List ℕ
  ids_of [] s = []
  ids_of (d ∷ ds) s =
      let o = decode_frame u d.fields in
      id_if (settled d.around o s && d.acks) d.entry_id ++ ids_of ds (next d.around o s)

  none_acked :
      (d : Delivery A) (acked : List ℕ)
      → (b : Bool) → d.acks ≡ b
      → xack u h d acked ≡ acked ++ id_if b d.entry_id
  none_acked d acked true is = rw is refl
  none_acked d acked false is = rw is (sym (append-nil acked))

  outcome_lem :
      (d : Delivery A) (acked : List ℕ) (r : S × Bool)
      → outcome u h d acked r
        ≡ record { handled = r.0; acked = acked ++ id_if (r.1 && d.acks) d.entry_id }
  outcome_lem d acked (s, true) =
      ap (λ ids. record { handled = s; acked = ids }) (none_acked d acked d.acks refl)
  outcome_lem d acked (s, false) =
      ap (λ ids. record { handled = s; acked = ids }) (sym (append-nil acked))

  with_frame_lem :
      (d : Delivery A) (c : Consumer S) (o : Option FrameInput)
      → ((o ≡ none) → d.acks ≡ true)
      → with_frame u h d c o ≡ (
        record {
          handled = next d.around o c.handled;
          acked = c.acked ++ id_if (settled d.around o c.handled && d.acks) d.entry_id;
        },
        true,
      )
  with_frame_lem d c none acks = rw (acks refl) refl
  with_frame_lem d c (some f) acks =
      ap (λ (k : Consumer S). (k, true)) (outcome_lem d c.acked (h d.around f c.handled))

  fold-next :
      (a : A) (o : Option FrameInput) (rest : List (A × FrameInput)) (s : S)
      → fold (frame_then a o rest) s ≡ fold rest (next a o s)
  fold-next a none rest s = refl
  fold-next a (some f) rest s = refl

  take_batch_lem :
      (ds : List (Delivery A)) (c : Consumer S)
      → Settles ds
      → take_batch u h ds c ≡ (
        record { handled = fold (frames_of ds) c.handled; acked = c.acked ++ ids_of ds c.handled },
        true,
      )
  unfolding take_batch take_entry
  take_batch_lem [] c h' =
      ap (λ ids. (record { handled = c.handled; acked = ids }, true)) (sym (append-nil c.acked))
  take_batch_lem (d ∷ ds) c (first, settles) =
      let o = decode_frame u d.fields in
      let ids = id_if (settled d.around o c.handled && d.acks) d.entry_id in
      let mid : Consumer S = record {
        handled = next d.around o c.handled;
        acked = c.acked ++ ids;
      } in
      ap (λ (r : Consumer S × Bool). if r.1 then take_batch u h ds r.0 else (r.0, false))
        (with_frame_lem d c o first)
      ∙ take_batch_lem ds mid settles
      ∙ ap (λ (s : S). (record { handled = s; acked = mid.acked ++ ids_of ds mid.handled }, true))
          (sym (fold-next d.around o (frames_of ds) c.handled))
      ∙ ap
          (λ (l : List ℕ).
            (record { handled = fold (frames_of (d ∷ ds)) c.handled; acked = l }, true))
          (append_assoc c.acked ids (ids_of ds mid.handled))

  take_batch-append :
      (ds es : List (Delivery A)) (c : Consumer S)
      → take_batch u h (ds ++ es) c
        ≡ (let r = take_batch u h ds c in if r.1 then take_batch u h es r.0 else (r.0, false))
  unfolding take_batch
  take_batch-append [] es c = refl
  take_batch-append (d ∷ ds) es c = elim (Bool-cases (take_entry u h d c).1) [
    | inl on ↦ rw on (take_batch-append ds es (take_entry u h d c).0)
    | inr off ↦ rw off refl
  ]

  -- Batches, timeouts and reads that fail make no difference.
  turns-batches :
      (reads : List (Read A)) (c : Consumer S)
      → turns u h reads c ≡ take_batch u h (delivered reads) c
  unfolding turns take_batch
  turns-batches [] c = refl
  turns-batches (raised ∷ reads) c = turns-batches reads c
  turns-batches (entries ds ∷ reads) c = sym (
      take_batch-append ds (delivered reads) c ∙ elim (Bool-cases (take_batch u h ds c).1) [
        | inl on ↦ rw on (sym (turns-batches reads (take_batch u h ds c).0))
        | inr off ↦ rw off refl
      ])

  -- If the consumer group is there or can be made, and the XACKs of the entries without a frame
  -- return, the loop goes on to the end of the answers, whatever their batches: it hands every frame
  -- that was delivered to the handler once, in order, those after a frame whose handler raised
  -- included, and it acknowledges the entries without a frame and those whose handler and XACK
  -- returned, and no other.
  pub run_lem :
      (answer : Created) (reads : List (Read A)) (c : Consumer S)
      → answer ≢ failed
      → Settles (delivered reads)
      → run u h answer reads c
        ≡ some (
          record {
            handled = fold (frames_of (delivered reads)) c.handled;
            acked = c.acked ++ ids_of (delivered reads) c.handled;
          },
          true,
        )
  unfolding run ensure_group
  run_lem created reads c there settles =
      ap some (turns-batches reads c ∙ take_batch_lem (delivered reads) c settles)
  run_lem busygroup reads c there settles =
      ap some (turns-batches reads c ∙ take_batch_lem (delivered reads) c settles)
  run_lem failed reads c there settles = absurd (there refl)
