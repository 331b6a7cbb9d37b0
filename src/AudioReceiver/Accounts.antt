-- ===== src/AudioReceiver/Accounts.antt =====
-- The document of a run and the deltas together account for what was recorded, flush by flush.
use drone_audio_sensor.Common.{
  ℕ, ◌+◌, ◌*◌, ◌-◌, ◌≡◌, refl, sym, ◌∙◌, Bool, true, false, not, ◌&&◌, List, some, String, arith,
  str_eq, Bool-cases, inl, inr, if◌then◌else◌, ◌==◌,
}
use mathlib.Core.Path.{subst}
use drone_audio_sensor.AudioReceiver.Sink.{
  Counter, RunDoc, World, Answers, record_delta, cleared, push, flush_to, flush_once, sweep,
  sweep_stale, flush_turn,
}
use drone_audio_sensor.AudioReceiver.Servicer.{to_sink}
use drone_audio_sensor.AudioReceiver.Flush.{Within, Answering, sweep-Holds, push-Pushed}

Within-trans : (b : Bool) (x y z : ℕ) → Within b x y → Within b y z → Within b x z
Within-trans true x y z h k = h ∙ k
Within-trans false x y z h k = omega arith

Within-add : (b : Bool) (x d n t : ℕ) → Within b (x + d) t → Within b (x + (d + n)) (t + n)
Within-add true x d n t h = omega arith
Within-add false x d n t h = omega arith

module _ (b : Bool) (tag : String) where
  -- The run's document and the deltas together hold what `t` counts, or at most that.
  abbrev pub Accounts : (Counter → ℕ) → World → Type 0
  Accounts t w =
      (w.sink.has_db ≡ true)
      × (w.sink.test_run_tag ≡ tag)
      × ((w.sink.is_empty ≡ true) → (k : Counter) → w.sink.delta k ≡ 0)
      × ((d : RunDoc) × (w.docs tag ≡ some d)
          × ((k : Counter) → Within b (d.count k + w.sink.delta k) (t k)))

  pub Accounts-same :
      (t t' : Counter → ℕ) (w : World) → ((k : Counter) → t k ≡ t' k) → Accounts t w → Accounts t' w
  Accounts-same t t' w same (db, named, empty, (d, there, counts)) = (
    db,
    named,
    empty,
    (d, there, λ k. subst (λ n. Within b (d.count k + w.sink.delta k) n) (same k) (counts k)),
  )

  pub to_sink-Accounts :
      (deltas t : Counter → ℕ) (most : ℕ) (w : World)
      → Accounts t w
      → Accounts (λ k. t k + deltas k) (to_sink deltas most w)
  unfolding record_delta
  to_sink-Accounts deltas t most w (db, named, empty, (d, there, counts)) = (
    db,
    named,
    λ h. absurd (let clash : false ≡ true = h in cc),
    (d, there, λ k. Within-add b (d.count k) (w.sink.delta k) (deltas k) (t k) (counts k)),
  )

  sweep_stale-Accounts :
      (now : ℕ) (runs : List (String × RunDoc × Bool)) (t : Counter → ℕ) (w : World)
      → Accounts t w
      → Accounts t (sweep_stale now runs w)
  unfolding sweep_stale
  sweep_stale-Accounts now runs t w (db, named, empty, (d, there, counts)) =
      let (d', there', same) =
        sweep-Holds (now - 300 * 1000) now runs tag d.count w.docs (d, there, λ k. refl) in
      let swept : World = record w { docs = sweep (now - 300 * 1000) now runs w.docs } in
      subst (λ (c : Bool). Accounts t (if not c then w else swept)) (sym db)
        (
          db,
          named,
          empty,
          (
            d',
            there',
            λ k. subst (λ n. Within b (n + w.sink.delta k) (t k)) (sym (same k)) (counts k),
          ),
        )

  -- A flush that has nothing to write, and one that pushes.
  cleared-Accounts :
      (t : Counter → ℕ) (w : World)
      → w.sink.is_empty ≡ true
      → Accounts t w
      → Accounts t (record w { sink = cleared w.sink })
  cleared-Accounts t w none_left (db, named, empty, (d, there, counts)) = (
    db,
    named,
    λ h k. refl,
    (d, there, λ k. subst (λ n. Within b (d.count k + n) (t k)) (empty none_left k) (counts k)),
  )

  pushed-Accounts :
      (a : Answers) (t : Counter → ℕ) (w : World)
      → Answering b a
      → Accounts t w
      → Accounts t (record {
        sink = cleared w.sink;
        docs = push w.sink.delta w.sink.max_single false a tag w.docs;
      })
  pushed-Accounts a t w good (db, named, empty, (d, there, counts)) =
      let (d', there', pushed) =
        push-Pushed w.sink.delta d.count false tag b w.sink.max_single a w.docs good
          (d, there, λ k. refl) in
      (
        db,
        named,
        λ h k. refl,
        (
          d',
          there',
          λ k.
              Within-trans b (d'.count k + 0) (d.count k + w.sink.delta k) (t k)
                (subst (λ n. Within b n (d.count k + w.sink.delta k)) (omega arith) (pushed k))
                (counts k),
        ),
      )

  flush_to-Accounts :
      (a : Answers) (t : Counter → ℕ) (w : World)
      → str_eq tag "" ≡ false
      → Answering b a
      → Accounts t w
      → Accounts t (flush_to tag false a w)
  flush_to-Accounts a t w tagged good accounts =
      let skipped : World = record w { sink = cleared w.sink } in
      let pushed : World = record {
        sink = cleared w.sink;
        docs = push w.sink.delta w.sink.max_single false a tag w.docs;
      } in
      subst
        (λ (c : Bool). Accounts t (
          if c
          then w
          else if w.sink.is_empty && w.sink.max_single == 0 && true
          then skipped
          else pushed))
        (sym tagged)
        (elim (Bool-cases w.sink.is_empty) [
          | inr some_left ↦
              subst
                (λ (c : Bool).
                  Accounts t (if c && w.sink.max_single == 0 && true then skipped else pushed))
                (sym some_left) (pushed-Accounts a t w good accounts)
          | inl none_left ↦ (elim (Bool-cases (w.sink.is_empty && w.sink.max_single == 0 && true)) [
            | inl skips ↦
                subst (λ (c : Bool). Accounts t (if c then skipped else pushed)) (sym skips)
                  (cleared-Accounts t w none_left accounts)
            | inr pushes ↦
                subst (λ (c : Bool). Accounts t (if c then skipped else pushed)) (sym pushes)
                  (pushed-Accounts a t w good accounts)
          ])
        ])

  flush_once-Accounts :
      (a : Answers) (t : Counter → ℕ) (w : World)
      → str_eq tag "" ≡ false
      → Answering b a
      → Accounts t w
      → Accounts t (flush_once false "" a w)
  unfolding flush_once
  flush_once-Accounts a t w tagged good accounts =
      subst (λ (c : Bool). Accounts t (if not c then w else flush_to w.sink.test_run_tag false a w))
        (sym accounts.0)
        (subst (λ (s : String). Accounts t (flush_to s false a w)) (sym accounts.1)
          (flush_to-Accounts a t w tagged good accounts))

  pub flush_turn-Accounts :
      (a : Answers) (now : ℕ) (runs : List (String × RunDoc × Bool)) (t : Counter → ℕ) (w : World)
      → str_eq tag "" ≡ false
      → Answering b a
      → Accounts t w
      → Accounts t (flush_turn a now runs w)
  unfolding flush_turn
  flush_turn-Accounts a now runs t w tagged good accounts =
      sweep_stale-Accounts now runs t (flush_once false "" a w)
        (flush_once-Accounts a t w tagged good accounts)
