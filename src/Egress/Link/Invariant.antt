-- ===== src/Egress/Link/Invariant.antt =====
-- What holds of both sides of the stream: which batches are under way, and with which numbers.
use mathlib.Core.Path.{subst}
use drone_audio_sensor.Common.{
  ℕ, ◌+◌, ◌≤◌, ◌<◌, ◌≡◌, refl, ap, sym, ◌∙◌, inl, inr, List, [], ◌∷◌, ◌++◌, some, arith, ◌==◌,
  length, map, All, Bool-cases,
}
use drone_audio_sensor.Common.Places.{At, Among, At-append}
use drone_audio_sensor.Egress.Receiver.{BatchAck}
use drone_audio_sensor.Egress.Forwarder.{Item, PendingBatch, find, discard, dets, ack_ids}
use drone_audio_sensor.Egress.Link.{Link}

pub All-discard :
    (P : PendingBatch → Type 0) (ps : List PendingBatch) (n : ℕ) → All P ps → All P (discard ps n)
All-discard P [] n h = h
All-discard P (p ∷ ps) n h = elim (Bool-cases (p.seq == n)) [
  | inl same ↦ rw same (All-discard P ps n h.1)
  | inr other ↦ rw other (h.0, All-discard P ps n h.1)
]

pub find_lem :
    (P : PendingBatch → Type 0) (ps : List PendingBatch) (n : ℕ) (p : PendingBatch)
    → All P ps
    → find ps n ≡ some p
    → P p × (p.seq ≡ n)
find_lem P [] n p h e = cc
find_lem P (q ∷ ps) n p h e = elim (Bool-cases (q.seq == n)) [
  | inl same ↦
      let is : q ≡ p = ground arith in
      (subst P is h.0, ap (λ (x : PendingBatch). x.seq) (sym is) ∙ (ground arith))
  | inr other ↦ find_lem P ps n p h.1 (rw other at e)
]

module _ {D : Type 0} (Came : Item D → Type 0) where
  -- A batch of messages that came.
  abbrev pub IsGroup : List (Item D) → Type 0
  IsGroup = All Came

  -- A message that came has this number, and the receiver counted a batch with its detection.
  abbrev pub IsCounted : List (List D) → ℕ → Type 0
  IsCounted counted id =
      (x : Item D) × Came x × (x.ack ≡ id) × ((b : List D) × Among counted b × Among b x.det)

  -- A batch that was written at a place below its number.
  abbrev pub IsWritten : List (List (Item D)) → PendingBatch → Type 0
  IsWritten log p =
      (i : ℕ) × (g : List (Item D)) × At log i g × (i < p.seq) × (p.acks ≡ ack_ids g) × IsGroup g

  -- The batches that wait are numbered above their places in the stream.
  abbrev pub Rising : ℕ → List (List D × PendingBatch) → ℕ → Type 0
  Rising n [] top = n ≤ top
  Rising n ((b, p) ∷ q) top =
      ((g : List (Item D)) × (b ≡ dets g) × (p.acks ≡ ack_ids g) × IsGroup g)
      × (n < p.seq)
      × Rising (n + 1) q top

  pub Rising-lower :
      (m n : ℕ) (q : List (List D × PendingBatch)) (top : ℕ)
      → m ≤ n
      → Rising n q top
      → Rising m q top
  Rising-lower m n [] top k h = omega arith
  Rising-lower m n ((b, p) ∷ q) top k (g, s, r) =
      (g, omega arith, Rising-lower (m + 1) (n + 1) q top (omega arith) r)

  pub Rising-append :
      (n : ℕ) (q : List (List D × PendingBatch)) (top : ℕ) (b : List D) (p : PendingBatch)
      (g : List (Item D))
      → b ≡ dets g
      → p.acks ≡ ack_ids g
      → IsGroup g
      → p.seq ≡ top + 1
      → Rising n q top
      → Rising n (q ++ (b, p) ∷ []) (top + 1)
  Rising-append n [] top b p g e a c s h = ((g, e, a, c), omega arith, omega arith)
  Rising-append n ((b', p') ∷ q) top b p g e a c s (w, k, r) =
      (w, k, Rising-append (n + 1) q top b p g e a c s r)

  pub record Inv (l : Link D) : Type 0 where
    pub log : List (List (Item D))
    pub got : List (List D)
    pub split : map dets log ≡ got ++ l.up
    pub place : length got ≡ l.seq
    pub sure : All (Among l.counted) got
    pub waiting : All (IsWritten log) l.fwd.pending
    pub below : All (λ (a : BatchAck). a.batch_seq ≤ l.seq) l.down
    pub queued : Rising (length log) l.fwd.out_q l.fwd.batch_seq
    pub buffered : IsGroup l.fwd.buf
    pub safe : All (IsCounted l.counted) l.fwd.acked

  pub IsCounted-group :
      (counted : List (List D)) (b : List D) (h : List (Item D))
      → Among counted b
      → IsGroup h
      → ((i : ℕ) (d : D) → At (dets h) i d → Among b d)
      → All (IsCounted counted) (ack_ids h)
  IsCounted-group counted b [] in' c sub = tt
  IsCounted-group counted b (x ∷ h) in' c sub = (
    (x, c.0, refl, (b, in', sub 0 x.det refl)),
    IsCounted-group counted b h in' c.1 (λ i d k. sub (ℕ.suc i) d k),
  )

  pub more-IsCounted :
      (counted : List (List D)) (b : List D) (id : ℕ)
      → IsCounted counted id
      → IsCounted (counted ++ b ∷ []) id
  more-IsCounted counted b id (x, c, e, (b', (i, at), d)) =
      (x, c, e, (b', (i, At-append counted (b ∷ []) i b' at), d))
