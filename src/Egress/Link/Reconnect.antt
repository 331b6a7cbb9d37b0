-- ===== src/Egress/Link/Reconnect.antt =====
-- What a reconnection does to the numbers of batches.
use drone_audio_sensor.Common.{
  ℕ, ◌+◌, ◌≡◌, refl, Bool, false, List, [], ◌∷◌, ◌++◌, arith, ◌==◌, length,
}
use drone_audio_sensor.Egress.Forwarder.{Item, enqueue, drain, next_request, on_ack, reconnect}
use drone_audio_sensor.Egress.Link.{
  Link, Event, message, round, request, receive, acknowledge, lose, step, steps, stream_batch,
}

-- A publisher that has numbered `k` batches, and has nothing left to send.
abbrev pub idle : {D : Type 0} → ℕ → Link D → Link D
idle k l = record l { fwd = record (l.fwd) { buf = []; out_q = []; batch_seq = k } }

-- A message that is batched, received and acknowledged over a new stream.
abbrev pub delivery : {D : Type 0} → Item D → ℕ → Bool → List (Event D)
delivery x now_ms failed =
    lose failed failed ∷ message x ∷ round ∷ request ∷ receive now_ms ∷ acknowledge ∷ []

module _ {D : Type 0} (byte_size : List D → ℕ) (batch_size : ℕ) where
  later_number : (k : ℕ) → ((k + 1 + 1) == 1) ≡ false
  later_number k = ground arith

  -- After a reconnection the numbers of the two sides differ: if any batch was numbered before,
  -- the receiver counts the first batch of the new stream, and its acknowledgement arrives, but no
  -- message is acknowledged to Pub/Sub, and the batch goes on waiting.
  pub reconnect_unacked :
      (l : Link D) (k : ℕ) (x : Item D) (now_ms : ℕ) (failed : Bool)
      → let l' = steps byte_size batch_size (idle (k + 1) l) (delivery x now_ms failed) in
        (l'.counted ≡ l.counted ++ (x.det ∷ []) ∷ [])
        × (l'.down ≡ [])
        × (l'.fwd.acked ≡ l.fwd.acked)
        × (length l'.fwd.pending ≡ 1)
  unfolding step enqueue drain next_request on_ack reconnect stream_batch
  reconnect_unacked l k x now_ms failed = rw (later_number k) (refl, refl, refl, refl)

  -- Before any batch was numbered, the same message is acknowledged.
  pub first_acked :
      (l : Link D) (x : Item D) (now_ms : ℕ) (failed : Bool)
      → let l' = steps byte_size batch_size (idle 0 l) (delivery x now_ms failed) in
        (l'.counted ≡ l.counted ++ (x.det ∷ []) ∷ [])
        × (l'.fwd.acked ≡ l.fwd.acked ++ x.ack ∷ [])
        × (l'.fwd.pending ≡ [])
  unfolding step enqueue drain next_request on_ack reconnect stream_batch
  first_acked l x now_ms failed = (refl, refl, refl)
