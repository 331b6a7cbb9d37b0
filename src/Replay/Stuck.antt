-- ===== src/Replay/Stuck.antt =====
-- A session whose stream takes nothing any more.
use drone_audio_sensor.Common.{
  ℕ, ◌+◌, ◌≤◌, ◌<◌, ◌≡◌, refl, sym, ◌⊎◌, inl, inr, Bool, true, false, List, [], ◌∷◌, ◌++◌, arith,
  All, if◌then◌else◌, ltb, length, Bool-cases,
}
use mathlib.Core.Path.{subst}
use drone_audio_sensor.Replay.Session.{
  audio_frame, end_of_stream, Channel, drain, put, Cycle, Session, End, returned, hangs, ended,
  finish, put_nowait, accepted, rejected, cadence, opened, persistent_stream_session,
}
use drone_audio_sensor.Replay.Puts.{
  size, put_room, put_full, heartbeat-size, put-le, heartbeat-le, any_put-le, any_heartbeat-le,
}

-- The stream takes nothing during the cycle or after it, and nobody stops the test.
abbrev pub IsDead : Cycle → Type 0
IsDead c = (c.is_stopped ≡ false) × (c.drains ≡ 0) × (c.heartbeat_drains ≡ 0) × (c.last_drains ≡ 0)

abbrev pub Hangs : End → Type 0
Hangs e = (s : Session) × (e ≡ hangs s)

ended-Hangs : (s : Session) (q : Channel) → Hangs (ended s (false, q))
ended-Hangs s q = (record s { gateway = q }, refl)

rejected-Hangs :
    (c : Cycle) (n : ℕ) (q : Channel) (s : Session)
    → c.last_drains ≡ 0
    → ltb (length q.waiting) 4 ≡ false
    → Hangs (rejected c n q s)
rejected-Hangs c n q s dead full =
    let s' = record s { sequence = n; gateway = q; frames_failed = s.frames_failed + 1 } in
    subst (λ k. Hangs (ended s' (put k end_of_stream q))) (sym dead)
      (subst (λ r. Hangs (ended s' r)) (sym (put_full end_of_stream q full))
        (ended-Hangs s' (drain 0 q)))

-- One cycle, from the answer of its put on.
module _ (c : Cycle) (cycles : List Cycle) (n : ℕ) (s : Session) where
  abbrev on_put : Bool × Channel → End
  on_put (fits, q) =
      let rest = cadence cycles (accepted c n q s) in if fits then rest else rejected c n q s

  on_room :
      (r : Bool × Channel)
      → c.heartbeat_drains ≡ 0
      → r.0 ≡ true
      → length r.1.waiting ≡ size s + 1
      → length r.1.waiting ≤ 4
      → 4 < length (c ∷ cycles) + size s
      → ((s' : Session) → size s' ≤ 4 → 4 < length cycles + size s' → Hangs (cadence cycles s'))
      → Hangs (on_put r)
  on_room (false, q) beat fits more bound many rest = absurd (let clash : false ≡ true = fits in cc)
  on_room (true, q) beat fits more bound many rest =
      let mid = record s {
        sequence = n;
        gateway = q;
        egress = put_nowait c.egress_drains (audio_frame n c.payload) s.egress;
        frames_sent = s.frames_sent + 1;
        bytes_sent = s.bytes_sent + length c.payload;
      } in
      rest (accepted c n q s) (heartbeat-le c mid beat bound)
        (omega (arith, heartbeat-size c mid beat))

  on_put-Hangs :
      c.heartbeat_drains ≡ 0
      → c.last_drains ≡ 0
      → size s ≤ 4
      → 4 < length (c ∷ cycles) + size s
      → ((s' : Session) → size s' ≤ 4 → 4 < length cycles + size s' → Hangs (cadence cycles s'))
      → Hangs (on_put (put 0 (audio_frame n c.payload) s.gateway))
  on_put-Hangs beat last small many rest =
      let m = audio_frame n c.payload in
      elim (Bool-cases (ltb (size s) 4)) [
        | inr full ↦
            subst (λ r. Hangs (on_put r)) (sym (put_full m s.gateway full))
              (rejected-Hangs c n (drain 0 s.gateway) s last full)
        | inl room ↦
            let (fits, more) = put_room m s.gateway room in
            let bound : length (put 0 m s.gateway).1.waiting ≤ 4 = put-le m s.gateway small in
            on_room (put 0 m s.gateway) beat fits more bound many rest
      ]

cadence-Hangs :
    (cycles : List Cycle) (s : Session)
    → All IsDead cycles
    → size s ≤ 4
    → 4 < length cycles + size s
    → Hangs (cadence cycles s)
cadence-Hangs [] s dead small many = absurd (omega arith)
cadence-Hangs (c ∷ cycles) s ((runs, drains, beat, last), dead) small many =
    let n = s.sequence + 1 in
    subst
      (λ (b : Bool). Hangs (
        if b
        then finish c.last_drains s
        else on_put c cycles n s (put c.drains (audio_frame n c.payload) s.gateway)))
      (sym runs)
      (subst (λ k. Hangs (on_put c cycles n s (put k (audio_frame n c.payload) s.gateway)))
        (sym drains)
        (on_put-Hangs c cycles n s beat last small many
          (λ s' small' many'. cadence-Hangs cycles s' dead small' many')))

-- The session hangs, or it had ended already.
abbrev pub EndsBefore : End → End → Type 0
EndsBefore before e = Hangs e ⊎ ((s : Session) × (before ≡ returned s) × (e ≡ returned s))

finish-EndsBefore : (k : ℕ) (s : Session) → EndsBefore (finish k s) (finish k s)
finish-EndsBefore k s = ended-EndsBefore s (put k end_of_stream s.gateway)
  where
    ended-EndsBefore : (s : Session) (r : Bool × Channel) → EndsBefore (ended s r) (ended s r)
    ended-EndsBefore s (true, q) =
        inr (record s { gateway = q; egress = put_nowait 0 end_of_stream s.egress }, refl, refl)
    ended-EndsBefore s (false, q) = inl (ended-Hangs s q)

-- One cycle, whatever the stream takes.
any_put-EndsBefore :
    (c : Cycle) (cycles more : List Cycle) (n : ℕ) (s : Session) (r : Bool × Channel)
    → length r.1.waiting ≤ 4
    → ((s' : Session) → size s' ≤ 4 → EndsBefore (cadence cycles s') (cadence (cycles ++ more) s'))
    → EndsBefore (on_put c cycles n s r) (on_put c (cycles ++ more) n s r)
any_put-EndsBefore c cycles more n s (true, q) small rest = rest (accepted c n q s) (
    any_heartbeat-le c
      (record s {
        sequence = n;
        gateway = q;
        egress = put_nowait c.egress_drains (audio_frame n c.payload) s.egress;
        frames_sent = s.frames_sent + 1;
        bytes_sent = s.bytes_sent + length c.payload;
      })
      small)
any_put-EndsBefore c cycles more n s (false, q) small rest =
    finish-EndsBefore c.last_drains
      (record s { sequence = n; gateway = q; frames_failed = s.frames_failed + 1 })

cadence-EndsBefore :
    (before cycles : List Cycle) (s : Session)
    → All IsDead cycles
    → 5 ≤ length cycles
    → size s ≤ 4
    → EndsBefore (cadence before s) (cadence (before ++ cycles) s)
cadence-EndsBefore [] cycles s dead many small =
    inl (cadence-Hangs cycles s dead small (omega arith))
cadence-EndsBefore (c ∷ before) cycles s dead many small =
    let n = s.sequence + 1 in
    let r = put c.drains (audio_frame n c.payload) s.gateway in
    elim (Bool-cases c.is_stopped) [
      | inl stopped ↦ rw stopped (finish-EndsBefore c.last_drains s)
      | inr runs ↦
          subst
            (λ (b : Bool).
              EndsBefore (if b then finish c.last_drains s else on_put c before n s r)
                (if b then finish c.last_drains s else on_put c (before ++ cycles) n s r))
            (sym runs)
            (any_put-EndsBefore c before cycles n s r
              (any_put-le c.drains (audio_frame n c.payload) s.gateway small)
              (λ s' small'. cadence-EndsBefore before cycles s' dead many small'))
    ]

-- A session whose stream, after any cycles, takes nothing for five cycles or more, neither during
-- them nor afterwards, while nobody stops the test, never returns: the put of the end of the stream
-- waits for room for ever; unless the session had returned within the cycles before.
pub persistent_stream_session-Hangs :
    (has_egress : Bool) (before cycles : List Cycle) (s : Session)
    → All IsDead cycles
    → 5 ≤ length cycles
    → EndsBefore
        (persistent_stream_session has_egress before s)
        (persistent_stream_session has_egress (before ++ cycles) s)
unfolding persistent_stream_session
persistent_stream_session-Hangs has_egress before cycles s dead many =
    cadence-EndsBefore before cycles (opened has_egress s) dead many (omega arith)
