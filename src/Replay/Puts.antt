-- ===== src/Replay/Puts.antt =====
-- How many messages wait after a put.
use drone_audio_sensor.Common.{
  ℕ, ◌+◌, ◌≤◌, ◌<◌, ◌≡◌, refl, ◌∙◌, inl, inr, Bool, true, false, [], ◌∷◌, arith, ltb, length,
  length-append, Bool-cases,
}
use drone_audio_sensor.Replay.Clip.{length-drop}
use drone_audio_sensor.Replay.Session.{
  Message, handshake, Channel, drain, put, Cycle, Session, refreshed, heartbeat,
}

-- The messages that wait for the gateway's stream.
abbrev pub size : Session → ℕ
size s = length s.gateway.waiting

pub put_room :
    (m : Message) (q : Channel)
    → ltb (length q.waiting) 4 ≡ true
    → (put 0 m q).0 ≡ true × (length (put 0 m q).1.waiting ≡ length q.waiting + 1)
put_room m q room = rw room (refl, length-append q.waiting (m ∷ []) ∙ omega arith)

pub put_full :
    (m : Message) (q : Channel)
    → ltb (length q.waiting) 4 ≡ false
    → (put 0 m q) ≡ (false, drain 0 q)
put_full m q full = rw full refl

pub put_keeps : (m : Message) (q : Channel) → length q.waiting ≤ length (put 0 m q).1.waiting
put_keeps m q = elim (Bool-cases (ltb (length q.waiting) 4)) [
  | inl room ↦ (let (fits, more) = put_room m q room in omega arith)
  | inr full ↦ rw full (omega arith)
]

pub refreshed-size : (s : Session) (r : Bool × Channel) → size (refreshed s r) ≡ length r.1.waiting
refreshed-size s (true, q) = refl
refreshed-size s (false, q) = refl

pub heartbeat-size :
    (c : Cycle) (s : Session) → c.heartbeat_drains ≡ 0 → size s ≤ size (heartbeat c s)
heartbeat-size c s dead = elim (Bool-cases c.is_heartbeat_due) [
  | inr calm ↦ rw calm (omega arith)
  | inl due ↦
      rw (due, dead)
        (omega (arith, refreshed-size s (put 0 handshake s.gateway), put_keeps handshake s.gateway))
]

pub put-le : (m : Message) (q : Channel) → length q.waiting ≤ 4 → length (put 0 m q).1.waiting ≤ 4
put-le m q h = elim (Bool-cases (ltb (length q.waiting) 4)) [
  | inl room ↦
      (let (fits, more) = put_room m q room in
        let less : length q.waiting < 4 = ground arith in omega arith)
  | inr full ↦ rw full h
]

pub heartbeat-le :
    (c : Cycle) (s : Session) → c.heartbeat_drains ≡ 0 → size s ≤ 4 → size (heartbeat c s) ≤ 4
heartbeat-le c s dead h = elim (Bool-cases c.is_heartbeat_due) [
  | inr calm ↦ rw calm h
  | inl due ↦
      rw (due, dead)
        (omega (arith, refreshed-size s (put 0 handshake s.gateway), put-le handshake s.gateway h))
]

pub any_put-le :
    (k : ℕ) (m : Message) (q : Channel) → length q.waiting ≤ 4 → length (put k m q).1.waiting ≤ 4
any_put-le k m q h =
    let left : length (drain k q).waiting ≤ 4 = omega (arith, length-drop k q.waiting) in
    elim (Bool-cases (ltb (length (drain k q).waiting) 4)) [
      | inl room ↦ rw room (
          let less : length (drain k q).waiting < 4 = ground arith in
          omega (arith, length-append (drain k q).waiting (m ∷ [])))
      | inr full ↦ rw full left
    ]

pub any_heartbeat-le : (c : Cycle) (s : Session) → size s ≤ 4 → size (heartbeat c s) ≤ 4
any_heartbeat-le c s h = elim (Bool-cases c.is_heartbeat_due) [
  | inr calm ↦ rw calm h
  | inl due ↦ rw due (
      omega (
        arith,
        refreshed-size s (put c.heartbeat_drains handshake s.gateway),
        any_put-le c.heartbeat_drains handshake s.gateway h,
      ))
]
