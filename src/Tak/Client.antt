-- ===== src/Tak/Client.antt =====
-- `TakClient` of backend/tak_publisher/src/tak_publisher/tak_client.py: one connection to the TAK
-- server, made again when it is lost. `P` is the type of payloads.
use drone_audio_sensor.Common.{
  ℕ, ◌+◌, ◌≡◌, refl, ◌⊎◌, inl, inr, Bool, true, false, List, [], ◌∷◌, ◌++◌, if◌then◌else◌, arith,
  Bool-cases, sym, ◌↔◌, ◌∙◌, ap,
}
use mathlib.Core.List.{append-nil, append_assoc}

-- What one write and its drain do: they return, they raise one of the errors of a connection, or
-- they raise anything else.
pub data Write : Type 0 where
  drained connection_failed raised : Write

-- One try of `send`: how often the connection is refused before it is made, and the write.
pub record Try : Type 0 where
  pub refusals : ℕ
  pub outcome : Write

-- Whether there is a writer, the attempts since the last connection, how many connections were
-- made, the payloads that were handed to the writer, in order, and those whose drain returned. What
-- of the payloads reaches the server, and when, is not modelled: the writer may send before the drain.
pub record TakClient (P : Type 0) : Type 0 where
  pub connected : Bool
  pub attempt : ℕ
  pub connections : ℕ
  pub written : List P
  pub flushed : List P

-- The writes of the two tries under which `send` returns.
abbrev pub Drains : Write → Write → Type 0
Drains o v = (o ≡ drained) ⊎ ((o ≡ connection_failed) × (v ≡ drained))

-- What goes out if a call returns.
abbrev pub sent : {A : Type 0} → Bool → A → List A
sent true p = p ∷ []
sent false p = []

-- What a call hands to the writer.
abbrev pub writes : {A : Type 0} → Write → A → List A
writes drained p = p ∷ []
writes connection_failed p = p ∷ p ∷ []
writes raised p = p ∷ []

module _ {P : Type 0} where
  abbrev pub connect : TakClient P → TakClient P
  connect c = record c { connected = true; attempt = 0; connections = c.connections + 1 }

  -- `_connect_with_backoff`, which returns only with a connection.
  unfoldable pub connect_with_backoff : ℕ → TakClient P → TakClient P
  connect_with_backoff ℕ.zero c = connect c
  connect_with_backoff (ℕ.suc n) c = connect_with_backoff n (record c { attempt = c.attempt + 1 })

  abbrev write : P → TakClient P → TakClient P
  write p c = record c { written = c.written ++ p ∷ [] }

  abbrev pub teardown : TakClient P → TakClient P
  teardown c = record c { connected = false }

  abbrev pub ensure : Try → TakClient P → TakClient P
  ensure t c = if c.connected then c else connect_with_backoff t.refusals c

  -- What a write comes to: the end of `send`, or the next try.
  abbrev settle : Write → P → TakClient P → TakClient P × Bool → TakClient P × Bool
  settle drained p c again = (record c { flushed = c.flushed ++ p ∷ [] }, true)
  settle connection_failed p c again = again
  settle raised p c again = (c, false)

  -- The `for` of `send` over the tries that are left. `false` is an exception.
  unfoldable pub send_tries : List Try → P → TakClient P → TakClient P × Bool
  send_tries [] p c = (c, false)
  send_tries (t ∷ ts) p c =
      let c' = write p (ensure t c) in settle t.outcome p c' (send_tries ts p (teardown c'))

  unfoldable pub send : Try → Try → P → TakClient P → TakClient P × Bool
  send t u p c = send_tries (t ∷ u ∷ []) p c

  connect_with_backoff_lem :
      (n : ℕ) (c : TakClient P)
      → ((connect_with_backoff n c).flushed ≡ c.flushed)
        × ((connect_with_backoff n c).written ≡ c.written)
        × ((connect_with_backoff n c).connections ≡ c.connections + 1)
        × ((connect_with_backoff n c).connected ≡ true)
        × ((connect_with_backoff n c).attempt ≡ 0)
  unfolding connect_with_backoff
  connect_with_backoff_lem ℕ.zero c = (refl, refl, refl, refl, refl)
  connect_with_backoff_lem (ℕ.suc n) c =
      connect_with_backoff_lem n (record c { attempt = c.attempt + 1 })

  ensure-flushed : (t : Try) (c : TakClient P) → (ensure t c).flushed ≡ c.flushed
  ensure-flushed t c = elim (Bool-cases c.connected) [
    | inl up ↦ rw up refl
    | inr down ↦ rw down (connect_with_backoff_lem t.refusals _).0
  ]

  ensure-written : (t : Try) (c : TakClient P) → (ensure t c).written ≡ c.written
  ensure-written t c = elim (Bool-cases c.connected) [
    | inl up ↦ rw up refl
    | inr down ↦ rw down (connect_with_backoff_lem t.refusals _).1
  ]

  settle-flushed :
      (o : Write) (p : P) (c : TakClient P) (again : TakClient P × Bool)
      → again.0.flushed ≡ c.flushed ++ sent again.1 p
      → (settle o p c again).0.flushed ≡ c.flushed ++ sent (settle o p c again).1 p
  settle-flushed drained p c again h = refl
  settle-flushed connection_failed p c again h = h
  settle-flushed raised p c again h = sym (append-nil c.flushed)

  send_tries_lem :
      (ts : List Try) (p : P) (c : TakClient P)
      → (send_tries ts p c).0.flushed ≡ c.flushed ++ sent (send_tries ts p c).1 p
  unfolding send_tries
  send_tries_lem [] p c = sym (append-nil c.flushed)
  send_tries_lem (t ∷ ts) p c =
      let c' = write p (ensure t c) in
      let again = send_tries ts p (teardown c') in
      settle-flushed t.outcome p c' again (send_tries_lem ts p (teardown c'))
      ∙ ap (λ (xs : List P). xs ++ sent (settle t.outcome p c' again).1 p) (ensure-flushed t c)

  settle_iff :
      (o v : Write) (p : P) (c c' c'' : TakClient P)
      → ((settle o p c (settle v p c' (c'', false))).1 ≡ true) ↔ Drains o v
  settle_iff drained v p c c' c'' = ((λ h. inl refl), λ h. refl)
  settle_iff connection_failed drained p c c' c'' = ((λ h. inr (refl, refl)), λ h. refl)
  settle_iff connection_failed connection_failed p c c' c'' = ground arith
  settle_iff connection_failed raised p c c' c'' = ground arith
  settle_iff raised v p c c' c'' = ground arith

  settle-written :
      (o v : Write) (p : P) (c c' c'' : TakClient P)
      → c.written ≡ c''.written ++ p ∷ []
      → c'.written ≡ c''.written ++ p ∷ p ∷ []
      → (settle o p c (settle v p c' (teardown c', false))).0.written ≡ c''.written ++ writes o p
  settle-written drained v p c c' c'' h k = h
  settle-written connection_failed drained p c c' c'' h k = k
  settle-written connection_failed connection_failed p c c' c'' h k = k
  settle-written connection_failed raised p c c' c'' h k = k
  settle-written raised v p c c' c'' h k = h

  -- `send` tries at most twice. It returns exactly when the first write drains, or fails with an
  -- error of the connection and the second, over a new one, drains; then the payload was
  -- flushed once, and where `send` raises nothing was. The payload is written once, or twice if the
  -- first try fails with an error of the connection.
  pub send_lem :
      (t u : Try) (p : P) (c : TakClient P)
      → (((send t u p c).1 ≡ true) ↔ Drains t.outcome u.outcome)
        × ((send t u p c).0.flushed ≡ c.flushed ++ sent (send t u p c).1 p)
        × ((send t u p c).0.written ≡ c.written ++ writes t.outcome p)
  unfolding send send_tries
  send_lem t u p c =
      let c' = write p (ensure t c) in
      let c'' = write p (ensure u (teardown c')) in
      let first : c'.written ≡ c.written ++ p ∷ [] =
        ap (λ (xs : List P). xs ++ p ∷ []) (ensure-written t c) in
      let second : c''.written ≡ c.written ++ p ∷ p ∷ [] =
        ap (λ (xs : List P). xs ++ p ∷ []) (ensure-written u (teardown c') ∙ first)
        ∙ append_assoc c.written (p ∷ []) (p ∷ []) in
      (
        settle_iff t.outcome u.outcome p _ _ _,
        send_tries_lem (t ∷ u ∷ []) p c,
        settle-written t.outcome u.outcome p c' c'' c first second,
      )
