-- ===== src/Admin/Simulated.antt =====
-- What the simulator's request does to the devices and to the live states.
use drone_audio_sensor.Common.{
  ℕ, ◌+◌, ◌≡◌, refl, sym, ◌∙◌, ◌⊎◌, inl, inr, Bool, true, false, not, ◌&&◌, ◌||◌, List, [], ◌∷◌,
  Option, some, String, if◌then◌else◌, str_eq, ltb, get_or, length, Bool-cases,
}
use drone_audio_sensor.Common.Text.{strip, lower}
use drone_audio_sensor.Lifecycle.{active}
use drone_audio_sensor.Lifecycle.Mirror.{normalize}
use drone_audio_sensor.Gateway.Store.{Device, Table, write, merge, empty}
use drone_audio_sensor.Admin.{current_state}
use drone_audio_sensor.Admin.Live.{LiveDoc}
use drone_audio_sensor.Admin.Simulate.{
  SimulatedPhone, Settings, Stores, Answer, refreshed, http_error, time_or, upserted,
  upsert_simulated_devices, live_state, refresh_simulated_devices, refreshed_stores,
  api_simulate_phones,
}

neither : (a b : Bool) → (a || b) ≡ false → (a ≡ false) × (b ≡ false)
neither true b h = absurd (cc)
neither false b h = (refl, h)

either : (a b : Bool) → (a || b) ≡ true → (a ≡ true) ⊎ (b ≡ true)
either true b h = inl refl
either false b h = inr h

module _ {F : Type 0} (five : F) (session_ids : ℕ → String) where
  abbrev pub listed : List (SimulatedPhone F) → String → Bool
  listed [] id = false
  listed (p ∷ phones) id = str_eq p.device_id id || listed phones id

  -- The device is there and active, as the simulator's.
  abbrev pub IsSimulated : Table (Device F) → String → Type 0
  IsSimulated m id =
      (d : Device F) × (m id ≡ some d)
      × (current_state d ≡ active)
      × (d.app_version ≡ some "sim-soh-1.0")

  abbrev pub IsLive : Table LiveDoc → String → Type 0
  IsLive m id = (l : LiveDoc) × (m id ≡ some l) × (l.app_version ≡ some "sim-soh-1.0")

  active_again :
      (p : SimulatedPhone F) (t : ℕ) (d : Device F)
      → current_state (upserted five session_ids p t d) ≡ active
  unfolding current_state normalize strip lower
  active_again p t d = refl

  upsert-others :
      (phones : List (SimulatedPhone F)) (t : ℕ) (m : Table (Device F)) (id : String)
      → listed phones id ≡ false
      → upsert_simulated_devices five session_ids phones t m id ≡ m id
  unfolding upsert_simulated_devices
  upsert-others [] t m id h = refl
  upsert-others (p ∷ phones) t m id h =
      let (other, rest) = neither (str_eq p.device_id id) (listed phones id) h in
      upsert-others phones t (merge m p.device_id (upserted five session_ids p t)) id rest
      ∙ rw other refl

  refresh-others :
      (n : ℕ) (phones : List (SimulatedPhone F)) (t tick : ℕ) (m : Table LiveDoc) (id : String)
      → listed phones id ≡ false
      → refresh_simulated_devices five session_ids n phones t tick m id ≡ m id
  unfolding refresh_simulated_devices
  refresh-others n [] t tick m id h = refl
  refresh-others n (p ∷ phones) t tick m id h =
      let (other, rest) = neither (str_eq p.device_id id) (listed phones id) h in
      refresh-others (n + 1) phones t tick
        (write m p.device_id (live_state five session_ids p t tick n)) id rest
      ∙ rw other refl

  merge-IsSimulated :
      (p : SimulatedPhone F) (t : ℕ) (m : Table (Device F)) (id : String)
      → (str_eq p.device_id id ≡ true) ⊎ IsSimulated m id
      → IsSimulated (merge m p.device_id (upserted five session_ids p t)) id
  merge-IsSimulated p t m id h = elim (Bool-cases (str_eq p.device_id id)) [
    | inl same ↦
        let d = upserted five session_ids p t (get_or (m p.device_id) empty) in
        (d, rw same refl, active_again p t (get_or (m p.device_id) empty), refl)
    | inr other ↦ elim h [
      | inl same ↦ absurd (let clash : true ≡ false = sym same ∙ other in cc)
      | inr (d, there, is, made) ↦ (d, rw other there, is, made)
    ]
  ]

  write-IsLive :
      (p : SimulatedPhone F) (t tick n : ℕ) (m : Table LiveDoc) (id : String)
      → (str_eq p.device_id id ≡ true) ⊎ IsLive m id
      → IsLive (write m p.device_id (live_state five session_ids p t tick n)) id
  write-IsLive p t tick n m id h = elim (Bool-cases (str_eq p.device_id id)) [
    | inl same ↦ (live_state five session_ids p t tick n, rw same refl, refl)
    | inr other ↦ elim h [
      | inl same ↦ absurd (let clash : true ≡ false = sym same ∙ other in cc)
      | inr (d, there, rest) ↦ (d, rw other there, rest)
    ]
  ]

  -- Whoever is listed, or was there before, is there afterwards.
  upsert-IsSimulated :
      (phones : List (SimulatedPhone F)) (t : ℕ) (m : Table (Device F)) (id : String)
      → (listed phones id ≡ true) ⊎ IsSimulated m id
      → IsSimulated (upsert_simulated_devices five session_ids phones t m) id
  unfolding upsert_simulated_devices
  upsert-IsSimulated [] t m id (inl h) = absurd (cc)
  upsert-IsSimulated [] t m id (inr h) = h
  upsert-IsSimulated (p ∷ phones) t m id h =
      upsert-IsSimulated phones t (merge m p.device_id (upserted five session_ids p t)) id (elim h [
        | inr there ↦ inr (merge-IsSimulated p t m id (inr there))
        | inl now ↦ elim (either (str_eq p.device_id id) (listed phones id) now) [
          | inl same ↦ inr (merge-IsSimulated p t m id (inl same))
          | inr later ↦ inl later
        ]
      ])

  refresh-IsLive :
      (n : ℕ) (phones : List (SimulatedPhone F)) (t tick : ℕ) (m : Table LiveDoc) (id : String)
      → (listed phones id ≡ true) ⊎ IsLive m id
      → IsLive (refresh_simulated_devices five session_ids n phones t tick m) id
  unfolding refresh_simulated_devices
  refresh-IsLive n [] t tick m id (inl h) = absurd (cc)
  refresh-IsLive n [] t tick m id (inr h) = h
  refresh-IsLive n (p ∷ phones) t tick m id h =
      let next = write m p.device_id (live_state five session_ids p t tick n) in
      refresh-IsLive (n + 1) phones t tick next id (elim h [
        | inr there ↦ inr (write-IsLive p t tick n m id (inr there))
        | inl now ↦ elim (either (str_eq p.device_id id) (listed phones id) now) [
          | inl same ↦ inr (write-IsLive p t tick n m id (inl same))
          | inr later ↦ inl later
        ]
      ])

  -- The simulator is on, the token fits where one is set, and there are at most 100 phones.
  abbrev pub Permitted : Settings → Option String → List (SimulatedPhone F) → Type 0
  Permitted settings supplied phones =
      (settings.simulator_enabled ≡ true)
      × ((not (str_eq settings.simulator_token "")
            && not (str_eq (get_or supplied "") settings.simulator_token))
          ≡ false)
      × (ltb 100 (length phones) ≡ false)

  abbrev pub Outcome :
      Settings
      → Option String
      → List (SimulatedPhone F)
      → Option ℕ
      → ℕ
      → Stores F
      → Answer × Stores F
      → Type 0
  Outcome settings supplied phones time now s (answer, s') =
      (Permitted settings supplied phones
        × (answer ≡ refreshed (length phones) (time_or time now))
        × ((id : String)
            → ((listed phones id ≡ true) × IsSimulated s'.devices id × IsLive s'.live id)
              ⊎ ((listed phones id ≡ false)
                  × (s'.devices id ≡ s.devices id)
                  × (s'.live id ≡ s.live id))))
      ⊎ (¬ (Permitted settings supplied phones)
          × ((code : ℕ) × (answer ≡ http_error code))
          × (s' ≡ s))

  all_refreshed :
      (phones : List (SimulatedPhone F)) (t tick : ℕ) (s : Stores F) (id : String)
      → let s' = refreshed_stores five session_ids phones t tick s in
        ((listed phones id ≡ true) × IsSimulated s'.devices id × IsLive s'.live id)
        ⊎ ((listed phones id ≡ false) × (s'.devices id ≡ s.devices id) × (s'.live id ≡ s.live id))
  all_refreshed phones t tick s id = elim (Bool-cases (listed phones id)) [
    | inl is ↦ inl (
      is,
      upsert-IsSimulated phones t s.devices id (inl is),
      refresh-IsLive 1 phones t tick s.live id (inl is),
    )
    | inr isnt ↦ inr (
      isnt,
      upsert-others phones t s.devices id isnt,
      refresh-others 1 phones t tick s.live id isnt,
    )
  ]

  -- The three guards.
  guarded :
      (P : Answer × Stores F → Type 0) (on wrong many : Bool) (go : Answer × Stores F)
      (s : Stores F)
      → ((on ≡ true) → (wrong ≡ false) → (many ≡ false) → P go)
      → ((code : ℕ) → ¬ ((on ≡ true) × (wrong ≡ false) × (many ≡ false)) → P (http_error code, s))
      → P (
          if not on
          then (http_error 404, s)
          else if wrong
          then (http_error 403, s)
          else if many
          then (http_error 400, s)
          else go)
  guarded P false wrong many go s accept refuse =
      refuse 404 (λ h. (let clash : false ≡ true = h.0 in cc))
  guarded P true true many go s accept refuse =
      refuse 403 (λ h. (let clash : true ≡ false = h.1 in cc))
  guarded P true false true go s accept refuse =
      refuse 400 (λ h. (let clash : true ≡ false = h.2 in cc))
  guarded P true false false go s accept refuse = accept refl refl refl

  -- Where the simulator is on, the token fits and there are at most 100 phones, the answer counts
  -- the phones, each of them is an active device with a live state afterwards, whatever its
  -- state was, and nothing about any other device changes. Otherwise the answer is an error, and
  -- nothing changes.
  pub api_simulate_phones_lem :
      (settings : Settings) (supplied : Option String) (phones : List (SimulatedPhone F))
      (time : Option ℕ) (tick now : ℕ) (s : Stores F)
      → Outcome settings supplied phones time now s
          (api_simulate_phones five session_ids settings supplied phones time tick now s)
  unfolding api_simulate_phones
  api_simulate_phones_lem settings supplied phones time tick now s =
      guarded (Outcome settings supplied phones time now s) settings.simulator_enabled
        (not (str_eq settings.simulator_token "")
          && not (str_eq (get_or supplied "") settings.simulator_token))
        (ltb 100 (length phones))
        (
          refreshed (length phones) (time_or time now),
          refreshed_stores five session_ids phones (time_or time now) tick s,
        )
        s
        (λ on fits few.
          inl ((on, fits, few), refl, λ id. all_refreshed phones (time_or time now) tick s id))
        (λ code refused. inr (refused, (code, refl), refl))
