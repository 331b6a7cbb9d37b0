-- ===== src/Lifecycle/Graph.antt =====
-- The transition diagram of the docstring of backend/gateway/src/gateway/state_machine.py: the
-- admin's edges, the gateway's, and what can be reached by both.
use drone_audio_sensor.Common.{◌≡◌, refl, ◌⊎◌, inr, arith}
use drone_audio_sensor.Lifecycle.{
  State, setup_pending, active, lost, revoked, wipe_requested, wipe_sent,
}

pub data AdminStep : State → State → Type 0 where
  promote : AdminStep setup_pending active
  refuse_new : AdminStep setup_pending revoked
  wipe_new : AdminStep setup_pending wipe_requested
  lose : AdminStep active lost
  revoke : AdminStep active revoked
  wipe : AdminStep active wipe_requested
  find : AdminStep lost active
  revoke_lost : AdminStep lost revoked
  wipe_lost : AdminStep lost wipe_requested
  reinstate : AdminStep revoked active

pub data GatewayStep : State → State → Type 0 where
  check_in : GatewayStep setup_pending active
  send_wipe : GatewayStep wipe_requested wipe_sent

pub data Reach (s : State) : State → Type 0 where
  here : Reach s s
  by_admin : {t u : State} → Reach s t → AdminStep t u → Reach s u
  by_gateway : {t u : State} → Reach s t → GatewayStep t u → Reach s u

abbrev pub IsWiping : State → Type 0
IsWiping s = (s ≡ wipe_requested) ⊎ (s ≡ wipe_sent)

AdminStep-not_wiping : {s t : State} → AdminStep s t → IsWiping s → ⊥
AdminStep-not_wiping promote w = ground arith
AdminStep-not_wiping refuse_new w = ground arith
AdminStep-not_wiping wipe_new w = ground arith
AdminStep-not_wiping lose w = ground arith
AdminStep-not_wiping revoke w = ground arith
AdminStep-not_wiping wipe w = ground arith
AdminStep-not_wiping find w = ground arith
AdminStep-not_wiping revoke_lost w = ground arith
AdminStep-not_wiping wipe_lost w = ground arith
AdminStep-not_wiping reinstate w = ground arith

GatewayStep-IsWiping : {s t : State} → GatewayStep s t → IsWiping s → t ≡ wipe_sent
GatewayStep-IsWiping check_in w = ground arith
GatewayStep-IsWiping send_wipe w = refl

pub Reach-IsWiping : {s t : State} → IsWiping s → Reach s t → IsWiping t
Reach-IsWiping w here = w
Reach-IsWiping w (by_admin r a) = absurd (AdminStep-not_wiping a (Reach-IsWiping w r))
Reach-IsWiping w (by_gateway r g) = inr (GatewayStep-IsWiping g (Reach-IsWiping w r))
