-- ===== src/Message/Status.antt =====
-- DeriveStatus of message/types.go.
pub mod Laws
pub mod Scheduled
use irl_notifs.Base.{
  ℕ, zero, suc, Bool, true, false, ◌||◌, Option, none, some, List, [], ◌∷◌, ltb, ◌==◌, length,
  is_some, if◌then◌else◌,
}
use irl_notifs.Message.Types.{
  DeliveryState, state_pending, state_delivered, state_dead, state_scheduled, state_cancelled,
  state_other, Status, status_pending, status_delivered, status_dead, status_partial,
  status_scheduled, status_cancelled, status_unrouted, status_release_failed, Delivery,
  MessageState,
}

-- The four counters of the loop.
pub record Tally : Type 0 where
  pub delivered : ℕ
  pub dead : ℕ
  pub scheduled : ℕ
  pub cancelled : ℕ

-- The switch in the loop; `none` is its `return StatusPending`.
tally_one : DeliveryState → Tally → Option Tally
tally_one state_delivered t = some (record t { delivered = suc t.delivered })
tally_one state_dead t = some (record t { dead = suc t.dead })
tally_one state_scheduled t = some (record t { scheduled = suc t.scheduled })
tally_one state_cancelled t = some (record t { cancelled = suc t.cancelled })
tally_one _ t = none

tally : Tally → List Delivery → Option Tally
unfolding tally_one
tally t [] = some t
tally t (d ∷ ds) = elim (tally_one d.state t) [ none ↦ none | some u ↦ tally u ds ]

-- The two switches after the loop, over the number of deliveries.
of_tally : ℕ → Tally → Status
of_tally n t =
    if t.scheduled == n
    then status_scheduled
    else if t.cancelled == n
    then status_cancelled
    else if ltb 0 t.scheduled || ltb 0 t.cancelled
    then status_pending
    else if t.dead == 0
    then status_delivered
    else if t.delivered == 0
    then status_dead
    else status_partial

of_deliveries : List Delivery → Status
unfolding tally of_tally
of_deliveries [] = status_pending
of_deliveries (d ∷ ds) =
    elim (tally (record { delivered = 0; dead = 0; scheduled = 0; cancelled = 0 }) (d ∷ ds)) [
      | none ↦ status_pending
      | some t ↦ of_tally (length (d ∷ ds)) t
    ]

unfoldable pub derive_status : List Delivery → MessageState → Status
unfolding of_deliveries
derive_status deliveries state =
    if is_some state.cancelled_at
    then status_cancelled
    else if is_some state.held_at
    then status_unrouted
    else if is_some state.release_failed_at
    then status_release_failed
    else of_deliveries deliveries
