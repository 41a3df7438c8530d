-- ===== src/Message/Lifecycle.antt =====
-- The life of one stored message under its row lock: inserting it (message/pgstore.go,
-- pgstore_held.go), replacing, cancelling and releasing it (pgstore_scheduled.go), and leasing one of
-- its deliveries (ClaimDue). `clock` is the transaction's now(); a new delivery comes with the id that
-- the database gives it. The order in which a query lists the deliveries is left out.
pub mod Phases
pub mod Refinement
pub mod Runs
pub mod Keeps
use irl_notifs.Base.{
  ℤ, pos, leb_ℤ, Text, codes, Bool, true, false, ◌&&◌, not, Option, none, some, List, [], ◌∷◌, map,
  any, is_some, or_else, if◌then◌else◌,
}
use irl_notifs.Base.Time.{Instant, Duration, add, after, is_zero}
use irl_notifs.Message.Columns.{Columns, kept_envelope}
use irl_notifs.Message.Types.{
  DeliveryState, state_pending, state_scheduled, state_cancelled, Status, status_scheduled,
  status_cancelled, status_release_failed, Envelope, DeliveryTarget, Delivery, StoredMessage,
  MessageState, message_state,
}
use irl_notifs.Message.Status.{derive_status}
use irl_notifs.Message.Attempts.{Result, ok, err, StoreError, invalid, is_pending}

-- deliverySchedule; a missing time is the column default, the transaction's now().
pub record DeliverySchedule : Type 0 where
  pub state : DeliveryState
  pub next_attempt_at : Option Instant
  pub budget_started_at : Option Instant

abbrev pub pending_now : DeliverySchedule
pending_now = record { state = state_pending; next_attempt_at = none; budget_started_at = none }

-- The row of a target, with the id it is given.
abbrev pub new_delivery : Text → DeliverySchedule → Instant → ℤ × DeliveryTarget → Delivery
new_delivery message_id schedule clock (id, target) = record {
  id = id;
  message_id = message_id;
  destination_id = target.destination_id;
  destination_name = target.destination_name;
  destination_type = target.destination_type;
  state = schedule.state;
  dead_reason = none;
  attempt_count = pos 0;
  budget_attempts = pos 0;
  budget_started_at = or_else schedule.budget_started_at clock;
  next_attempt_at = or_else schedule.next_attempt_at clock;
  last_status_code = none;
  delivered_at = none;
  created_at = clock;
  updated_at = clock;
}

unfoldable pub insert_deliveries :
    Text → DeliverySchedule → Instant → List (ℤ × DeliveryTarget) → List Delivery
insert_deliveries message_id schedule clock [] = []
insert_deliveries message_id schedule clock (target ∷ targets) =
    new_delivery message_id schedule clock target
    ∷ insert_deliveries message_id schedule clock targets

-- The row of a message with its deliveries, where the key is new, as it is read back.
abbrev pub new_message :
    ⦃columns : Columns⦄ → Text → Envelope → Option Instant → List Delivery → Instant → StoredMessage
new_message ⦃columns⦄ id envelope held_at deliveries clock = record {
  id = id;
  envelope = kept_envelope columns envelope;
  created_at = clock;
  cancelled_at = none;
  held_at = held_at;
  released_at = none;
  held_cancelled_at = none;
  release_failed_at = none;
  release_failed_reason = [];
  deliveries = deliveries;
}

-- The schedule of InsertScheduledMessage, and the new state of a replaced message.
abbrev pub scheduled_at : Instant → DeliverySchedule
scheduled_at t = record {
  state = state_scheduled;
  next_attempt_at = some t;
  budget_started_at = none;
}

unfoldable pub is_scheduled_status : Status → Bool
is_scheduled_status status_scheduled = true
is_scheduled_status _ = false

unfoldable pub is_cancelled_status : Status → Bool
is_cancelled_status status_cancelled = true
is_cancelled_status _ = false

-- `schedule` and `deliverAt` of ReplaceScheduledMessage: in the future, or released now.
pub replacement_schedule : Option Instant → Instant → DeliverySchedule × Instant
replacement_schedule none now = (
  record { state = state_pending; next_attempt_at = some now; budget_started_at = some now },
  now,
)
replacement_schedule (some t) now =
    if not (after t now)
    then (
      record { state = state_pending; next_attempt_at = some now; budget_started_at = some now },
      now,
    )
    else (scheduled_at t, t)

-- The UPDATE of messages, the DELETE of its deliveries and the insert of the new ones.
pub replace_content :
    ⦃columns : Columns⦄
    → Envelope
    → DeliverySchedule × Instant
    → List (ℤ × DeliveryTarget)
    → Instant
    → StoredMessage
    → StoredMessage
unfolding insert_deliveries
replace_content ⦃columns⦄ envelope (schedule, deliver_at) targets clock current = record current {
  envelope = record envelope {
    app_id = current.envelope.app_id;
    idempotency_key = current.envelope.idempotency_key;
    payload = columns.payload envelope.payload;
    deliver_at = some (columns.instant deliver_at);
    hold = current.envelope.hold;
  };
  deliveries = insert_deliveries current.id schedule clock targets;
}

unfoldable pub no_targets : List (ℤ × DeliveryTarget) → Bool
no_targets [] = true
no_targets (_ ∷ _) = false

-- ReplaceScheduledMessage on the row found by its key: the stored message, and whether it was replaced.
unfoldable pub replace_scheduled_message :
    ⦃columns : Columns⦄
    → Envelope
    → List (ℤ × DeliveryTarget)
    → Instant
    → Instant
    → StoredMessage
    → Result (StoredMessage × Bool)
unfolding replacement_schedule replace_content no_targets
replace_scheduled_message envelope targets now clock current =
    if no_targets targets
    then err (invalid (codes "replace scheduled message: no delivery targets"))
    else if is_zero now
    then err (invalid (codes "replace scheduled message: now must be set"))
    else if not (is_scheduled_status (derive_status current.deliveries (message_state current)))
    then ok (current, false)
    else ok (
      replace_content envelope (replacement_schedule envelope.deliver_at now) targets clock current,
      true,
    )

pub record CancelOutcome : Type 0 where
  pub message_id : Text
  pub status : Option Status
  pub cancelled : Bool
  pub transitioned : Bool
  pub found : Bool

abbrev pub cancel_outcome : Text → Status → Bool → Bool → CancelOutcome
cancel_outcome id status cancelled transitioned = record {
  message_id = id;
  status = some status;
  cancelled = cancelled;
  transitioned = transitioned;
  found = true;
}

unfoldable pub is_scheduled : DeliveryState → Bool
is_scheduled state_scheduled = true
is_scheduled _ = false

pub cancel_delivery : Instant → Delivery → Delivery
unfolding is_scheduled
cancel_delivery now d =
    if is_scheduled d.state then record d { state = state_cancelled; updated_at = now } else d

-- The part of cancel behind the switch on the message's own state.
pub cancel_deliveries : StoredMessage → Instant → Status → StoredMessage × CancelOutcome
unfolding cancel_delivery
cancel_deliveries stored now status =
    if not (is_scheduled_status status)
    then (stored, cancel_outcome stored.id status (is_cancelled_status status) false)
    else (
      record stored {
        cancelled_at = some now;
        deliveries = map (cancel_delivery now) stored.deliveries;
      },
      cancel_outcome stored.id status_cancelled true true,
    )

-- The transaction of cancel, on the row that it locks.
unfoldable pub cancel_locked : StoredMessage → Instant → StoredMessage × CancelOutcome
unfolding cancel_deliveries
cancel_locked stored now =
    if is_some stored.cancelled_at
    then (stored, cancel_outcome stored.id status_cancelled true false)
    else if is_some stored.release_failed_at
    then (stored, cancel_outcome stored.id status_release_failed false false)
    else if is_some stored.held_at
    then (
      record stored { cancelled_at = some now; held_cancelled_at = some now; held_at = none },
      cancel_outcome stored.id status_cancelled true true,
    )
    else cancel_deliveries stored now (derive_status stored.deliveries (message_state stored))

unfoldable pub cancel : StoredMessage → Instant → Result (StoredMessage × CancelOutcome)
cancel stored now =
    if is_zero now
    then err (invalid (codes "cancel message: now must be set"))
    else ok (cancel_locked stored now)

unfoldable pub release_delivery : Instant → Delivery → Delivery
unfolding is_scheduled
release_delivery now d =
    if is_scheduled d.state && leb_ℤ d.next_attempt_at now
    then record d {
      state = state_pending;
      next_attempt_at = now;
      budget_started_at = now;
      updated_at = now;
    }
    else d

-- The UPDATE of ReleaseDue, on one message that it has locked.
unfoldable pub release_due : StoredMessage → Instant → StoredMessage
unfolding release_delivery
release_due stored now = record stored { deliveries = map (release_delivery now) stored.deliveries }

-- ClaimDue on the delivery that it selects: a due pending one is leased.
unfoldable pub claim_due : Delivery → Instant → Duration → Instant → Result Delivery
claim_due d now lease clock =
    if leb_ℤ lease (pos 0)
    then err (invalid (codes "claim due: lease must be positive"))
    else if is_pending d.state && leb_ℤ d.next_attempt_at now
    then ok (record d { next_attempt_at = add now lease; updated_at = clock })
    else ok d
