-- ===== src/Message/Lifecycle/Keeps.antt =====
-- What no event can do to the row of a message: change its app or key, hold it, or schedule it.
use irl_notifs.Base.{
  ℤ, eqb_ℤ, ◌≡◌, Bool, true, false, List, [], ◌∷◌, map, any, is_some, arith, if◌then◌else◌,
}
use irl_notifs.Base.Time.{Instant, Duration}
use irl_notifs.Message.Columns.{Columns}
use irl_notifs.Message.Types.{
  Envelope, DeliveryTarget, Delivery, StoredMessage, message_state, AttemptRecord, AttemptResult,
}
use irl_notifs.Message.Status.Scheduled.{scheduled_status-any}
use irl_notifs.Message.Attempts.{ok, record_attempt, validate_attempt_result, replay}
use irl_notifs.Message.Lifecycle.{
  CancelOutcome, replace_content, replacement_schedule, replace_scheduled_message,
  is_scheduled_status, is_scheduled, cancel, cancel_locked, cancel_deliveries, cancel_delivery,
  release_due, release_delivery, claim_due,
}
use irl_notifs.Message.Lifecycle.Phases.{
  MessageEvent, cancel_called, release_ran, replace_called, attempted, replayed, claimed,
  on_delivery, or_same, attempt_delivery, apply_event,
}

-- No event changes the app or the key of a row.
pub same_key :
    ⦃columns : Columns⦄ (clean : AttemptRecord → AttemptRecord) (m : StoredMessage)
    (e : MessageEvent)
    → ((apply_event clean m e).envelope.app_id ≡ m.envelope.app_id)
      × ((apply_event clean m e).envelope.idempotency_key ≡ m.envelope.idempotency_key)
unfolding apply_event cancel cancel_locked cancel_deliveries release_due replace_scheduled_message
    replace_content replacement_schedule
same_key clean m (cancel_called now) = ground arith
same_key clean m (release_ran now) = ground arith
same_key clean m (replace_called envelope targets now clock) = ground arith
same_key clean m (attempted id result clock) = ground arith
same_key clean m (replayed id now clock) = ground arith
same_key clean m (claimed id now lease clock) = ground arith

-- No event holds a row that was not held.
pub held_before :
    ⦃columns : Columns⦄ (clean : AttemptRecord → AttemptRecord) (m : StoredMessage)
    (e : MessageEvent)
    → is_some (apply_event clean m e).held_at ≡ true
    → is_some m.held_at ≡ true
unfolding apply_event cancel cancel_locked cancel_deliveries release_due replace_scheduled_message
    replace_content replacement_schedule
held_before clean m (cancel_called now) = ground arith
held_before clean m (release_ran now) = ground arith
held_before clean m (replace_called envelope targets now clock) = ground arith
held_before clean m (attempted id result clock) = ground arith
held_before clean m (replayed id now clock) = ground arith
held_before clean m (claimed id now lease clock) = ground arith

abbrev pub scheduled_row : Delivery → Bool
scheduled_row d = is_scheduled d.state

any-map :
    (f : Delivery → Delivery) (ds : List Delivery)
    → ((d : Delivery) → scheduled_row (f d) ≡ true → scheduled_row d ≡ true)
    → any scheduled_row (map f ds) ≡ true
    → any scheduled_row ds ≡ true
any-map f [] step h = h
any-map f (d ∷ ds) step h = ground (arith, step d, any-map f ds step)

attempt_before :
    (clean : AttemptRecord → AttemptRecord) (result : AttemptResult) (clock : Instant)
    (d : Delivery)
    → scheduled_row (attempt_delivery clean result clock d) ≡ true
    → scheduled_row d ≡ true
unfolding attempt_delivery record_attempt validate_attempt_result is_scheduled
attempt_before clean result clock d = ground arith

replay_before :
    (now clock : Instant) (d : Delivery)
    → scheduled_row (or_same d (replay d now clock)) ≡ true
    → scheduled_row d ≡ true
unfolding replay is_scheduled
replay_before now clock d = ground arith

claim_before :
    (now : Instant) (lease : Duration) (clock : Instant) (d : Delivery)
    → scheduled_row (or_same d (claim_due d now lease clock)) ≡ true
    → scheduled_row d ≡ true
unfolding claim_due
claim_before now lease clock d = ground arith

release_before :
    (now : Instant) (d : Delivery)
    → scheduled_row (release_delivery now d) ≡ true
    → scheduled_row d ≡ true
unfolding release_delivery is_scheduled
release_before now d = ground arith

cancel_before :
    (now : Instant) (d : Delivery)
    → scheduled_row (cancel_delivery now d) ≡ true
    → scheduled_row d ≡ true
unfolding cancel_delivery is_scheduled
cancel_before now d = ground arith

on_delivery-before :
    (id : ℤ) (f : Delivery → Delivery) (m : StoredMessage)
    → ((d : Delivery) → scheduled_row (f d) ≡ true → scheduled_row d ≡ true)
    → any scheduled_row (on_delivery id f m).deliveries ≡ true
    → any scheduled_row m.deliveries ≡ true
on_delivery-before id f m step =
    any-map (λ d. if eqb_ℤ d.id id then f d else d) m.deliveries (λ d. ground (arith, step d))

-- No event schedules a row of a message that had no scheduled row.
pub scheduled_before :
    ⦃columns : Columns⦄ (clean : AttemptRecord → AttemptRecord) (m : StoredMessage)
    (e : MessageEvent)
    → any scheduled_row (apply_event clean m e).deliveries ≡ true
    → any scheduled_row m.deliveries ≡ true
unfolding apply_event cancel cancel_locked cancel_deliveries release_due replace_scheduled_message
    is_scheduled_status
scheduled_before clean m (cancel_called now) =
    ground (arith, any-map (cancel_delivery now) m.deliveries (cancel_before now))
scheduled_before clean m (release_ran now) =
    any-map (release_delivery now) m.deliveries (release_before now)
scheduled_before clean m (replace_called envelope targets now clock) =
    ground (arith, scheduled_status-any m.deliveries (message_state m))
scheduled_before clean m (attempted id result clock) =
    on_delivery-before id (attempt_delivery clean result clock) m
      (attempt_before clean result clock)
scheduled_before clean m (replayed id now clock) =
    on_delivery-before id (λ d. or_same d (replay d now clock)) m (replay_before now clock)
scheduled_before clean m (claimed id now lease clock) =
    on_delivery-before id (λ d. or_same d (claim_due d now lease clock)) m
      (claim_before now lease clock)

pub replace-same_key :
    ⦃columns : Columns⦄ (envelope : Envelope) (targets : List (ℤ × DeliveryTarget))
    (now clock : Instant) (current next : StoredMessage) (replaced : Bool)
    → replace_scheduled_message envelope targets now clock current ≡ ok (next, replaced)
    → (next.envelope.app_id ≡ current.envelope.app_id)
      × (next.envelope.idempotency_key ≡ current.envelope.idempotency_key)
unfolding replace_scheduled_message replace_content replacement_schedule
replace-same_key envelope targets now clock current next replaced e = ground (arith, e)

pub cancel-same_app :
    (now : Instant) (stored next : StoredMessage) (outcome : CancelOutcome)
    → cancel stored now ≡ ok (next, outcome)
    → next.envelope.app_id ≡ stored.envelope.app_id
unfolding cancel cancel_locked cancel_deliveries
cancel-same_app now stored next outcome e = ground (arith, e)

pub replace-same_id :
    ⦃columns : Columns⦄ (envelope : Envelope) (targets : List (ℤ × DeliveryTarget))
    (now clock : Instant) (current next : StoredMessage) (replaced : Bool)
    → replace_scheduled_message envelope targets now clock current ≡ ok (next, replaced)
    → next.id ≡ current.id
unfolding replace_scheduled_message replace_content replacement_schedule
replace-same_id envelope targets now clock current next replaced e = ground (arith, e)

pub replace_unchanged :
    ⦃columns : Columns⦄ (envelope : Envelope) (targets : List (ℤ × DeliveryTarget))
    (now clock : Instant) (current next : StoredMessage)
    → replace_scheduled_message envelope targets now clock current ≡ ok (next, false)
    → next ≡ current
unfolding replace_scheduled_message replace_content replacement_schedule
replace_unchanged envelope targets now clock current next e = ground (arith, e)
