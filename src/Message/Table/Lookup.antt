-- ===== src/Message/Table/Lookup.antt =====
-- An insert and a lookup by its key: the row that is returned is the one that the table holds.
use irl_notifs.Base.{
  ℤ, Text, text_eq_refl, ◌≡◌, inl, inr, Bool, true, some, List, [], ◌∷◌, arith, Bool-cases,
  Option-cases,
}
use irl_notifs.Base.Time.{Instant}
use irl_notifs.Message.Columns.{Columns}
use irl_notifs.Message.Types.{Envelope, DeliveryTarget, StoredMessage}
use irl_notifs.Message.Attempts.{Result, ok, err}
use irl_notifs.Message.Table.Events.{on_message}
use irl_notifs.Message.Lifecycle.{pending_now, scheduled_at, DeliverySchedule}
use irl_notifs.Message.Table.{
  Table, View, Stored, ScheduledCaps, no_caps, HeldCaps, has_key, find_by_key, insert_once,
  insert_with_retry, insert_message, insert_scheduled_message, insert_held_once,
  insert_held_message, within_scheduled_caps, within_held_caps, existing_or_gone, held_again,
}

-- The result is the row that a table holds under the key.
abbrev pub IsUnderKey : Text → Text → Result Stored → Type 0
IsUnderKey app_id key (Result.err e) = Unit
IsUnderKey app_id key (ok (table, stored, duplicate)) = find_by_key app_id key table ≡ some stored

once-IsUnderKey :
    ⦃columns : Columns⦄ (id : Text) (envelope : Envelope) (targets : List (ℤ × DeliveryTarget))
    (schedule : DeliverySchedule) (caps : ScheduledCaps) (clock : Instant) (gone : Bool)
    (table : Table)
    → IsUnderKey envelope.app_id envelope.idempotency_key
        (insert_once id envelope targets schedule caps clock gone table)
unfolding insert_once within_scheduled_caps existing_or_gone find_by_key has_key
once-IsUnderKey id envelope targets schedule caps clock gone table =
    elim (Option-cases (find_by_key envelope.app_id envelope.idempotency_key table)) [
      | inl e ↦
          rw (e, insert_once, IsUnderKey) ground
            (arith, text_eq_refl envelope.app_id, text_eq_refl envelope.idempotency_key)
      | inr (m, e) ↦ rw (e, insert_once, IsUnderKey) ground (arith, e)
    ]

retry-IsUnderKey :
    ⦃columns : Columns⦄ (id : Text) (envelope : Envelope) (targets : List (ℤ × DeliveryTarget))
    (schedule : DeliverySchedule) (caps : ScheduledCaps) (clock : Instant) (first second : View)
    → IsUnderKey envelope.app_id envelope.idempotency_key
        (insert_with_retry id envelope targets schedule caps clock first second)
unfolding insert_with_retry
retry-IsUnderKey id envelope targets schedule caps clock (table, gone) (table', gone') = ground (
  arith,
  once-IsUnderKey id envelope targets schedule caps clock gone table,
  once-IsUnderKey id envelope targets schedule caps clock gone' table',
)

pub insert-IsUnderKey :
    ⦃columns : Columns⦄ (id : Text) (envelope : Envelope) (targets : List (ℤ × DeliveryTarget))
    (clock : Instant) (first second : View)
    → IsUnderKey envelope.app_id envelope.idempotency_key
        (insert_message id envelope targets clock first second)
unfolding insert_message
insert-IsUnderKey id envelope targets clock first second =
    retry-IsUnderKey id envelope targets pending_now no_caps clock first second

pub insert_scheduled-IsUnderKey :
    ⦃columns : Columns⦄ (id : Text) (envelope : Envelope) (targets : List (ℤ × DeliveryTarget))
    (caps : ScheduledCaps) (clock : Instant) (first second : View)
    → IsUnderKey envelope.app_id envelope.idempotency_key
        (insert_scheduled_message id envelope targets caps clock first second)
unfolding insert_scheduled_message
insert_scheduled-IsUnderKey id envelope targets caps clock first second =
    elim (Option-cases envelope.deliver_at) [
      | inl e ↦ rw (e, insert_scheduled_message) tt
      | inr (t, e) ↦
          rw (e, insert_scheduled_message) ground
            (arith, retry-IsUnderKey id envelope targets (scheduled_at t) caps clock first second)
    ]

held_once-IsUnderKey :
    ⦃columns : Columns⦄ (id : Text) (envelope : Envelope) (caps : HeldCaps) (now clock : Instant)
    (gone : Bool) (table : Table)
    → IsUnderKey envelope.app_id envelope.idempotency_key
        (insert_held_once id envelope caps now clock gone table)
unfolding insert_held_once within_held_caps existing_or_gone find_by_key has_key
held_once-IsUnderKey id envelope caps now clock gone table =
    elim (Option-cases (find_by_key envelope.app_id envelope.idempotency_key table)) [
      | inl e ↦
          rw (e, insert_held_once, IsUnderKey) ground
            (arith, text_eq_refl envelope.app_id, text_eq_refl envelope.idempotency_key)
      | inr (m, e) ↦ rw (e, insert_held_once, IsUnderKey) ground (arith, e)
    ]

held_again-IsUnderKey :
    (app_id key : Text) (r : Result Stored)
    → IsUnderKey app_id key r
    → IsUnderKey app_id key (held_again r)
unfolding held_again
held_again-IsUnderKey app_id key (ok s) h = h
held_again-IsUnderKey app_id key (err e) h = ground arith

pub insert_held-IsUnderKey :
    ⦃columns : Columns⦄ (id : Text) (envelope : Envelope) (caps : HeldCaps) (now clock : Instant)
    (first second : View)
    → IsUnderKey envelope.app_id envelope.idempotency_key
        (insert_held_message id envelope caps now clock first second)
unfolding insert_held_message
insert_held-IsUnderKey id envelope caps now clock (table, gone) (table', gone') = ground (
  arith,
  held_once-IsUnderKey id envelope caps now clock gone table,
  held_again-IsUnderKey envelope.app_id envelope.idempotency_key
      (insert_held_once id envelope caps now clock gone' table')
      (held_once-IsUnderKey id envelope caps now clock gone' table'),
)

-- A row found by its key has it.
pub find-has_key :
    (app_id key : Text) (table : Table) (m : StoredMessage)
    → find_by_key app_id key table ≡ some m
    → has_key app_id key m ≡ true
unfolding find_by_key
find-has_key app_id key [] m h = ground (arith, h)
find-has_key app_id key (row ∷ table) m h = elim (Bool-cases (has_key app_id key row)) [
  | inl e ↦ ground (arith, e, h)
  | inr e ↦ ground (arith, e, h, find-has_key app_id key table m)
]

-- Writing a row in place of the one that was found by the key, with the same key, is read back.
pub find-on_message :
    (app_id key : Text) (table : Table) (current next : StoredMessage)
    → find_by_key app_id key table ≡ some current
    → has_key app_id key next ≡ true
    → find_by_key app_id key (on_message current.id (λ m. next) table) ≡ some next
unfolding find_by_key
find-on_message app_id key [] current next h k = ground (arith, h)
find-on_message app_id key (row ∷ table) current next h k =
    elim (Bool-cases (has_key app_id key row)) [
      | inl e ↦ ground (arith, e, h, k, text_eq_refl current.id)
      | inr e ↦ ground (arith, e, h, k, find-on_message app_id key table current next)
    ]
