-- ===== src/Message/Table/Inserts.antt =====
-- What an insert (message/pgstore.go, pgstore_held.go) leaves of the table that it meets.
use irl_notifs.Base.{
  ℤ, Text, ◌≡◌, ◌⊎◌, inl, inr, Bool, List, ◌∷◌, arith, Option-cases, if◌then◌else◌,
}
use irl_notifs.Base.Time.{Instant}
use irl_notifs.Message.Columns.{Columns}
use irl_notifs.Message.Types.{Envelope, DeliveryTarget, StoredMessage}
use irl_notifs.Message.Attempts.{Result, ok, err}
use irl_notifs.Message.Lifecycle.{pending_now, scheduled_at, DeliverySchedule}
use irl_notifs.Message.Table.{
  Table, View, Stored, ScheduledCaps, no_caps, HeldCaps, insert_once, insert_with_retry,
  insert_message, insert_scheduled_message, insert_held_once, insert_held_message,
  within_scheduled_caps, within_held_caps, existing_or_gone, held_again,
}

-- A duplicate leaves the table as it was, and a new message is put into it.
abbrev pub grown : Table → StoredMessage → Bool → Table
grown table stored duplicate = if duplicate then table else stored ∷ table

abbrev IsGrown : Table → Result Stored → Type 0
IsGrown table (Result.err e) = Unit
IsGrown table (ok (next, stored, duplicate)) = next ≡ grown table stored duplicate

-- One of the two tables that the attempts meet is grown.
abbrev pub IsOneGrown : View → View → Result Stored → Type 0
IsOneGrown first second (Result.err e) = Unit
IsOneGrown first second (ok (next, stored, duplicate)) =
    (next ≡ grown first.0 stored duplicate) ⊎ (next ≡ grown second.0 stored duplicate)

once-IsGrown :
    ⦃columns : Columns⦄ (id : Text) (envelope : Envelope) (targets : List (ℤ × DeliveryTarget))
    (schedule : DeliverySchedule) (caps : ScheduledCaps) (clock : Instant) (gone : Bool)
    (table : Table)
    → IsGrown table (insert_once id envelope targets schedule caps clock gone table)
unfolding insert_once within_scheduled_caps existing_or_gone
once-IsGrown id envelope targets schedule caps clock gone table = ground arith

retry-IsOneGrown :
    ⦃columns : Columns⦄ (id : Text) (envelope : Envelope) (targets : List (ℤ × DeliveryTarget))
    (schedule : DeliverySchedule) (caps : ScheduledCaps) (clock : Instant) (first second : View)
    → IsOneGrown first second
        (insert_with_retry id envelope targets schedule caps clock first second)
unfolding insert_with_retry
retry-IsOneGrown id envelope targets schedule caps clock (table, gone) (table', gone') = ground (
  arith,
  once-IsGrown id envelope targets schedule caps clock gone table,
  once-IsGrown id envelope targets schedule caps clock gone' table',
)

pub insert-IsOneGrown :
    ⦃columns : Columns⦄ (id : Text) (envelope : Envelope) (targets : List (ℤ × DeliveryTarget))
    (clock : Instant) (first second : View)
    → IsOneGrown first second (insert_message id envelope targets clock first second)
unfolding insert_message
insert-IsOneGrown id envelope targets clock first second =
    retry-IsOneGrown id envelope targets pending_now no_caps clock first second

pub insert_scheduled-IsOneGrown :
    ⦃columns : Columns⦄ (id : Text) (envelope : Envelope) (targets : List (ℤ × DeliveryTarget))
    (caps : ScheduledCaps) (clock : Instant) (first second : View)
    → IsOneGrown first second (insert_scheduled_message id envelope targets caps clock first second)
unfolding insert_scheduled_message
insert_scheduled-IsOneGrown id envelope targets caps clock first second =
    elim (Option-cases envelope.deliver_at) [
      | inl e ↦ rw (e, insert_scheduled_message) tt
      | inr (t, e) ↦
          rw (e, insert_scheduled_message) ground
            (arith, retry-IsOneGrown id envelope targets (scheduled_at t) caps clock first second)
    ]

held_once-IsGrown :
    ⦃columns : Columns⦄ (id : Text) (envelope : Envelope) (caps : HeldCaps) (now clock : Instant)
    (gone : Bool) (table : Table)
    → IsGrown table (insert_held_once id envelope caps now clock gone table)
unfolding insert_held_once within_held_caps existing_or_gone
held_once-IsGrown id envelope caps now clock gone table = ground arith

held_again-IsGrown :
    (table : Table) (r : Result Stored) → IsGrown table r → IsGrown table (held_again r)
unfolding held_again
held_again-IsGrown table (ok s) h = h
held_again-IsGrown table (err e) h = ground arith

pub insert_held-IsOneGrown :
    ⦃columns : Columns⦄ (id : Text) (envelope : Envelope) (caps : HeldCaps) (now clock : Instant)
    (first second : View)
    → IsOneGrown first second (insert_held_message id envelope caps now clock first second)
unfolding insert_held_message
insert_held-IsOneGrown id envelope caps now clock (table, gone) (table', gone') = ground (
  arith,
  held_once-IsGrown id envelope caps now clock gone table,
  held_again-IsGrown table' (insert_held_once id envelope caps now clock gone' table')
      (held_once-IsGrown id envelope caps now clock gone' table'),
)
