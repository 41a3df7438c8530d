-- ===== src/Message/Table/Keys.antt =====
-- The unique index on (app_id, idempotency_key) of the table messages, over any sequence of events.
use irl_notifs.Base.{
  ◌≤◌, ℤ, Text, text_eq_iff, ◌≡◌, refl, inl, inr, Bool, true, none, some, List, [], ◌∷◌, count_if,
  arith, Option-cases,
}
use irl_notifs.Base.Time.{Instant}
use irl_notifs.Message.Columns.{Columns}
use irl_notifs.Message.Types.{Envelope, DeliveryTarget, StoredMessage, AttemptRecord}
use irl_notifs.Message.Lifecycle.{
  DeliverySchedule, pending_now, scheduled_at, new_message, insert_deliveries,
}
use irl_notifs.Message.Lifecycle.Keeps.{same_key}
use irl_notifs.Message.Lifecycle.Phases.{MessageEvent, apply_event}
use irl_notifs.Message.Table.{
  Table, ScheduledCaps, no_caps, HeldCaps, has_key, find_by_key, within_scheduled_caps,
  within_held_caps, existing_or_gone, insert_once, insert_held_once,
}
use irl_notifs.Message.Table.Events.{
  TableEvent, inserted, inserted_scheduled, inserted_held, changed, expired_deleted,
  expired_held_deleted, after_insert, apply_table_event, apply_table_events, count-on_message,
}
use irl_notifs.Message.Table.Expiry.{
  by_time_and_id, created_at_of, held_at_of, is_expired, is_expired_held, delete_expired_batch,
  delete_expired_held_batch,
}
use irl_notifs.Message.Table.Retention.{delete_first_le}

abbrev pub UniqueKeys : Table → Type 0
UniqueKeys table = (app_id key : Text) → count_if (has_key app_id key) table ≤ 1

find_none :
    (app_id key : Text) (table : Table)
    → find_by_key app_id key table ≡ none
    → count_if (has_key app_id key) table ≡ 0
unfolding find_by_key
find_none app_id key [] h = refl
find_none app_id key (m ∷ table) h = ground (arith, find_none app_id key table)

-- A row with a key that the table lacks.
new_key :
    (m : StoredMessage) (table : Table)
    → find_by_key m.envelope.app_id m.envelope.idempotency_key table ≡ none
    → UniqueKeys table
    → UniqueKeys (m ∷ table)
unfolding has_key
new_key m table lacks unique app_id key = ground (
  arith,
  unique app_id key,
  find_none m.envelope.app_id m.envelope.idempotency_key table lacks,
  text_eq_iff m.envelope.app_id app_id,
  text_eq_iff m.envelope.idempotency_key key,
)

insert_once-keys :
    ⦃columns : Columns⦄ (id : Text) (envelope : Envelope) (targets : List (ℤ × DeliveryTarget))
    (schedule : DeliverySchedule) (caps : ScheduledCaps) (clock : Instant) (gone : Bool)
    (table : Table)
    → UniqueKeys table
    → UniqueKeys
        (after_insert table (insert_once id envelope targets schedule caps clock gone table))
unfolding insert_once within_scheduled_caps existing_or_gone
insert_once-keys id envelope targets schedule caps clock gone table unique =
    elim (Option-cases (find_by_key envelope.app_id envelope.idempotency_key table)) [
      | inl e ↦
          rw (e, insert_once, after_insert)
            (λ app_id key. ground (
              arith,
              unique app_id key,
              new_key
                  (new_message id envelope none (insert_deliveries id schedule clock targets) clock)
                  table e unique app_id key,
            ))
      | inr (m, e) ↦
          rw (e, insert_once, after_insert) (λ app_id key. ground (arith, unique app_id key))
    ]

insert_held_once-keys :
    ⦃columns : Columns⦄ (id : Text) (envelope : Envelope) (caps : HeldCaps) (now clock : Instant)
    (gone : Bool) (table : Table)
    → UniqueKeys table
    → UniqueKeys (after_insert table (insert_held_once id envelope caps now clock gone table))
unfolding insert_held_once within_held_caps existing_or_gone
insert_held_once-keys id envelope caps now clock gone table unique =
    elim (Option-cases (find_by_key envelope.app_id envelope.idempotency_key table)) [
      | inl e ↦
          rw (e, insert_held_once, after_insert)
            (λ app_id key. ground (
              arith,
              unique app_id key,
              new_key (new_message id envelope (some now) [] clock) table e unique app_id key,
            ))
      | inr (m, e) ↦
          rw (e, insert_held_once, after_insert) (λ app_id key. ground (arith, unique app_id key))
    ]

keeps_key :
    ⦃columns : Columns⦄ (clean : AttemptRecord → AttemptRecord) (app_id key : Text)
    (m : StoredMessage) (e : MessageEvent)
    → has_key app_id key (apply_event clean m e) ≡ true
    → has_key app_id key m ≡ true
unfolding has_key
keeps_key clean app_id key m e h = ground (arith, same_key clean m e, h)

module _ (clean : AttemptRecord → AttemptRecord) (caps : ScheduledCaps) (held_caps : HeldCaps) where
  event-UniqueKeys :
      ⦃columns : Columns⦄ (table : Table) (e : TableEvent)
      → UniqueKeys table
      → UniqueKeys (apply_table_event clean caps held_caps table e)
  unfolding apply_table_event delete_expired_batch delete_expired_held_batch
  event-UniqueKeys table (inserted id envelope targets clock gone) unique =
      insert_once-keys id envelope targets pending_now no_caps clock gone table unique
  event-UniqueKeys table (inserted_scheduled id envelope targets t clock gone) unique =
      insert_once-keys id envelope targets (scheduled_at t) caps clock gone table unique
  event-UniqueKeys table (inserted_held id envelope now clock gone) unique =
      insert_held_once-keys id envelope held_caps now clock gone table unique
  event-UniqueKeys table (changed id e) unique = λ app_id key. omega (
    arith,
    unique app_id key,
    count-on_message (has_key app_id key) id (λ m. apply_event clean m e) table
        (λ m. keeps_key clean app_id key m e),
  )
  event-UniqueKeys table (expired_deleted cutoff limit) unique = λ app_id key. omega (
    arith,
    unique app_id key,
    delete_first_le (by_time_and_id created_at_of) (is_expired cutoff) (has_key app_id key) limit
        table,
  )
  event-UniqueKeys table (expired_held_deleted cutoff limit) unique = λ app_id key. omega (
    arith,
    unique app_id key,
    delete_first_le (by_time_and_id held_at_of) (is_expired_held cutoff) (has_key app_id key) limit
        table,
  )

  -- Whatever happens to a table in which no two messages share an app and a key, none ever do.
  pub events-UniqueKeys :
      ⦃columns : Columns⦄ (table : Table) (es : List TableEvent)
      → UniqueKeys table
      → UniqueKeys (apply_table_events clean caps held_caps table es)
  unfolding apply_table_events
  events-UniqueKeys table [] unique = unique
  events-UniqueKeys table (e ∷ es) unique =
      events-UniqueKeys (apply_table_event clean caps held_caps table e) es
        (event-UniqueKeys table e unique)
