-- ===== src/Message/Table/HeldCapacity.antt =====
-- The caps on held messages, per app and over all apps, over any sequence of events.
use irl_notifs.Base.{
  ◌≤◌, pos, ◌≤ℤ◌, Text, text_eq_iff, ◌≡◌, refl, Bool, true, false, ◌&&◌, none, List, [], ◌∷◌,
  count_if, arith,
}
use irl_notifs.Base.Time.{Instant}
use irl_notifs.Message.Columns.{Columns}
use irl_notifs.Message.Types.{Envelope, StoredMessage, AttemptRecord}
use irl_notifs.Message.Lifecycle.{pending_now, scheduled_at, new_message, insert_deliveries}
use irl_notifs.Message.Lifecycle.Keeps.{same_key, held_before}
use irl_notifs.Message.Lifecycle.Phases.{MessageEvent, apply_event}
use irl_notifs.Message.Table.{
  Table, ScheduledCaps, no_caps, HeldCaps, of_app, is_held, count_held_for_app, count_held_total,
  within_held_caps, existing_or_gone, insert_held_once,
}
use irl_notifs.Message.Table.Events.{
  TableEvent, inserted, inserted_scheduled, inserted_held, changed, expired_deleted,
  expired_held_deleted, after_insert, apply_table_event, apply_table_events, count-on_message,
}
use irl_notifs.Message.Table.Expiry.{
  by_time_and_id, created_at_of, held_at_of, is_expired, is_expired_held, delete_expired_batch,
  delete_expired_held_batch,
}
use irl_notifs.Message.Table.Retention.{delete_first_le}
use irl_notifs.Message.Table.Caps.{insert_once-le}

abbrev held_of : Text → StoredMessage → Bool
held_of app_id m = of_app app_id m && is_held m

module _ (caps : HeldCaps) where
  -- The held messages of an app and of all apps together.
  pub record WithinHeldCaps (table : Table) : Type 0 where
    pub held_for_app : (app_id : Text) → pos (count_held_for_app app_id table) ≤ℤ caps.per_app
    pub held_for_all : pos (count_held_total table) ≤ℤ caps.total

  held_capped_for_app :
      ⦃columns : Columns⦄ (id : Text) (envelope : Envelope) (now clock : Instant) (gone : Bool)
      (table : Table) (app_id : Text)
      → pos (count_held_for_app app_id table) ≤ℤ caps.per_app
      → pos (
          count_held_for_app app_id
            (after_insert table (insert_held_once id envelope caps now clock gone table)))
        ≤ℤ caps.per_app
  unfolding insert_held_once within_held_caps existing_or_gone of_app
  held_capped_for_app id envelope now clock gone table app_id h =
      ground (arith, text_eq_iff envelope.app_id app_id, h)

  held_capped_total :
      ⦃columns : Columns⦄ (id : Text) (envelope : Envelope) (now clock : Instant) (gone : Bool)
      (table : Table)
      → pos (count_held_total table) ≤ℤ caps.total
      → pos (
          count_held_total
            (after_insert table (insert_held_once id envelope caps now clock gone table)))
        ≤ℤ caps.total
  unfolding insert_held_once within_held_caps existing_or_gone
  held_capped_total id envelope now clock gone table h = ground (arith, h)

held_of_before :
    ⦃columns : Columns⦄ (clean : AttemptRecord → AttemptRecord) (app_id : Text) (m : StoredMessage)
    (e : MessageEvent)
    → held_of app_id (apply_event clean m e) ≡ true
    → held_of app_id m ≡ true
unfolding of_app is_held
held_of_before clean app_id m e h = ground (arith, same_key clean m e, held_before clean m e, h)

abbrev inserts_held : TableEvent → Bool
inserts_held (inserted_held id envelope now clock gone) = true
inserts_held _ = false

module _ (clean : AttemptRecord → AttemptRecord) (caps : ScheduledCaps) (held_caps : HeldCaps) where
  -- An event other than the insert of a held message adds none to a count of held rows.
  event-le :
      ⦃columns : Columns⦄ (p : StoredMessage → Bool) (table : Table) (e : TableEvent)
      → ((m : StoredMessage) → p m ≡ (p m && is_held m))
      → ((m : StoredMessage) (change : MessageEvent)
          → p (apply_event clean m change) ≡ true
          → p m ≡ true)
      → inserts_held e ≡ false
      → count_if p (apply_table_event clean caps held_caps table e) ≤ count_if p table
  unfolding apply_table_event delete_expired_batch delete_expired_held_batch is_held
  event-le p table (inserted id envelope targets clock gone) of_held before other =
      insert_once-le p id envelope targets pending_now no_caps clock gone table (
        ground (
          arith,
          of_held
              (new_message id envelope none (insert_deliveries id pending_now clock targets) clock),
        ))
  event-le p table (inserted_scheduled id envelope targets t clock gone) of_held before other =
      insert_once-le p id envelope targets (scheduled_at t) caps clock gone table (
        ground (
          arith,
          of_held (
              new_message id envelope none (insert_deliveries id (scheduled_at t) clock targets)
                clock),
        ))
  event-le p table (inserted_held id envelope now clock gone) of_held before other = ground arith
  event-le p table (changed id e) of_held before other =
      count-on_message p id (λ m. apply_event clean m e) table (λ m. before m e)
  event-le p table (expired_deleted cutoff limit) of_held before other =
      delete_first_le (by_time_and_id created_at_of) (is_expired cutoff) p limit table
  event-le p table (expired_held_deleted cutoff limit) of_held before other =
      delete_first_le (by_time_and_id held_at_of) (is_expired_held cutoff) p limit table

  other_event-WithinHeldCaps :
      ⦃columns : Columns⦄ (table : Table) (e : TableEvent)
      → inserts_held e ≡ false
      → WithinHeldCaps held_caps table
      → WithinHeldCaps held_caps (apply_table_event clean caps held_caps table e)
  unfolding is_held
  other_event-WithinHeldCaps table e other h = record {
    held_for_app = λ app_id. omega (
      arith,
      h.held_for_app app_id,
      event-le (held_of app_id) table e (λ m. ground arith) (held_of_before clean app_id) other,
    );
    held_for_all = omega (
      arith,
      h.held_for_all,
      event-le is_held table e (λ m. ground arith) (λ m change. held_before clean m change) other,
    );
  }

  event-WithinHeldCaps :
      ⦃columns : Columns⦄ (table : Table) (e : TableEvent)
      → WithinHeldCaps held_caps table
      → WithinHeldCaps held_caps (apply_table_event clean caps held_caps table e)
  unfolding apply_table_event
  event-WithinHeldCaps table (inserted_held id envelope now clock gone) h = record {
    held_for_app = λ app_id.
        held_capped_for_app held_caps id envelope now clock gone table app_id
          (h.held_for_app app_id);
    held_for_all = held_capped_total held_caps id envelope now clock gone table h.held_for_all;
  }
  event-WithinHeldCaps table (inserted id envelope targets clock gone) h =
      other_event-WithinHeldCaps table (inserted id envelope targets clock gone) refl h
  event-WithinHeldCaps table (inserted_scheduled id envelope targets t clock gone) h =
      other_event-WithinHeldCaps table (inserted_scheduled id envelope targets t clock gone) refl h
  event-WithinHeldCaps table (changed id e) h =
      other_event-WithinHeldCaps table (changed id e) refl h
  event-WithinHeldCaps table (expired_deleted cutoff limit) h =
      other_event-WithinHeldCaps table (expired_deleted cutoff limit) refl h
  event-WithinHeldCaps table (expired_held_deleted cutoff limit) h =
      other_event-WithinHeldCaps table (expired_held_deleted cutoff limit) refl h

  -- A table that starts within the caps on held messages, per app and over all apps, stays within them
  -- whatever happens.
  pub events-WithinHeldCaps :
      ⦃columns : Columns⦄ (table : Table) (es : List TableEvent)
      → WithinHeldCaps held_caps table
      → WithinHeldCaps held_caps (apply_table_events clean caps held_caps table es)
  unfolding apply_table_events
  events-WithinHeldCaps table [] h = h
  events-WithinHeldCaps table (e ∷ es) h =
      events-WithinHeldCaps (apply_table_event clean caps held_caps table e) es
        (event-WithinHeldCaps table e h)
