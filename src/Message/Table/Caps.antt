-- ===== src/Message/Table/Caps.antt =====
-- The caps on scheduled messages, per app and over all apps, over any sequence of events.
use irl_notifs.Base.{
  ◌≤◌, ℤ, pos, ◌≤ℤ◌, ◌<ℤ◌, Text, text_eq_iff, ◌≡◌, refl, Bool, true, false, ◌&&◌, none, some, List,
  [], ◌∷◌, any, count_if, arith,
}
use irl_notifs.Base.Time.{Instant}
use irl_notifs.Message.Columns.{Columns}
use irl_notifs.Message.Types.{Envelope, DeliveryTarget, StoredMessage, AttemptRecord}
use irl_notifs.Message.Lifecycle.{
  DeliverySchedule, pending_now, scheduled_at, new_message, insert_deliveries, is_scheduled,
}
use irl_notifs.Message.Lifecycle.Keeps.{same_key, scheduled_before}
use irl_notifs.Message.Lifecycle.Phases.{MessageEvent, apply_event}
use irl_notifs.Message.Table.{
  Table, ScheduledCaps, no_caps, HeldCaps, of_app, has_scheduled, count_scheduled_for_app,
  count_scheduled_total, within_scheduled_caps, within_held_caps, existing_or_gone, insert_once,
  insert_held_once,
}
use irl_notifs.Message.Table.Events.{
  TableEvent, inserted, inserted_scheduled, inserted_held, changed, expired_deleted,
  expired_held_deleted, after_insert, apply_table_event, apply_table_events, count-on_message,
}
use irl_notifs.Message.Table.Expiry.{
  by_time_and_id, created_at_of, held_at_of, is_expired, is_expired_held, delete_expired_batch,
  delete_expired_held_batch,
}
use irl_notifs.Message.Table.Retention.{delete_first_le}

abbrev scheduled_of : Text → StoredMessage → Bool
scheduled_of app_id m = of_app app_id m && has_scheduled m

pending-not-scheduled :
    (id : Text) (clock : Instant) (targets : List (ℤ × DeliveryTarget))
    → any (λ d. is_scheduled d.state) (insert_deliveries id pending_now clock targets) ≡ false
unfolding insert_deliveries is_scheduled
pending-not-scheduled id clock [] = refl
pending-not-scheduled id clock (target ∷ targets) =
    ground (arith, pending-not-scheduled id clock targets)

-- An insert of a row that a test refuses adds none to its count.
pub insert_once-le :
    ⦃columns : Columns⦄ (p : StoredMessage → Bool) (id : Text) (envelope : Envelope)
    (targets : List (ℤ × DeliveryTarget)) (schedule : DeliverySchedule) (caps : ScheduledCaps)
    (clock : Instant) (gone : Bool) (table : Table)
    → p (new_message id envelope none (insert_deliveries id schedule clock targets) clock) ≡ false
    → count_if p
        (after_insert table (insert_once id envelope targets schedule caps clock gone table))
      ≤ count_if p table
unfolding insert_once within_scheduled_caps existing_or_gone
insert_once-le p id envelope targets schedule caps clock gone table h = ground (arith, h)

insert_held_once-le :
    ⦃columns : Columns⦄ (p : StoredMessage → Bool) (id : Text) (envelope : Envelope)
    (caps : HeldCaps) (now clock : Instant) (gone : Bool) (table : Table)
    → p (new_message id envelope (some now) [] clock) ≡ false
    → count_if p (after_insert table (insert_held_once id envelope caps now clock gone table))
      ≤ count_if p table
unfolding insert_held_once within_held_caps existing_or_gone
insert_held_once-le p id envelope caps now clock gone table h = ground (arith, h)

module _ (caps : ScheduledCaps) where
  -- The messages with scheduled rows that an app and all apps together have.
  pub record WithinScheduledCaps (table : Table) : Type 0 where
    pub for_app : (app_id : Text) → pos (count_scheduled_for_app app_id table) ≤ℤ caps.per_app
    pub for_all : pos (count_scheduled_total table) ≤ℤ caps.total

  capped_for_app :
      ⦃columns : Columns⦄ (id : Text) (envelope : Envelope) (targets : List (ℤ × DeliveryTarget))
      (schedule : DeliverySchedule) (clock : Instant) (gone : Bool) (table : Table) (app_id : Text)
      → pos 0 <ℤ caps.per_app
      → pos (count_scheduled_for_app app_id table) ≤ℤ caps.per_app
      → pos (
          count_scheduled_for_app app_id
            (after_insert table (insert_once id envelope targets schedule caps clock gone table)))
        ≤ℤ caps.per_app
  unfolding insert_once within_scheduled_caps existing_or_gone of_app
  capped_for_app id envelope targets schedule clock gone table app_id positive h =
      ground (arith, text_eq_iff envelope.app_id app_id, h)

  capped_total :
      ⦃columns : Columns⦄ (id : Text) (envelope : Envelope) (targets : List (ℤ × DeliveryTarget))
      (schedule : DeliverySchedule) (clock : Instant) (gone : Bool) (table : Table)
      → pos 0 <ℤ caps.per_app
      → pos (count_scheduled_total table) ≤ℤ caps.total
      → pos (
          count_scheduled_total
            (after_insert table (insert_once id envelope targets schedule caps clock gone table)))
        ≤ℤ caps.total
  unfolding insert_once within_scheduled_caps existing_or_gone
  capped_total id envelope targets schedule clock gone table positive h = ground (arith, h)

scheduled_of_before :
    ⦃columns : Columns⦄ (clean : AttemptRecord → AttemptRecord) (app_id : Text) (m : StoredMessage)
    (e : MessageEvent)
    → scheduled_of app_id (apply_event clean m e) ≡ true
    → scheduled_of app_id m ≡ true
unfolding of_app has_scheduled
scheduled_of_before clean app_id m e h =
    ground (arith, same_key clean m e, scheduled_before clean m e, h)

module _ (clean : AttemptRecord → AttemptRecord) (caps : ScheduledCaps) (held_caps : HeldCaps) where
  event-WithinScheduledCaps :
      ⦃columns : Columns⦄ (table : Table) (e : TableEvent)
      → pos 0 <ℤ caps.per_app
      → WithinScheduledCaps caps table
      → WithinScheduledCaps caps (apply_table_event clean caps held_caps table e)
  unfolding apply_table_event delete_expired_batch delete_expired_held_batch has_scheduled
  event-WithinScheduledCaps table (inserted id envelope targets clock gone) positive h = record {
    for_app = λ app_id. omega (
      arith,
      h.for_app app_id,
      insert_once-le (scheduled_of app_id) id envelope targets pending_now no_caps clock gone table
          (ground (arith, pending-not-scheduled id clock targets)),
    );
    for_all = omega (
      arith,
      h.for_all,
      insert_once-le has_scheduled id envelope targets pending_now no_caps clock gone table
          (pending-not-scheduled id clock targets),
    );
  }
  event-WithinScheduledCaps table (inserted_scheduled id envelope targets t clock gone) positive h =
      record {
        for_app = λ app_id.
            capped_for_app caps id envelope targets (scheduled_at t) clock gone table app_id
              positive (h.for_app app_id);
        for_all =
            capped_total caps id envelope targets (scheduled_at t) clock gone table positive
              h.for_all;
      }
  event-WithinScheduledCaps table (inserted_held id envelope now clock gone) positive h = record {
    for_app = λ app_id. omega (
      arith,
      h.for_app app_id,
      insert_held_once-le (scheduled_of app_id) id envelope held_caps now clock gone table
          (ground arith),
    );
    for_all = omega (
      arith,
      h.for_all,
      insert_held_once-le has_scheduled id envelope held_caps now clock gone table refl,
    );
  }
  event-WithinScheduledCaps table (changed id e) positive h = record {
    for_app = λ app_id. omega (
      arith,
      h.for_app app_id,
      count-on_message (scheduled_of app_id) id (λ m. apply_event clean m e) table
          (λ m. scheduled_of_before clean app_id m e),
    );
    for_all = omega (
      arith,
      h.for_all,
      count-on_message has_scheduled id (λ m. apply_event clean m e) table
          (λ m. scheduled_before clean m e),
    );
  }
  event-WithinScheduledCaps table (expired_deleted cutoff limit) positive h = record {
    for_app = λ app_id. omega (
      arith,
      h.for_app app_id,
      delete_first_le (by_time_and_id created_at_of) (is_expired cutoff) (scheduled_of app_id) limit
          table,
    );
    for_all = omega (
      arith,
      h.for_all,
      delete_first_le (by_time_and_id created_at_of) (is_expired cutoff) has_scheduled limit table,
    );
  }
  event-WithinScheduledCaps table (expired_held_deleted cutoff limit) positive h = record {
    for_app = λ app_id. omega (
      arith,
      h.for_app app_id,
      delete_first_le (by_time_and_id held_at_of) (is_expired_held cutoff) (scheduled_of app_id)
          limit table,
    );
    for_all = omega (
      arith,
      h.for_all,
      delete_first_le (by_time_and_id held_at_of) (is_expired_held cutoff) has_scheduled limit
          table,
    );
  }

  -- With a positive cap per app, a table that starts within the caps on scheduled messages, per app and
  -- over all apps, stays within them whatever happens.
  pub events-WithinScheduledCaps :
      ⦃columns : Columns⦄ (table : Table) (es : List TableEvent)
      → pos 0 <ℤ caps.per_app
      → WithinScheduledCaps caps table
      → WithinScheduledCaps caps (apply_table_events clean caps held_caps table es)
  unfolding apply_table_events
  events-WithinScheduledCaps table [] positive h = h
  events-WithinScheduledCaps table (e ∷ es) positive h =
      events-WithinScheduledCaps (apply_table_event clean caps held_caps table e) es positive
        (event-WithinScheduledCaps table e positive h)
