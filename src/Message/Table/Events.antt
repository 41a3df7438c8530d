-- ===== src/Message/Table/Events.antt =====
-- The transactions that change the table, one after the other: one attempt of an insert, a change of one
-- message under its lock, and one batch of a deletion by age.
use irl_notifs.Base.{
  ℕ, ℤ, count_if, ◌≤◌, Text, text_eq, ◌≡◌, Bool, true, List, [], ◌∷◌, map, arith, if◌then◌else◌,
}
use irl_notifs.Base.Time.{Instant}
use irl_notifs.Message.Columns.{Columns}
use irl_notifs.Message.Types.{Envelope, DeliveryTarget, StoredMessage, AttemptRecord}
use irl_notifs.Message.Attempts.{Result, ok, err}
use irl_notifs.Message.Lifecycle.{pending_now, scheduled_at}
use irl_notifs.Message.Lifecycle.Phases.{MessageEvent, apply_event}
use irl_notifs.Message.Table.{
  Table, Stored, ScheduledCaps, no_caps, HeldCaps, insert_once, insert_held_once,
}
use irl_notifs.Message.Table.Expiry.{delete_expired_batch, delete_expired_held_batch}

pub data TableEvent : Type 0 where
  inserted : Text → Envelope → List (ℤ × DeliveryTarget) → Instant → Bool → TableEvent
  inserted_scheduled :
      Text → Envelope → List (ℤ × DeliveryTarget) → Instant → Instant → Bool → TableEvent
  inserted_held : Text → Envelope → Instant → Instant → Bool → TableEvent
  changed : Text → MessageEvent → TableEvent
  expired_deleted : Instant → ℕ → TableEvent
  expired_held_deleted : Instant → ℕ → TableEvent

abbrev pub on_message : Text → (StoredMessage → StoredMessage) → Table → Table
on_message id f = map (λ m. if text_eq m.id id then f m else m)

abbrev pub after_insert : Table → Result Stored → Table
after_insert table (ok (next, stored, duplicate)) = next
after_insert table (err e) = table

module _ (clean : AttemptRecord → AttemptRecord) (caps : ScheduledCaps) (held_caps : HeldCaps) where
  unfoldable pub apply_table_event : ⦃columns : Columns⦄ → Table → TableEvent → Table
  apply_table_event table (inserted id envelope targets clock gone) =
      after_insert table (insert_once id envelope targets pending_now no_caps clock gone table)
  apply_table_event table (inserted_scheduled id envelope targets t clock gone) =
      after_insert table (insert_once id envelope targets (scheduled_at t) caps clock gone table)
  apply_table_event table (inserted_held id envelope now clock gone) =
      after_insert table (insert_held_once id envelope held_caps now clock gone table)
  apply_table_event table (changed id e) = on_message id (λ m. apply_event clean m e) table
  apply_table_event table (expired_deleted cutoff limit) =
      (delete_expired_batch cutoff limit table).0
  apply_table_event table (expired_held_deleted cutoff limit) =
      (delete_expired_held_batch cutoff limit table).0

  unfoldable pub apply_table_events : ⦃columns : Columns⦄ → Table → List TableEvent → Table
  apply_table_events table [] = table
  apply_table_events table (e ∷ es) = apply_table_events (apply_table_event table e) es

pub count-on_message :
    (p : StoredMessage → Bool) (id : Text) (f : StoredMessage → StoredMessage) (table : Table)
    → ((m : StoredMessage) → p (f m) ≡ true → p m ≡ true)
    → count_if p (on_message id f table) ≤ count_if p table
count-on_message p id f [] step = omega arith
count-on_message p id f (m ∷ table) step =
    ground (arith, step m, count-on_message p id f table step)
