-- ===== src/Examples/Messages.antt =====
-- The life cycle of a message at a concrete one, scheduled for time 9000.
use irl_notifs.Base.{ℤ, pos, codes, ◌≡◌, refl, true, false, none, some, List, [], ◌∷◌}
use irl_notifs.Message.Columns.{Columns}
use irl_notifs.Message.Types.{Envelope, DeliveryTarget, StoredMessage, AttemptRecord}
use irl_notifs.Message.Status.{derive_status}
use irl_notifs.Message.Lifecycle.{
  new_message, insert_deliveries, scheduled_at, cancel_locked, is_scheduled_status,
}
use irl_notifs.Message.Lifecycle.Phases.{
  scheduled_for, cancelled, InPhase, MessageEvent, cancel_called, release_ran, replace_called,
  claimed, apply_events, last_phase,
}
use irl_notifs.Message.Lifecycle.Runs.{events-InPhase, cancel_is_final}

instance abbrev spaced : Columns
spaced = record { payload = λ text. codes "{ }"; instant = λ t. t }

abbrev reminder : Envelope
reminder = record {
  app_id = codes "app";
  channel = codes "news";
  idempotency_key = codes "k";
  to_destination = [];
  to_recipient = [];
  deliver_at = some (pos 9000);
  critical = false;
  payload = codes "{}";
  display = none;
  hold = false;
}

abbrev ops_target : ℤ × DeliveryTarget
ops_target = (
  pos 1,
  record {
    destination_id = some (pos 3);
    destination_name = codes "ops";
    destination_type = codes "webhook";
  },
)

abbrev stored_reminder : StoredMessage
stored_reminder =
    new_message (codes "m") reminder none
      (insert_deliveries (codes "m") (scheduled_at (pos 9000)) (pos 100) (ops_target ∷ []))
      (pos 100)

stored_reminder-InPhase : InPhase (scheduled_for (pos 9000)) stored_reminder
unfolding insert_deliveries
stored_reminder-InPhase = record {
  deliveries_fit = refl;
  held_marked = refl;
  cancelled_marked = refl;
  not_failed = refl;
  has_deliveries = λ e. refl;
}

abbrev kept : AttemptRecord → AttemptRecord
kept r = r

abbrev moved_and_sent : List MessageEvent
moved_and_sent =
    release_ran (pos 5000)
    ∷ replace_called (record reminder { deliver_at = some (pos 7000) }) (ops_target ∷ []) (pos 6000)
        (pos 6000)
    ∷ release_ran (pos 8000)
    ∷ claimed (pos 1) (pos 8000) (pos 500) (pos 8000)
    ∷ cancel_called (pos 8100)
    ∷ []

events-InPhase_example :
    InPhase
      (last_phase (scheduled_for (pos 9000)) moved_and_sent)
      (apply_events kept stored_reminder moved_and_sent)
events-InPhase_example =
    events-InPhase kept (scheduled_for (pos 9000)) stored_reminder moved_and_sent
      stored_reminder-InPhase

cut_off : (cancel_locked stored_reminder (pos 500)).1.cancelled ≡ true
unfolding cancel_locked insert_deliveries derive_status is_scheduled_status
cut_off = refl

cancel_is_final_example :
    InPhase cancelled
      (apply_events kept (cancel_locked stored_reminder (pos 500)).0 (release_ran (pos 9500) ∷ []))
cancel_is_final_example =
    cancel_is_final kept (scheduled_for (pos 9000)) stored_reminder (pos 500)
      (release_ran (pos 9500) ∷ []) stored_reminder-InPhase cut_off
