-- ===== src/Examples/Tables.antt =====
-- The table of messages at concrete ones: a day of events, a pending message, and one that is sent.
use irl_notifs.Base.{
  ◌-◌, ◌≤◌, ltb, min, ℤ, pos, ◌<ℤ◌, ◌+ℤ◌, codes, text_eq, ◌≡◌, refl, Bool, true, false, ◌&&◌, none,
  some, List, [], ◌∷◌, count_if, arith,
}
use irl_notifs.Base.Time.{add}
use irl_notifs.Base.Sorting.{sort_by}
use irl_notifs.Message.Columns.{Columns}
use irl_notifs.Message.Types.{
  state_pending, Envelope, DeliveryTarget, Delivery, StoredMessage, AttemptRecord,
}
use irl_notifs.Message.Attempts.{ok}
use irl_notifs.Message.Lifecycle.{
  new_message, insert_deliveries, pending_now, scheduled_at, is_scheduled,
}
use irl_notifs.Message.Lifecycle.Phases.{release_ran}
use irl_notifs.Message.Table.{ScheduledCaps, HeldCaps}
use irl_notifs.Message.Table.Events.{
  TableEvent, inserted, inserted_scheduled, inserted_held, changed, expired_deleted,
  apply_table_events,
}
use irl_notifs.Message.Table.Expiry.{is_expired, delete_expired, delete_expired_in_batches}
use irl_notifs.Message.Table.Retention.{
  unstopped, is_in_use, delete_expired_complete, delete_expired_keeps,
}
use irl_notifs.Message.Table.Releases.{has_due, release_first, release_due_messages}
use irl_notifs.Dispatch.Release.{drain, release_run}
use irl_notifs.Dispatch.Release.Draining.{undisturbed, has_delivery, release_run_complete}
use irl_notifs.Message.Table.Keys.{UniqueKeys, events-UniqueKeys}
use irl_notifs.Message.Table.Caps.{WithinScheduledCaps, events-WithinScheduledCaps}
use irl_notifs.Message.Table.HeldCapacity.{WithinHeldCaps, events-WithinHeldCaps}
use irl_notifs.Message.Table.Claims.{
  Row, rows, is_due, due_before, next_due, leased, update_row, claim_next,
}
use irl_notifs.Message.Table.Claims.Leases.{
  LeaseStep, claiming, writing, inserting, deleting, claim_all, mentions, exclusive_lease,
}
use irl_notifs.Message.Table.Claims.Order.{claim_earliest}

-- jsonb spells an empty object with a space.
instance abbrev pub spaced : Columns
spaced = record { payload = λ text. codes "{ }"; instant = λ t. t }

abbrev pub report : Envelope
report = record {
  app_id = codes "app";
  channel = codes "news";
  idempotency_key = codes "k1";
  to_destination = [];
  to_recipient = [];
  deliver_at = none;
  critical = false;
  payload = codes "{}";
  display = none;
  hold = false;
}

abbrev pub ops_row : ℤ × DeliveryTarget
ops_row = (
  pos 7,
  record {
    destination_id = some (pos 3);
    destination_name = codes "ops";
    destination_type = codes "webhook";
  },
)

abbrev two_caps : ScheduledCaps
two_caps = record { per_app = pos 1; total = pos 2 }

abbrev pub held_two : HeldCaps
held_two = record { per_app = pos 1; total = pos 2 }

abbrev unchanged : AttemptRecord → AttemptRecord
unchanged r = r

-- A pending message and a retry of it, one held, two scheduled of which the second is over the cap, a
-- release and an expiry.
abbrev busy_day : List TableEvent
busy_day =
    inserted (codes "m1") report (ops_row ∷ []) (pos 100) false
    ∷ inserted (codes "m2") report (ops_row ∷ []) (pos 110) false
    ∷ inserted_held (codes "m3") (record report { idempotency_key = codes "k2" }) (pos 120)
        (pos 120) false
    ∷ inserted_scheduled (codes "m4") (record report { idempotency_key = codes "k3" })
        (ops_row ∷ []) (pos 900) (pos 130) false
    ∷ inserted_scheduled (codes "m5") (record report { idempotency_key = codes "k4" })
        (ops_row ∷ []) (pos 900) (pos 140) false
    ∷ changed (codes "m4") (release_ran (pos 950))
    ∷ expired_deleted (pos 1000) 500
    ∷ []

no_messages-UniqueKeys : UniqueKeys []
no_messages-UniqueKeys app_id key = omega arith

events-UniqueKeys_example : UniqueKeys (apply_table_events unchanged two_caps held_two [] busy_day)
events-UniqueKeys_example =
    events-UniqueKeys unchanged two_caps held_two [] busy_day no_messages-UniqueKeys

no_messages-WithinScheduledCaps : WithinScheduledCaps two_caps []
no_messages-WithinScheduledCaps = record { for_app = λ app_id. omega arith; for_all = omega arith }

one_allowed : pos 0 <ℤ two_caps.per_app
one_allowed = omega arith

events-WithinScheduledCaps_example :
    WithinScheduledCaps two_caps (apply_table_events unchanged two_caps held_two [] busy_day)
events-WithinScheduledCaps_example =
    events-WithinScheduledCaps unchanged two_caps held_two [] busy_day one_allowed
      no_messages-WithinScheduledCaps

no_messages-WithinHeldCaps : WithinHeldCaps held_two []
no_messages-WithinHeldCaps = record {
  held_for_app = λ app_id. omega arith;
  held_for_all = omega arith;
}

events-WithinHeldCaps_example :
    WithinHeldCaps held_two (apply_table_events unchanged two_caps held_two [] busy_day)
events-WithinHeldCaps_example =
    events-WithinHeldCaps unchanged two_caps held_two [] busy_day no_messages-WithinHeldCaps

abbrev pub pending_report : StoredMessage
pending_report =
    new_message (codes "m1") report none
      (insert_deliveries (codes "m1") pending_now (pos 100) (ops_row ∷ [])) (pos 100)

abbrev sent_report : StoredMessage
sent_report = new_message (codes "m0") report none [] (pos 50)

abbrev nothing_locked : ℤ → Bool
nothing_locked id = false

abbrev claimed_row : Delivery
claimed_row = leased (pos 700) (pos 200) (record {
  id = pos 7;
  message_id = codes "m1";
  destination_id = some (pos 3);
  destination_name = codes "ops";
  destination_type = codes "webhook";
  state = state_pending;
  dead_reason = none;
  attempt_count = pos 0;
  budget_attempts = pos 0;
  budget_started_at = pos 100;
  next_attempt_at = pos 100;
  last_status_code = none;
  delivered_at = none;
  created_at = pos 100;
  updated_at = pos 100;
})

first_claim :
    claim_next nothing_locked (pos 200) (pos 500) (pos 200) (pending_report ∷ [])
    ≡ ok (
      update_row (pos 7) (leased (pos 700) (pos 200)) (pending_report ∷ []),
      some (record { delivery = claimed_row; message = record pending_report { deliveries = [] } }),
    )
unfolding claim_next next_due rows sort_by insert_deliveries ◌+ℤ◌
first_claim = refl

abbrev later_calls : List LeaseStep
later_calls =
    claiming (record { locked = nothing_locked; now = pos 300; lease = pos 500; clock = pos 300 })
    ∷ inserting sent_report
    ∷ writing (pos 8) (leased (pos 500) (pos 400))
    ∷ deleting (λ m. text_eq m.id (codes "m1"))
    ∷ claiming (record { locked = nothing_locked; now = pos 600; lease = pos 500; clock = pos 600 })
    ∷ []

exclusive_lease_example :
    mentions (pos 7) (
      claim_all later_calls (update_row (pos 7) (leased (pos 700) (pos 200)) (pending_report ∷ [])))
    ≡ false
unfolding ◌+ℤ◌
exclusive_lease_example =
    exclusive_lease nothing_locked (pos 200) (pos 500) (pos 200) (pending_report ∷ [])
      (update_row (pos 7) (leased (pos 700) (pos 200)) (pending_report ∷ []))
      (record { delivery = claimed_row; message = record pending_report { deliveries = [] } })
      later_calls first_claim refl

one_due : 1 ≤ count_if (is_due nothing_locked (pos 200)) (rows (pending_report ∷ []))
unfolding rows insert_deliveries
one_due = omega arith

claim_earliest_example :
    (row : Row) × (is_due nothing_locked (pos 200) row ≡ true)
    × (count_if
          (λ r. is_due nothing_locked (pos 200) r && due_before r row)
          (rows (pending_report ∷ []))
        ≡ 0)
    × (claim_next nothing_locked (pos 200) (pos 500) (pos 200) (pending_report ∷ [])
        ≡ ok (
          update_row row.1.id (leased (add (pos 200) (pos 500)) (pos 200)) (pending_report ∷ []),
          some (record {
            delivery = leased (add (pos 200) (pos 500)) (pos 200) row.1;
            message = record row.0 { deliveries = [] };
          }),
        ))
claim_earliest_example =
    claim_earliest nothing_locked (pos 200) (pos 500) (pos 200) (pending_report ∷ []) (omega arith)
      one_due

delete_expired_complete_example :
    (count_if
        (is_expired (pos 400))
        (delete_expired unstopped (pos 400) (pending_report ∷ sent_report ∷ [])).0
      ≡ count_if (is_expired (pos 400)) (pending_report ∷ sent_report ∷ []) - 100000)
    × ((delete_expired unstopped (pos 400) (pending_report ∷ sent_report ∷ [])).1
        ≡ min 100000 (count_if (is_expired (pos 400)) (pending_report ∷ sent_report ∷ [])))
delete_expired_complete_example =
    delete_expired_complete (pos 400) (pending_report ∷ sent_report ∷ [])

delete_expired_keeps_example :
    count_if
      (λ m. is_in_use m && text_eq m.id (codes "m1"))
      (delete_expired_in_batches unstopped (pos 400) (pos 1) (pending_report ∷ sent_report ∷ [])).0
    ≡ count_if (λ m. is_in_use m && text_eq m.id (codes "m1")) (pending_report ∷ sent_report ∷ [])
delete_expired_keeps_example =
    delete_expired_keeps (λ m. text_eq m.id (codes "m1")) unstopped (pos 400) (pos 1)
      (pending_report ∷ sent_report ∷ [])

abbrev scheduled_report : StoredMessage
scheduled_report =
    new_message (codes "m6") report none
      (insert_deliveries (codes "m6") (scheduled_at (pos 300)) (pos 100) (ops_row ∷ [])) (pos 100)

release_run_complete_example :
    (count_if
        (has_due (pos 400))
        (release_run (undisturbed (pos 400)) (scheduled_report ∷ pending_report ∷ [])).0
      ≡ count_if (has_due (pos 400)) (scheduled_report ∷ pending_report ∷ []) - 5000)
    × ((release_run (undisturbed (pos 400)) (scheduled_report ∷ pending_report ∷ [])).1
        ≡ min 5000 (count_if (has_due (pos 400)) (scheduled_report ∷ pending_report ∷ [])))
    × ((release_run (undisturbed (pos 400)) (scheduled_report ∷ pending_report ∷ [])).2
        ≡ ltb 0 (count_if (has_due (pos 400)) (scheduled_report ∷ pending_report ∷ [])))
    × (count_if
          (has_delivery (pos 400) (codes "m6") (pos 7))
          (release_run (undisturbed (pos 400)) (scheduled_report ∷ pending_report ∷ [])).0
        ≡ count_if
            (has_delivery (pos 400) (codes "m6") (pos 7))
            (scheduled_report ∷ pending_report ∷ []))
release_run_complete_example =
    release_run_complete (pos 400) (scheduled_report ∷ pending_report ∷ []) (codes "m6") (pos 7)
      refl

one_released : (release_run (undisturbed (pos 400)) (scheduled_report ∷ pending_report ∷ [])).1 ≡ 1
unfolding release_run drain release_due_messages release_first has_due is_scheduled
    insert_deliveries sort_by
one_released = refl
