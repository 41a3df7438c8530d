-- ===== src/Message/Service.antt =====
-- Submit of message/service.go. The transactions of one call may see different tables, since other clients
-- work between them: `Views` holds what each meets, and what the registry and the publishers answer. A
-- reply says which table the call left, if it wrote one, and whether it woke the worker.
pub mod Config
pub mod Reads
pub mod Laws
pub mod Replies
pub mod Retry
use irl_notifs.Base.{
  ℕ, suc, ◌+◌, ltb, ℤ, pos, Text, codes, text_eq, Bool, true, false, ◌&&◌, ◌||◌, not, Option, none,
  some, List, [], ◌∷◌, ◌++◌, length, if◌then◌else◌,
}
use irl_notifs.Base.Time.{Instant, after, is_zero}
use irl_notifs.Registry.Types.{
  ResolvedDestination, Resolution, resolved, unknown_destination, destination_disabled,
  resolve_failed, recipient_destination_name,
}
use irl_notifs.Heartbeat.Validate.{Verdict, valid, err}
use irl_notifs.Message.Columns.{Columns}
use irl_notifs.Message.Types.{Display, Envelope, DeliveryTarget, StoredMessage, message_state}
use irl_notifs.Message.Status.{derive_status}
use irl_notifs.Message.Attempts.{Result, ok, StoreError, invalid, message_not_found}
use irl_notifs.Message.Equality.{same_content}
use irl_notifs.Message.Lifecycle.{is_scheduled_status, no_targets, replace_scheduled_message}
use irl_notifs.Message.Table.{
  Table, View, Stored, ScheduledCaps, HeldCaps, find_by_key, insert_message,
  insert_scheduled_message, insert_held_message,
}
use irl_notifs.Message.Table.Events.{on_message}
use irl_notifs.Message.Targets.{
  SubmitError, rejected, of_store, no_destination_matched, Answer, yields, refuses, Service,
  Directory, Library, resolve_targets,
}
use irl_notifs.Message.Validate.{TextTests, validate_envelope, is_hash, is_absent}

pub record SubmitOutcome : Type 0 where
  pub duplicate : Bool
  pub replaced : Bool
  pub scheduled : Bool
  pub held : Bool

-- The reply, the table that the last statement of the call left, and whether the worker was woken.
pub record Accepted : Type 0 where
  pub stored : StoredMessage
  pub outcome : SubmitOutcome
  pub after : Table
  pub woken : Bool

pub record Views : Type 0 where
  pub at_lookup : Table
  pub at_replace : Table
  pub at_second_lookup : Table
  pub at_insert : View
  pub at_insert_again : View
  pub directory_at_replace : Directory
  pub directory_at_insert : Directory

-- What the database gives a new message and its rows.
pub record Given : Type 0 where
  pub id : Text
  pub delivery_id : ℕ → ℤ
  pub now : Instant
  pub clock : Instant

unfoldable pub with_ids : (ℕ → ℤ) → List DeliveryTarget → List (ℤ × DeliveryTarget)
with_ids id [] = []
with_ids id (target ∷ targets) = (id 0, target) ∷ with_ids (λ n. id (suc n)) targets

abbrev pub is_scheduled_message : StoredMessage → Bool
is_scheduled_message stored =
    is_scheduled_status (derive_status stored.deliveries (message_state stored))

unfoldable pub new_submit_outcome : StoredMessage → Bool → Bool → SubmitOutcome
new_submit_outcome stored duplicate replaced = record {
  duplicate = duplicate;
  replaced = replaced;
  scheduled = is_scheduled_message stored;
  held = false;
}

unfoldable pub is_future : Option Instant → Instant → Bool
is_future none now = false
is_future (some t) now = after t now

-- ReplaceScheduledMessage on the table: the row with the key is locked and replaced in place.
unfoldable pub replace_by_key :
    ⦃columns : Columns⦄ → Envelope → List (ℤ × DeliveryTarget) → Given → Table → Result Stored
replace_by_key envelope targets given table =
    if no_targets targets
    then Result.err (invalid (codes "replace scheduled message: no delivery targets"))
    else if is_zero given.now
    then Result.err (invalid (codes "replace scheduled message: now must be set"))
    else elim (find_by_key envelope.app_id envelope.idempotency_key table) [
      | none ↦ Result.err message_not_found
      | some current ↦
          elim (replace_scheduled_message envelope targets given.now given.clock current) [
            | Result.err e ↦ Result.err e
            | ok (next, replaced) ↦ ok (
              if replaced then on_message current.id (λ m. next) table else table,
              next,
              replaced,
            )
          ]
    ]

module _ (library : Library) (service : Service) where
  -- submitExisting: `none` is its `settled` false.
  unfoldable pub submit_existing :
      ⦃columns : Columns⦄ → Envelope → StoredMessage → Given → Views → Option (Answer Accepted)
  submit_existing envelope existing given views =
      if not (is_scheduled_message existing)
        || same_content library.payload_eq existing.envelope envelope
      then some (
          yields (record {
            stored = existing;
            outcome = new_submit_outcome existing true false;
            after = views.at_lookup;
            woken = false;
          }))
      else elim (resolve_targets library service views.directory_at_replace envelope) [
        | refuses e ↦ some (refuses e)
        | yields targets ↦
            elim (replace_by_key envelope (with_ids given.delivery_id targets) given
              views.at_replace) [
                | ok (table, stored, replaced) ↦ some (
                    yields (record {
                      stored = stored;
                      outcome = new_submit_outcome stored (not replaced) replaced;
                      after = table;
                      woken = replaced && not (is_scheduled_message stored);
                    }))
                | Result.err e ↦ elim e [
                  | message_not_found ↦
                      elim (find_by_key envelope.app_id envelope.idempotency_key
                        views.at_second_lookup) [
                          | none ↦ none
                          | some current ↦ some (
                              yields (record {
                                stored = current;
                                outcome = new_submit_outcome current true false;
                                after = views.at_second_lookup;
                                woken = false;
                              }))
                        ]
                  | other ↦ some (refuses (of_store other))
                ]
              ]
      ]

  unfoldable pub hold_message : ⦃columns : Columns⦄ → Envelope → Given → Views → Answer Accepted
  hold_message envelope given views =
      elim (insert_held_message given.id envelope service.held_caps given.now given.clock
        views.at_insert views.at_insert_again) [
          | Result.err e ↦ refuses (of_store e)
          | ok (table, stored, duplicate) ↦ yields (record {
            stored = stored;
            outcome = record {
              duplicate = duplicate;
              replaced = false;
              scheduled = false;
              held = not duplicate;
            };
            after = table;
            woken = false;
          })
        ]

  abbrev pub scheduled_caps : ScheduledCaps
  scheduled_caps = record { per_app = service.max_scheduled; total = service.max_total }

  -- The insert at the end of Submit.
  unfoldable pub submit_targets :
      ⦃columns : Columns⦄ → Envelope → List DeliveryTarget → Given → Views → Answer Accepted
  submit_targets envelope targets given views =
      let rows = with_ids given.delivery_id targets in
      elim (if is_future envelope.deliver_at given.now
        then insert_scheduled_message given.id envelope rows scheduled_caps given.clock
            views.at_insert views.at_insert_again
        else insert_message given.id envelope rows given.clock views.at_insert
            views.at_insert_again) [
              | Result.err e ↦ refuses (of_store e)
              | ok (table, stored, duplicate) ↦ yields (record {
                stored = stored;
                outcome = new_submit_outcome stored duplicate false;
                after = table;
                woken = not duplicate && not (is_scheduled_message stored);
              })
            ]

  may_hold : SubmitError → Envelope → Bool
  may_hold no_destination_matched envelope =
      envelope.hold
      && service.hold_unrouted
      && is_absent envelope.to_recipient
      && is_absent envelope.to_destination
  may_hold _ envelope = false

  unfoldable pub submit_new : ⦃columns : Columns⦄ → Envelope → Given → Views → Answer Accepted
  unfolding may_hold
  submit_new envelope given views =
      elim (resolve_targets library service views.directory_at_insert envelope) [
        | refuses e ↦ if may_hold e envelope then hold_message envelope given views else refuses e
        | yields targets ↦ submit_targets envelope targets given views
      ]

  -- Only the hash of a recipient is compared, resolved or stored.
  unfoldable pub hash_recipient : Envelope → Envelope
  hash_recipient envelope =
      if not (is_absent envelope.to_recipient) && not (is_hash envelope.to_recipient)
      then record envelope { to_recipient = library.hash envelope.to_recipient }
      else envelope

  -- Submit behind its validation.
  unfoldable pub submit_valid : ⦃columns : Columns⦄ → Envelope → Given → Views → Answer Accepted
  submit_valid envelope given views =
      elim (find_by_key envelope.app_id envelope.idempotency_key views.at_lookup) [
        | none ↦ submit_new envelope given views
        | some existing ↦ elim (submit_existing envelope existing given views) [
          | none ↦ submit_new envelope given views
          | some answer ↦ answer
        ]
      ]

  unfoldable pub submit : ⦃columns : Columns⦄ → Envelope → Given → Views → Answer Accepted
  submit envelope given views = elim (validate_envelope library.tests envelope) [
    | err text ↦ refuses (rejected text)
    | valid ↦ submit_valid (hash_recipient envelope) given views
  ]
