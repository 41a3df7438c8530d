-- ===== src/Message/Service/Laws.antt =====
-- Submitting and reading back: what Submit replies is what the table that it leaves holds under the key.
use irl_notifs.Base.{
  ℤ, Text, ◌≡◌, inl, inr, true, false, Option, none, some, List, arith, Option-cases,
}
use irl_notifs.Message.Columns.{Columns}
use irl_notifs.Message.Types.{Envelope, DeliveryTarget, StoredMessage}
use irl_notifs.Message.Attempts.{Result-cases}
use irl_notifs.Message.Lifecycle.{replace_scheduled_message}
use irl_notifs.Message.Lifecycle.Keeps.{replace-same_key, replace_unchanged}
use irl_notifs.Message.Table.{Table, has_key, find_by_key}
use irl_notifs.Message.Table.Lookup.{
  IsUnderKey, insert-IsUnderKey, insert_scheduled-IsUnderKey, insert_held-IsUnderKey, find-has_key,
  find-on_message,
}
use irl_notifs.Message.Targets.{
  Answer, Answer-cases, yields, refuses, Service, Library, resolve_targets,
}
use irl_notifs.Message.Service.{
  Accepted, Views, Given, with_ids, scheduled_caps, replace_by_key, submit_existing, hold_message,
  submit_targets, submit_new, hash_recipient, submit_valid, submit,
}

-- The table that an answer leaves holds its message under the key.
abbrev ReadsBack : Text → Text → Answer Accepted → Type 0
ReadsBack app_id key (refuses e) = Unit
ReadsBack app_id key (yields a) = find_by_key app_id key a.after ≡ some a.stored

abbrev ReadsBackIfSettled : Text → Text → Option (Answer Accepted) → Type 0
ReadsBackIfSettled app_id key none = Unit
ReadsBackIfSettled app_id key (some answer) = ReadsBack app_id key answer

replace-IsUnderKey :
    ⦃columns : Columns⦄ (envelope : Envelope) (targets : List (ℤ × DeliveryTarget)) (given : Given)
    (table : Table)
    → IsUnderKey envelope.app_id envelope.idempotency_key
        (replace_by_key envelope targets given table)
unfolding replace_by_key has_key
replace-IsUnderKey envelope targets given table =
    elim (Option-cases (find_by_key envelope.app_id envelope.idempotency_key table)) [
      | inl e ↦ rw (e, replace_by_key) ground arith
      | inr (current, e) ↦
          elim (Result-cases
            (replace_scheduled_message envelope targets given.now given.clock current)) [
              | inl (error, h) ↦ rw (e, replace_by_key) rw h ground arith
              | inr ((next, true), h) ↦
                  rw (e, replace_by_key) rw h ground
                    (
                      arith,
                      find-on_message envelope.app_id envelope.idempotency_key table current next e,
                      find-has_key envelope.app_id envelope.idempotency_key table current e,
                      replace-same_key envelope targets given.now given.clock current next true h,
                    )
              | inr ((next, false), h) ↦
                  rw (e, replace_by_key) rw h ground
                    (
                      arith,
                      e,
                      replace_unchanged envelope targets given.now given.clock current next h,
                    )
            ]
    ]

module _ (library : Library) (service : Service) where
  existing-ReadsBack :
      ⦃columns : Columns⦄ (envelope : Envelope) (existing : StoredMessage) (given : Given)
      (views : Views)
      → find_by_key envelope.app_id envelope.idempotency_key views.at_lookup ≡ some existing
      → ReadsBackIfSettled envelope.app_id envelope.idempotency_key
          (submit_existing library service envelope existing given views)
  unfolding submit_existing
  existing-ReadsBack envelope existing given views found =
      elim (Answer-cases (resolve_targets library service views.directory_at_replace envelope)) [
        | inl (e, h) ↦ rw (h, submit_existing) ground (arith, found)
        | inr (targets, h) ↦
            rw (h, submit_existing) ground
              (
                arith,
                found,
                replace-IsUnderKey envelope (with_ids given.delivery_id targets) given
                    views.at_replace,
              )
      ]

  hold-ReadsBack :
      ⦃columns : Columns⦄ (envelope : Envelope) (given : Given) (views : Views)
      → ReadsBack envelope.app_id envelope.idempotency_key
          (hold_message library service envelope given views)
  unfolding hold_message
  hold-ReadsBack envelope given views = ground (
    arith,
    insert_held-IsUnderKey given.id envelope service.held_caps given.now given.clock views.at_insert
        views.at_insert_again,
  )

  targets-ReadsBack :
      ⦃columns : Columns⦄ (envelope : Envelope) (targets : List DeliveryTarget) (given : Given)
      (views : Views)
      → ReadsBack envelope.app_id envelope.idempotency_key
          (submit_targets library service envelope targets given views)
  unfolding submit_targets
  targets-ReadsBack envelope targets given views = ground (
    arith,
    insert-IsUnderKey given.id envelope (with_ids given.delivery_id targets) given.clock
        views.at_insert views.at_insert_again,
    insert_scheduled-IsUnderKey given.id envelope (with_ids given.delivery_id targets)
        (scheduled_caps library service) given.clock views.at_insert views.at_insert_again,
  )

  new-ReadsBack :
      ⦃columns : Columns⦄ (envelope : Envelope) (given : Given) (views : Views)
      → ReadsBack envelope.app_id envelope.idempotency_key
          (submit_new library service envelope given views)
  unfolding submit_new
  new-ReadsBack envelope given views =
      elim (Answer-cases (resolve_targets library service views.directory_at_insert envelope)) [
        | inl (e, h) ↦ rw (h, submit_new) ground (arith, hold-ReadsBack envelope given views)
        | inr (targets, h) ↦ rw (h, submit_new) (targets-ReadsBack envelope targets given views)
      ]

  valid-ReadsBack :
      ⦃columns : Columns⦄ (envelope : Envelope) (given : Given) (views : Views)
      → ReadsBack envelope.app_id envelope.idempotency_key
          (submit_valid library service envelope given views)
  unfolding submit_valid
  valid-ReadsBack envelope given views =
      elim (Option-cases (find_by_key envelope.app_id envelope.idempotency_key views.at_lookup)) [
        | inl e ↦ rw (e, submit_valid) (new-ReadsBack envelope given views)
        | inr (existing, e) ↦
            rw (e, submit_valid) ground
              (
                arith,
                new-ReadsBack envelope given views,
                existing-ReadsBack envelope existing given views e,
              )
      ]

  submit-ReadsBack :
      ⦃columns : Columns⦄ (envelope : Envelope) (given : Given) (views : Views)
      → ReadsBack envelope.app_id envelope.idempotency_key
          (submit library service envelope given views)
  unfolding submit hash_recipient
  submit-ReadsBack envelope given views =
      ground (arith, valid-ReadsBack (hash_recipient library service envelope) given views)

-- Whatever the tables were that it met, a submit that replies leaves the message of its reply under the app
-- and the key of the envelope: GetByKey of them reads it back from the table that its last statement left.
pub submit-find_by_key :
    ⦃columns : Columns⦄ (library : Library) (service : Service) (envelope : Envelope)
    (given : Given) (views : Views) (a : Accepted)
    → submit library service envelope given views ≡ yields a
    → find_by_key envelope.app_id envelope.idempotency_key a.after ≡ some a.stored
submit-find_by_key library service envelope given views a e =
    ground (arith, submit-ReadsBack library service envelope given views, e)
