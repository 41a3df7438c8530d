-- ===== src/Message/Service/Replies.antt =====
-- What the reply of Submit says of itself, on every branch: the table and the wake that go with it.
use irl_notifs.Base.{
  ℤ, ◌≡◌, ◌⊎◌, inl, inr, Bool, true, false, ◌&&◌, not, Option, none, some, List, ◌∷◌, arith,
  Option-cases, if◌then◌else◌,
}
use irl_notifs.Message.Columns.{Columns}
use irl_notifs.Message.Types.{Envelope, DeliveryTarget, StoredMessage}
use irl_notifs.Message.Attempts.{Result, ok, Result-cases}
use irl_notifs.Message.Equality.{bool_eq}
use irl_notifs.Message.Lifecycle.{replace_scheduled_message}
use irl_notifs.Message.Lifecycle.Keeps.{replace-same_id}
use irl_notifs.Message.Table.{Table, Stored, find_by_key}
use irl_notifs.Message.Table.Events.{on_message}
use irl_notifs.Message.Table.Inserts.{
  insert-IsOneGrown, insert_scheduled-IsOneGrown, insert_held-IsOneGrown,
}
use irl_notifs.Message.Targets.{
  Answer, Answer-cases, yields, refuses, Service, Library, resolve_targets,
}
use irl_notifs.Message.Service.{
  Accepted, Views, Given, with_ids, scheduled_caps, new_submit_outcome, replace_by_key,
  submit_existing, hold_message, submit_targets, submit_new, hash_recipient, submit_valid, submit,
}

-- The table that is left of one by what a reply says: a duplicate writes nothing, a replaced message
-- stands in its row, and any other is a new row.
abbrev pub left_by : Accepted → Table → Table
left_by a table =
    if a.outcome.duplicate
    then table
    else if a.outcome.replaced
    then on_message a.stored.id (λ m. a.stored) table
    else a.stored ∷ table

-- The table left is so made from one that the call met.
abbrev pub IsLeft : Views → Accepted → Type 0
IsLeft views a =
    (a.after ≡ left_by a views.at_lookup)
    ⊎ (a.after ≡ left_by a views.at_replace)
    ⊎ (a.after ≡ left_by a views.at_second_lookup)
    ⊎ (a.after ≡ left_by a views.at_insert.0)
    ⊎ (a.after ≡ left_by a views.at_insert_again.0)

-- The worker is woken exactly for a message that is due now, and neither a replaced nor a held message
-- is a duplicate.
abbrev is_coherent : Accepted → Bool
is_coherent a =
    bool_eq a.woken (not a.outcome.duplicate && not a.outcome.held && not a.outcome.scheduled)
    && not (a.outcome.duplicate && a.outcome.replaced)
    && not (a.outcome.duplicate && a.outcome.held)

abbrev Fits : Views → Answer Accepted → Type 0
Fits views (refuses e) = Unit
Fits views (yields a) = IsLeft views a × (is_coherent a ≡ true)

abbrev OptionFits : Views → Option (Answer Accepted) → Type 0
OptionFits views none = Unit
OptionFits views (some answer) = Fits views answer

coherent_parts :
    (a : Accepted)
    → is_coherent a ≡ true
    → (a.woken ≡ (not a.outcome.duplicate && not a.outcome.held && not a.outcome.scheduled))
      × (a.outcome.duplicate && a.outcome.replaced ≡ false)
      × (a.outcome.duplicate && a.outcome.held ≡ false)
coherent_parts a h = ground (arith, h)

-- ReplaceScheduledMessage writes the replaced message into its row, and else nothing.
abbrev IsReplaced : Table → Result Stored → Type 0
IsReplaced table (Result.err e) = Unit
IsReplaced table (ok (next, stored, replaced)) =
    next ≡ (if replaced then on_message stored.id (λ m. stored) table else table)

replace-IsReplaced :
    ⦃columns : Columns⦄ (envelope : Envelope) (targets : List (ℤ × DeliveryTarget)) (given : Given)
    (table : Table)
    → IsReplaced table (replace_by_key envelope targets given table)
unfolding replace_by_key
replace-IsReplaced envelope targets given table =
    elim (Option-cases (find_by_key envelope.app_id envelope.idempotency_key table)) [
      | inl e ↦ rw (e, replace_by_key) ground arith
      | inr (current, e) ↦
          elim (Result-cases
            (replace_scheduled_message envelope targets given.now given.clock current)) [
              | inl (error, h) ↦ rw (e, replace_by_key) rw h ground arith
              | inr ((next, replaced), h) ↦
                  rw (e, replace_by_key) rw h ground
                    (
                      arith,
                      replace-same_id envelope targets given.now given.clock current next replaced
                          h,
                    )
            ]
    ]

module _ (library : Library) (service : Service) where
  existing-Fits :
      ⦃columns : Columns⦄ (envelope : Envelope) (existing : StoredMessage) (given : Given)
      (views : Views)
      → OptionFits views (submit_existing library service envelope existing given views)
  unfolding submit_existing new_submit_outcome
  existing-Fits envelope existing given views =
      elim (Answer-cases (resolve_targets library service views.directory_at_replace envelope)) [
        | inl (e, h) ↦ rw (h, submit_existing) ground arith
        | inr (targets, h) ↦
            rw (h, submit_existing) ground
              (
                arith,
                replace-IsReplaced envelope (with_ids given.delivery_id targets) given
                    views.at_replace,
              )
      ]

  hold-Fits :
      ⦃columns : Columns⦄ (envelope : Envelope) (given : Given) (views : Views)
      → Fits views (hold_message library service envelope given views)
  unfolding hold_message
  hold-Fits envelope given views = ground (
    arith,
    insert_held-IsOneGrown given.id envelope service.held_caps given.now given.clock views.at_insert
        views.at_insert_again,
  )

  targets-Fits :
      ⦃columns : Columns⦄ (envelope : Envelope) (targets : List DeliveryTarget) (given : Given)
      (views : Views)
      → Fits views (submit_targets library service envelope targets given views)
  unfolding submit_targets new_submit_outcome
  targets-Fits envelope targets given views = ground (
    arith,
    insert-IsOneGrown given.id envelope (with_ids given.delivery_id targets) given.clock
        views.at_insert views.at_insert_again,
    insert_scheduled-IsOneGrown given.id envelope (with_ids given.delivery_id targets)
        (scheduled_caps library service) given.clock views.at_insert views.at_insert_again,
  )

  new-Fits :
      ⦃columns : Columns⦄ (envelope : Envelope) (given : Given) (views : Views)
      → Fits views (submit_new library service envelope given views)
  unfolding submit_new
  new-Fits envelope given views =
      elim (Answer-cases (resolve_targets library service views.directory_at_insert envelope)) [
        | inl (e, h) ↦ rw (h, submit_new) ground (arith, hold-Fits envelope given views)
        | inr (targets, h) ↦ rw (h, submit_new) (targets-Fits envelope targets given views)
      ]

  valid-Fits :
      ⦃columns : Columns⦄ (envelope : Envelope) (given : Given) (views : Views)
      → Fits views (submit_valid library service envelope given views)
  unfolding submit_valid
  valid-Fits envelope given views =
      elim (Option-cases (find_by_key envelope.app_id envelope.idempotency_key views.at_lookup)) [
        | inl e ↦ rw (e, submit_valid) (new-Fits envelope given views)
        | inr (existing, e) ↦
            rw (e, submit_valid) ground
              (arith, new-Fits envelope given views, existing-Fits envelope existing given views)
      ]

  submit-Fits :
      ⦃columns : Columns⦄ (envelope : Envelope) (given : Given) (views : Views)
      → Fits views (submit library service envelope given views)
  unfolding submit
  submit-Fits envelope given views =
      ground (arith, valid-Fits (hash_recipient library service envelope) given views)

-- A reply of Submit tells what the call did to a table that it met: a duplicate left it as it was, a
-- replaced message was written into its row, and any other message was put in as a new row. The worker
-- was woken exactly for a message that is no duplicate, not held and not scheduled; and no duplicate is
-- replaced or held.
pub submit_reply :
    ⦃columns : Columns⦄ (library : Library) (service : Service) (envelope : Envelope)
    (given : Given) (views : Views) (a : Accepted)
    → submit library service envelope given views ≡ yields a
    → IsLeft views a
      × (a.woken ≡ (not a.outcome.duplicate && not a.outcome.held && not a.outcome.scheduled))
      × (a.outcome.duplicate && a.outcome.replaced ≡ false)
      × (a.outcome.duplicate && a.outcome.held ≡ false)
submit_reply library service envelope given views a e =
    let (woken, replaced, held) = coherent_parts a (parts a e).1 in
    ((parts a e).0, woken, replaced, held)
  where
    parts :
        (a : Accepted)
        → submit library service envelope given views ≡ yields a
        → IsLeft views a × (is_coherent a ≡ true)
    parts a e = ground (arith, submit-Fits library service envelope given views, e)
