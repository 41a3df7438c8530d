-- ===== src/Message/Table.antt =====
-- The tables messages and message_deliveries as one list of messages with their deliveries, and the
-- transactions over all of it: the inserts with their caps (message/pgstore.go, pgstore_held.go) and
-- the lease of the next due delivery (ClaimDue), the release of due messages (ReleaseDue), the deletion
-- by age. The unique index on (app_id, idempotency_key) is the
-- lookup before an insert; the advisory locks make the capped inserts follow one another.
pub mod Events
pub mod Lookup
pub mod Inserts
pub mod Caps
pub mod HeldCapacity
pub mod Keys
pub mod Claims
pub mod Expiry
pub mod Retention
pub mod Releases
use irl_notifs.Base.{
  ℕ, ℤ, pos, ltb_ℤ, leb_ℤ, eqb_ℤ, Text, codes, text_eq, Bool, true, false, ◌&&◌, ◌||◌, not, Option,
  none, some, List, [], ◌∷◌, any, is_some, count_if, if◌then◌else◌,
}
use irl_notifs.Base.Time.{Instant, Duration, add, is_zero}
use irl_notifs.Message.Columns.{Columns}
use irl_notifs.Message.Types.{
  DeliveryState, state_scheduled, Envelope, DeliveryTarget, Delivery, StoredMessage,
}
use irl_notifs.Message.Attempts.{
  Result, ok, err, StoreError, invalid, message_not_found, too_many_scheduled,
  scheduled_capacity_reached, too_many_held, held_capacity_reached, is_pending,
}
use irl_notifs.Message.Lifecycle.{
  DeliverySchedule, pending_now, scheduled_at, insert_deliveries, new_message, is_scheduled,
  no_targets,
}

abbrev pub Table : Type 0
Table = List StoredMessage

unfoldable pub has_key : Text → Text → StoredMessage → Bool
has_key app_id key m = text_eq m.envelope.app_id app_id && text_eq m.envelope.idempotency_key key

-- GetMessageByKey.
unfoldable pub find_by_key : Text → Text → Table → Option StoredMessage
find_by_key app_id key [] = none
find_by_key app_id key (m ∷ table) =
    let rest = find_by_key app_id key table in if has_key app_id key m then some m else rest

pub record ScheduledCaps : Type 0 where
  pub per_app : ℤ
  pub total : ℤ

abbrev pub no_caps : ScheduledCaps
no_caps = record { per_app = pos 0; total = pos 0 }

unfoldable pub has_scheduled : StoredMessage → Bool
unfolding is_scheduled
has_scheduled m = any (λ d. is_scheduled d.state) m.deliveries

unfoldable pub of_app : Text → StoredMessage → Bool
of_app app_id m = text_eq m.envelope.app_id app_id

-- scheduledCountSQL and scheduledTotalSQL.
abbrev pub count_scheduled_for_app : Text → Table → ℕ
count_scheduled_for_app app_id = count_if (λ m. of_app app_id m && has_scheduled m)

abbrev pub count_scheduled_total : Table → ℕ
count_scheduled_total = count_if has_scheduled

unfoldable pub is_held : StoredMessage → Bool
is_held m = is_some m.held_at

-- heldCountForAppSQL and heldCountTotalSQL.
abbrev pub count_held_for_app : Text → Table → ℕ
count_held_for_app app_id = count_if (λ m. of_app app_id m && is_held m)

abbrev pub count_held_total : Table → ℕ
count_held_total = count_if is_held

-- The count is over the cap.
abbrev pub over : ℕ → ℤ → Bool
over count cap = ltb_ℤ cap (pos count)

-- The table, the stored message, and whether it is a duplicate.
abbrev pub Stored : Type 0
Stored = Table × StoredMessage × Bool

-- The checks behind the insert: an error rolls the insert back.
unfoldable pub within_scheduled_caps : ScheduledCaps → Table → StoredMessage → Result Stored
within_scheduled_caps caps table stored =
    if not (ltb_ℤ (pos 0) caps.per_app)
    then ok (stored ∷ table, stored, false)
    else if over (count_scheduled_for_app stored.envelope.app_id (stored ∷ table)) caps.per_app
    then err too_many_scheduled
    else if over (count_scheduled_total (stored ∷ table)) caps.total
    then err scheduled_capacity_reached
    else ok (stored ∷ table, stored, false)

-- The row found by a conflicting key, unless it is gone by the time of the second select.
existing_or_gone : Bool → Table → StoredMessage → Result Stored
existing_or_gone gone table existing =
    if gone then err message_not_found else ok (table, existing, true)

unfoldable pub insert_once :
    ⦃columns : Columns⦄
    → Text
    → Envelope
    → List (ℤ × DeliveryTarget)
    → DeliverySchedule
    → ScheduledCaps
    → Instant
    → Bool
    → Table
    → Result Stored
unfolding within_scheduled_caps existing_or_gone
insert_once id envelope targets schedule caps clock gone table =
    elim (find_by_key envelope.app_id envelope.idempotency_key table) [
      | some existing ↦ existing_or_gone gone table existing
      | none ↦
          within_scheduled_caps caps table
            (new_message id envelope none (insert_deliveries id schedule clock targets) clock)
    ]

-- What one attempt of an insert meets: the table, and whether a conflicting row vanishes.
abbrev pub View : Type 0
View = Table × Bool

-- insertWithRetry: two attempts.
unfoldable pub insert_with_retry :
    ⦃columns : Columns⦄
    → Text
    → Envelope
    → List (ℤ × DeliveryTarget)
    → DeliverySchedule
    → ScheduledCaps
    → Instant
    → View
    → View
    → Result Stored
insert_with_retry id envelope targets schedule caps clock (table, gone) (table', gone') =
    if no_targets targets
    then err (invalid (codes "insert message: no delivery targets"))
    else elim (insert_once id envelope targets schedule caps clock gone table) [
      | ok stored ↦ ok stored
      | err e ↦ elim e [
        | message_not_found ↦
            elim (insert_once id envelope targets schedule caps clock gone' table') [
              | ok stored ↦ ok stored
              | err e' ↦ elim e' [
                | message_not_found ↦ err (
                    invalid
                      (codes "insert message: conflicting message deleted during every attempt"))
                | other ↦ err other
              ]
            ]
        | other ↦ err other
      ]
    ]

unfoldable pub insert_message :
    ⦃columns : Columns⦄
    → Text
    → Envelope
    → List (ℤ × DeliveryTarget)
    → Instant
    → View
    → View
    → Result Stored
insert_message id envelope targets clock first second =
    insert_with_retry id envelope targets pending_now no_caps clock first second

unfoldable pub insert_scheduled_message :
    ⦃columns : Columns⦄
    → Text
    → Envelope
    → List (ℤ × DeliveryTarget)
    → ScheduledCaps
    → Instant
    → View
    → View
    → Result Stored
insert_scheduled_message id envelope targets caps clock first second = elim envelope.deliver_at [
  | none ↦ err (invalid (codes "insert scheduled message: deliver_at must be set"))
  | some deliver_at ↦
      if ltb_ℤ caps.per_app (pos 1)
      then err (invalid (codes "insert scheduled message: max scheduled per app must be positive"))
      else if ltb_ℤ caps.total (pos 1)
      then err (invalid (codes "insert scheduled message: max scheduled total must be positive"))
      else insert_with_retry id envelope targets (scheduled_at deliver_at) caps clock first second
]

pub record HeldCaps : Type 0 where
  pub per_app : ℤ
  pub total : ℤ

within_held_caps : HeldCaps → Table → StoredMessage → Result Stored
within_held_caps caps table stored =
    if over (count_held_for_app stored.envelope.app_id (stored ∷ table)) caps.per_app
    then err too_many_held
    else if over (count_held_total (stored ∷ table)) caps.total
    then err held_capacity_reached
    else ok (stored ∷ table, stored, false)

unfoldable pub insert_held_once :
    ⦃columns : Columns⦄
    → Text
    → Envelope
    → HeldCaps
    → Instant
    → Instant
    → Bool
    → Table
    → Result Stored
unfolding within_held_caps existing_or_gone
insert_held_once id envelope caps now clock gone table =
    elim (find_by_key envelope.app_id envelope.idempotency_key table) [
      | some existing ↦ existing_or_gone gone table existing
      | none ↦ within_held_caps caps table (new_message id envelope (some now) [] clock)
    ]

held_again : Result Stored → Result Stored
held_again (err message_not_found) =
    err (invalid (codes "insert held message: conflicting message deleted during every attempt"))
held_again r = r

unfoldable pub insert_held_message :
    ⦃columns : Columns⦄
    → Text
    → Envelope
    → HeldCaps
    → Instant
    → Instant
    → View
    → View
    → Result Stored
unfolding held_again
insert_held_message id envelope caps now clock (table, gone) (table', gone') =
    if ltb_ℤ caps.per_app (pos 1)
    then err (invalid (codes "insert held message: max held per app must be positive"))
    else if ltb_ℤ caps.total (pos 1)
    then err (invalid (codes "insert held message: max held total must be positive"))
    else if is_zero now
    then err (invalid (codes "insert held message: now must be set"))
    else elim (insert_held_once id envelope caps now clock gone table) [
      | ok stored ↦ ok stored
      | err e ↦ elim e [
        | message_not_found ↦ held_again (insert_held_once id envelope caps now clock gone' table')
        | other ↦ err other
      ]
    ]
