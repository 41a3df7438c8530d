-- ===== src/Message/Service/Reads.antt =====
-- Reading and cancelling by an app (message/service.go, GetMessage and CancelMessage of the stores), each
-- over the table that its one transaction meets.
pub mod Isolation
pub mod Await
use irl_notifs.Base.{
  ℕ, zero, suc, leb, ◌==◌, ℤ, ltb_ℤ, pos, Text, codes, text_eq, Bool, true, false, ◌&&◌, ◌||◌, not,
  Option, none, some, List, [], ◌∷◌, all, length, if◌then◌else◌,
}
use irl_notifs.Base.Sorting.{drop}
use irl_notifs.Base.Time.{Instant, is_zero}
use irl_notifs.Heartbeat.Validate.{Verdict, valid, err, ◌then_check◌}
use irl_notifs.Message.Types.{DeliveryState, state_other, status_not_found, Delivery, StoredMessage}
use irl_notifs.Message.Attempts.{
  Result, ok, StoreError, invalid, message_not_found, delivery_not_found, replay,
}
use irl_notifs.Message.Lifecycle.{CancelOutcome, cancel}
use irl_notifs.Message.Table.{Table, of_app, has_key, find_by_key}
use irl_notifs.Message.Table.Events.{on_message}
use irl_notifs.Message.Targets.{SubmitError, rejected, of_store, Answer, yields, refuses}
use irl_notifs.Message.Validate.{validate_app_id, validate_idempotency_key, is_absent}

is_hex : ℕ → Bool
is_hex c = leb 48 c && leb c 57 || leb 97 c && leb c 102 || leb 65 c && leb c 70

-- So many hexadecimal digits and a dash.
hex_group : ℕ → Text → Bool
unfolding is_hex
hex_group zero [] = false
hex_group zero (c ∷ cs) = c == 45
hex_group (suc n) [] = false
hex_group (suc n) (c ∷ cs) = is_hex c && hex_group n cs

-- canonicalUUIDPattern: 8-4-4-4-12 hexadecimal digits.
unfoldable pub is_uuid : Text → Bool
unfolding hex_group is_hex
is_uuid id =
    hex_group 8 id
    && hex_group 4 (drop 9 id)
    && hex_group 4 (drop 14 id)
    && hex_group 4 (drop 19 id)
    && all is_hex (drop 24 id)
    && length id == 36

abbrev pub has_id : Text → StoredMessage → Bool
has_id id m = text_eq m.id id

-- SELECT of one row.
abbrev pub find_first : (StoredMessage → Bool) → Table → Option StoredMessage
find_first test [] = none
find_first test (m ∷ table) = let rest = find_first test table in if test m then some m else rest

abbrev pub or_not_found : Option StoredMessage → Result StoredMessage
or_not_found none = Result.err message_not_found
or_not_found (some m) = ok m

unfoldable pub get_message : Text → Table → Result StoredMessage
unfolding is_uuid
get_message id table =
    if not (is_uuid id)
    then Result.err message_not_found
    else or_not_found (find_first (has_id id) table)

-- The message of another app reads as absent.
abbrev pub own_only : Text → Result StoredMessage → Answer StoredMessage
own_only app_id (Result.err e) = refuses (of_store e)
own_only app_id (ok m) =
    if not (of_app app_id m) then refuses (of_store message_not_found) else yields m

unfoldable pub get : Text → Text → Table → Answer StoredMessage
get app_id id table = elim (validate_app_id app_id) [
  | err text ↦ refuses (rejected text)
  | valid ↦ own_only app_id (get_message id table)
]

unfoldable pub get_by_key : Text → Text → Table → Answer StoredMessage
get_by_key app_id key table =
    elim (validate_app_id app_id then_check validate_idempotency_key key) [
      | err text ↦ refuses (rejected text)
      | valid ↦ elim (find_by_key app_id key table) [
        | none ↦ refuses (of_store message_not_found)
        | some m ↦ yields m
      ]
    ]

-- The zero CancelOutcome.
abbrev pub no_outcome : CancelOutcome
no_outcome = record {
  message_id = [];
  status = none;
  cancelled = false;
  transitioned = false;
  found = false;
}

-- cancel of the store, on the row that a test selects.
unfoldable pub cancel_where :
    (StoredMessage → Bool) → Instant → Table → Result (Table × CancelOutcome)
cancel_where test now table =
    if is_zero now
    then Result.err (invalid (codes "cancel message: now must be set"))
    else elim (find_first test table) [
      | none ↦ ok (table, no_outcome)
      | some stored ↦ elim (cancel stored now) [
        | Result.err e ↦ Result.err e
        | ok (next, outcome) ↦ ok (on_message stored.id (λ m. next) table, outcome)
      ]
    ]

unfoldable pub cancel_message : Text → Text → Instant → Table → Result (Table × CancelOutcome)
cancel_message id app_id now table =
    if not (is_uuid id) || is_absent app_id
    then ok (table, no_outcome)
    else cancel_where (λ m. has_id id m && of_app app_id m) now table

unfoldable pub admin_cancel_message : Text → Instant → Table → Result (Table × CancelOutcome)
admin_cancel_message id now table =
    if not (is_uuid id) then ok (table, no_outcome) else cancel_where (has_id id) now table

unfoldable pub cancel_message_by_key :
    Text → Text → Instant → Table → Result (Table × CancelOutcome)
cancel_message_by_key app_id key now table = cancel_where (has_key app_id key) now table

unfoldable pub not_found_outcome : Text → CancelOutcome
not_found_outcome id = record {
  message_id = id;
  status = some status_not_found;
  cancelled = false;
  transitioned = false;
  found = false;
}

unfoldable pub finish_cancel :
    Result (Table × CancelOutcome) → Text → Answer (Table × CancelOutcome)
finish_cancel (Result.err e) id = refuses (of_store e)
finish_cancel (ok (table, outcome)) id =
    if not outcome.found then yields (table, not_found_outcome id) else yields (table, outcome)

unfoldable pub cancel_by_id : Text → Text → Instant → Table → Answer (Table × CancelOutcome)
cancel_by_id app_id id now table = elim (validate_app_id app_id) [
  | err text ↦ refuses (rejected text)
  | valid ↦
      if not (is_uuid id)
      then yields (table, not_found_outcome id)
      else finish_cancel (cancel_message id app_id now table) id
]

unfoldable pub cancel_by_key : Text → Text → Instant → Table → Answer (Table × CancelOutcome)
cancel_by_key app_id key now table =
    elim (validate_app_id app_id then_check validate_idempotency_key key) [
      | err text ↦ refuses (rejected text)
      | valid ↦ finish_cancel (cancel_message_by_key app_id key now table) []
    ]

unfoldable pub admin_cancel : Text → Instant → Table → Answer (Table × CancelOutcome)
admin_cancel id now table =
    if not (is_uuid id)
    then yields (table, not_found_outcome id)
    else finish_cancel (admin_cancel_message id now table) id

abbrev pub is_delivery_state : DeliveryState → Bool
is_delivery_state (state_other text) = false
is_delivery_state _ = true

-- The checks of ListDeliveries and ListScheduled, in front of a list of the store.
abbrev pub is_list_limit : ℤ → Bool
is_list_limit limit = not (ltb_ℤ limit (pos 1) || ltb_ℤ (pos 200) limit)

unfoldable pub list_deliveries {ℓ} :
    {A : Type ℓ} → (DeliveryState → ℤ → Result (List A)) → DeliveryState → ℤ → Answer (List A)
list_deliveries store state limit =
    if not (is_delivery_state state)
    then refuses (rejected (codes "invalid state"))
    else if not (is_list_limit limit)
    then refuses (rejected (codes "invalid limit"))
    else elim (store state limit) [ Result.err e ↦ refuses (of_store e) | ok rows ↦ yields rows ]
