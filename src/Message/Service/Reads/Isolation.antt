-- ===== src/Message/Service/Reads/Isolation.antt =====
-- An app reads and cancels its own messages only.
use irl_notifs.Base.{
  ◌≤◌, Text, text_eq_iff, ◌≡◌, refl, ap, inl, inr, Bool, true, ◌&&◌, not, Option, none, some, [],
  ◌∷◌, keep_if, count_if, count_if-le, arith, Bool-cases, Option-cases, if◌then◌else◌,
}
use irl_notifs.Base.Time.{Instant}
use irl_notifs.Heartbeat.Validate.{valid, err}
use irl_notifs.Message.Types.{StoredMessage}
use irl_notifs.Message.Attempts.{Result, Result-cases, ok}
use irl_notifs.Message.Lifecycle.{CancelOutcome, cancel}
use irl_notifs.Message.Lifecycle.Keeps.{cancel-same_app}
use irl_notifs.Message.Table.{Table, of_app}
use irl_notifs.Message.Table.Events.{on_message}
use irl_notifs.Message.Targets.{rejected, yields, refuses}
use irl_notifs.Message.Validate.{validate_app_id}
use irl_notifs.Message.Service.Reads.{
  find_first, has_id, or_not_found, own_only, is_uuid, get_message, get, cancel_where,
  cancel_message, finish_cancel, cancel_by_id,
}

abbrev pub own : Text → Table → Table
own app_id = keep_if (of_app app_id)

find_first-own :
    (test : StoredMessage → Bool) (app_id : Text) (table : Table)
    → ((m : StoredMessage) → test m ≡ true → of_app app_id m ≡ true)
    → find_first test (own app_id table) ≡ find_first test table
find_first-own test app_id [] h = refl
find_first-own test app_id (m ∷ table) h = ground (arith, h m, find_first-own test app_id table h)

find_first-absent :
    (test : StoredMessage → Bool) (app_id : Text) (table : Table)
    → count_if test table ≤ 0
    → find_first test (own app_id table) ≡ none
find_first-absent test app_id [] h = refl
find_first-absent test app_id (m ∷ table) h = ground (arith, h, find_first-absent test app_id table)

-- A row with the id, where the id stands once.
find_id-own :
    (id app_id : Text) (table : Table)
    → count_if (has_id id) table ≤ 1
    → elim (find_first (has_id id) table) [
      | none ↦ none
      | some m ↦ if of_app app_id m then some m else none
    ]
      ≡ find_first (has_id id) (own app_id table)
find_id-own id app_id [] once = refl
find_id-own id app_id (m ∷ table) once =
    ground (arith, once, find_first-absent (has_id id) app_id table, find_id-own id app_id table)

own_only-same :
    (app_id : Text) (o p : Option StoredMessage)
    → elim o [ none ↦ none | some m ↦ if of_app app_id m then some m else none ] ≡ p
    → own_only app_id (or_not_found o) ≡ own_only app_id (or_not_found p)
own_only-same app_id none none h = refl
own_only-same app_id none (some m) h = ground (arith, h)
own_only-same app_id (some m) none h = ground (arith, h)
own_only-same app_id (some m) (some n) h = elim (Bool-cases (of_app app_id m)) [
  | inl e ↦ ground (arith, e, h)
  | inr e ↦ ground (arith, e, h)
]

get_message-own :
    (app_id id : Text) (table : Table)
    → count_if (has_id id) table ≤ 1
    → own_only app_id (get_message id table) ≡ own_only app_id (get_message id (own app_id table))
unfolding get_message
get_message-own app_id id table once = elim (Bool-cases (is_uuid id)) [
  | inl e ↦
      rw (e, get_message)
        (own_only-same app_id (find_first (has_id id) table)
          (find_first (has_id id) (own app_id table)) (find_id-own id app_id table once))
  | inr e ↦ rw (e, get_message) refl
]

-- Where ids are unique, what an app gets by an id depends on its own messages only.
pub get-own :
    (app_id id : Text) (table : Table)
    → count_if (has_id id) table ≤ 1
    → get app_id id table ≡ get app_id id (own app_id table)
unfolding get
get-own app_id id table once =
    ap
      (λ answer. elim (validate_app_id app_id) [
        | err text ↦ refuses (rejected text)
        | valid ↦ answer
      ])
      (get_message-own app_id id table once)

on_message-absent :
    (id : Text) (next : StoredMessage) (table : Table)
    → count_if (has_id id) table ≤ 0
    → on_message id (λ m. next) table ≡ table
on_message-absent id next [] h = refl
on_message-absent id next (m ∷ table) h = ground (arith, h, on_message-absent id next table)

abbrev pub others : Text → Table → Table
others app_id = keep_if (λ m. not (of_app app_id m))

find_first-some :
    (test : StoredMessage → Bool) (stored : StoredMessage) (table : Table)
    → find_first test table ≡ some stored
    → (1 ≤ count_if test table) × (test stored ≡ true)
find_first-some test stored [] e = ground (arith, e)
find_first-some test stored (m ∷ table) e = elim (Bool-cases (test m)) [
  | inl h ↦ ground (arith, h, e)
  | inr h ↦ ground (arith, h, e, find_first-some test stored table)
]

-- Writing a row of the app leaves the others.
others-on_message :
    (app_id id : Text) (next : StoredMessage) (table : Table)
    → count_if (has_id id) table ≤ 1
    → 1 ≤ count_if (λ m. has_id id m && of_app app_id m) table
    → of_app app_id next ≡ true
    → others app_id (on_message id (λ m. next) table) ≡ others app_id table
others-on_message app_id id next [] once there h = refl
others-on_message app_id id next (m ∷ table) once there h = elim (Bool-cases (has_id id m)) [
  | inl e ↦ ground (
    arith,
    e,
    once,
    there,
    h,
    on_message-absent id next table,
    count_if-le (λ r. has_id id r && of_app app_id r) (has_id id) table (λ r. ground arith),
  )
  | inr e ↦ ground (arith, e, once, there, h, others-on_message app_id id next table)
]

abbrev LeavesOthers : Text → Table → Result (Table × CancelOutcome) → Type 0
LeavesOthers app_id table (Result.err e) = Unit
LeavesOthers app_id table (ok (next, outcome)) = others app_id next ≡ others app_id table

cancel_own :
    (app_id id : Text) (now : Instant) (table : Table) (stored : StoredMessage)
    → count_if (has_id id) table ≤ 1
    → find_first (λ m. has_id id m && of_app app_id m) table ≡ some stored
    → LeavesOthers app_id table (cancel_where (λ m. has_id id m && of_app app_id m) now table)
unfolding cancel_where of_app
cancel_own app_id id now table stored once e = elim (Result-cases (cancel stored now)) [
  | inl (error, h) ↦ rw (e, cancel_where) rw h ground arith
  | inr ((next, outcome), h) ↦
      rw (e, cancel_where) rw h ground
        (
          arith,
          e,
          others-on_message app_id stored.id next table,
          same_id,
          there,
          kept next outcome h,
        )
]
  where
    there :
        (1 ≤ count_if (λ m. has_id id m && of_app app_id m) table)
        × ((has_id id stored && of_app app_id stored) ≡ true)
    there = find_first-some (λ m. has_id id m && of_app app_id m) stored table e

    same_id : stored.id ≡ id
    same_id = ground (arith, there, text_eq_iff stored.id id)

    kept :
        (next : StoredMessage) (outcome : CancelOutcome)
        → cancel stored now ≡ ok (next, outcome)
        → next.envelope.app_id ≡ stored.envelope.app_id
    kept next outcome h = cancel-same_app now stored next outcome h

cancel_message-LeavesOthers :
    (app_id id : Text) (now : Instant) (table : Table)
    → count_if (has_id id) table ≤ 1
    → LeavesOthers app_id table (cancel_message id app_id now table)
unfolding cancel_message cancel_where
cancel_message-LeavesOthers app_id id now table once =
    elim (Option-cases (find_first (λ m. has_id id m && of_app app_id m) table)) [
      | inl e ↦ ground (arith, e)
      | inr (stored, e) ↦ ground (arith, cancel_own app_id id now table stored once e)
    ]

finish-others :
    (app_id id : Text) (table next : Table) (outcome : CancelOutcome)
    (r : Result (Table × CancelOutcome))
    → LeavesOthers app_id table r
    → finish_cancel r id ≡ yields (next, outcome)
    → others app_id next ≡ others app_id table
unfolding finish_cancel
finish-others app_id id table next outcome (Result.err error) h e = ground (arith, e)
finish-others app_id id table next outcome (ok (left, o)) h e = ground (arith, h, e)

-- Cancelling by an id, where ids are unique, leaves the messages of the other apps as they are.
pub cancel_by_id-others :
    (app_id id : Text) (now : Instant) (table next : Table) (outcome : CancelOutcome)
    → count_if (has_id id) table ≤ 1
    → cancel_by_id app_id id now table ≡ yields (next, outcome)
    → others app_id next ≡ others app_id table
unfolding cancel_by_id
cancel_by_id-others app_id id now table next outcome once e = ground (
  arith,
  e,
  finish-others app_id id table next outcome (cancel_message id app_id now table)
      (cancel_message-LeavesOthers app_id id now table once),
)
