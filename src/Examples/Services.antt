-- ===== src/Examples/Services.antt =====
-- The message service at concrete submits: a new one, and its retry.
use irl_notifs.Base.{
  ◌≤◌, ℤ, pos, ◌-ℤ◌, Text, codes, text_eq, text_eq_refl, ◌≡◌, refl, ap, true, false, ◌&&◌, not,
  Option, none, some, [], ◌∷◌, count_if, arith,
}
use irl_notifs.Heartbeat.Validate.{valid, is_slug}
use irl_notifs.Message.Columns.{kept_envelope}
use irl_notifs.Message.Types.{status_pending}
use irl_notifs.Message.Status.{derive_status}
use irl_notifs.Message.Equality.{JsonValue, json_object, no_members, same_json_number, same_payload}
use irl_notifs.Message.Equality.Laws.{has_unique_keys, rewritten, IsFaithful}
use irl_notifs.Message.Lifecycle.{
  CancelOutcome, no_targets, insert_deliveries, is_scheduled_status, is_cancelled_status, cancel,
  cancel_locked,
}
use irl_notifs.Message.Table.{
  Table, has_key, of_app, find_by_key, insert_message, insert_with_retry, insert_once,
  within_scheduled_caps,
}
use irl_notifs.Message.Targets.{yields, Service, Directory, Library, resolve_targets, targets_of}
use irl_notifs.Message.Validate.{
  TextTests, is_channel, is_idempotency_key, validate_to, validate_deliver_at, validate_payload,
  validate_display, validate_envelope,
}
use irl_notifs.Message.Validate.Payload.{unicode_escapes_storable, number_literals_storable}
use irl_notifs.Message.Service.{
  Accepted, Views, Given, submit, submit_valid, submit_new, submit_targets, with_ids, is_future,
  new_submit_outcome, hash_recipient,
}
use irl_notifs.Message.Service.Replies.{IsLeft, submit_reply}
use irl_notifs.Message.Service.Laws.{submit-find_by_key}
use irl_notifs.Message.Service.Retry.{duplicate_of, retry_is_duplicate}
use irl_notifs.Message.Service.Reads.{
  has_id, is_uuid, get, cancel_where, cancel_message, finish_cancel, cancel_by_id,
}
use irl_notifs.Message.Service.Reads.Isolation.{own, others, get-own, cancel_by_id-others}
use irl_notifs.Registry.Types.{resolved}
use irl_notifs.Examples.Tables.{spaced, report, pending_report, held_two}

abbrev plain_tests : TextTests
plain_tests = record {
  utf8_valid = λ text. true;
  json_valid = λ text. true;
  trim_space = λ text. text;
  to_lower = λ text. text;
  runes = λ text. text;
  is_control = λ c. false;
  is_space = λ c. false;
  parse_url = λ text. none;
}

-- Every document is the empty object.
abbrev to_object : Text → Option JsonValue
to_object text = some (json_object no_members)

abbrev no_rational : Text → Option ℤ
no_rational text = none

abbrev plain_library : Library
plain_library = record {
  tests = plain_tests;
  hash = λ text. text;
  payload_eq = same_payload no_rational (λ a b. a -ℤ b) to_object;
}

abbrev webhooks_only : Service
webhooks_only = record {
  supported_types = text_eq (codes "webhook");
  has_publishers = false;
  max_scheduled = pos 10;
  max_total = pos 20;
  hold_unrouted = false;
  held_caps = held_two;
}

abbrev ops_directory : Directory
ops_directory = record {
  resolve = λ app_id name channel. resolved (
      record { id = pos 3; name = codes "ops"; type = codes "webhook"; config = []; secrets = [] }
      ∷ []);
  has_publisher = λ app_id. yields false;
}

abbrev views_of : Table → Views
views_of table = record {
  at_lookup = table;
  at_replace = table;
  at_second_lookup = table;
  at_insert = (table, false);
  at_insert_again = (table, false);
  directory_at_replace = ops_directory;
  directory_at_insert = ops_directory;
}

abbrev given_m1 : Given
given_m1 = record { id = codes "m1"; delivery_id = λ n. pos 7; now = pos 100; clock = pos 100 }

abbrev first_reply : Accepted
first_reply = record {
  stored = pending_report;
  outcome = record { duplicate = false; replaced = false; scheduled = false; held = false };
  after = pending_report ∷ [];
  woken = true;
}

first_submit : submit plain_library webhooks_only report given_m1 (views_of []) ≡ yields first_reply
unfolding submit submit_valid submit_new resolve_targets targets_of submit_targets with_ids
    insert_message insert_with_retry insert_once within_scheduled_caps find_by_key no_targets
    insert_deliveries hash_recipient validate_envelope is_future new_submit_outcome is_slug
    is_channel is_idempotency_key validate_to validate_deliver_at validate_payload
    unicode_escapes_storable number_literals_storable validate_display text_eq is_scheduled_status
    derive_status
first_submit = refl

submit_reply_example :
    IsLeft (views_of []) first_reply
    × (first_reply.woken ≡ (
        not first_reply.outcome.duplicate
        && not first_reply.outcome.held
        && not first_reply.outcome.scheduled))
    × (first_reply.outcome.duplicate && first_reply.outcome.replaced ≡ false)
    × (first_reply.outcome.duplicate && first_reply.outcome.held ≡ false)
submit_reply_example =
    submit_reply plain_library webhooks_only report given_m1 (views_of []) first_reply first_submit

submit-find_by_key_example :
    find_by_key (codes "app") (codes "k1") (pending_report ∷ []) ≡ some pending_report
submit-find_by_key_example =
    submit-find_by_key plain_library webhooks_only report given_m1 (views_of []) first_reply
      first_submit

valid_report : validate_envelope plain_tests report ≡ valid
unfolding validate_envelope is_slug is_channel is_idempotency_key validate_to validate_deliver_at
    validate_payload unicode_escapes_storable number_literals_storable validate_display text_eq
valid_report = refl

found_report : find_by_key (codes "app") (codes "k1") (pending_report ∷ []) ≡ some pending_report
unfolding find_by_key has_key text_eq
found_report = refl

stored_report :
    pending_report.envelope
    ≡ kept_envelope spaced (hash_recipient plain_library webhooks_only report)
unfolding hash_recipient
stored_report = refl

empty_object : has_unique_keys (json_object no_members) ≡ true
unfolding has_unique_keys
empty_object = refl

abbrev map_rewritten : Option JsonValue → Option JsonValue
map_rewritten none = none
map_rewritten (some v) = some (rewritten (λ s. s) (λ k l. false) v)

number_same : (s : Text) → same_json_number no_rational (λ a b. a -ℤ b) s s ≡ true
unfolding same_json_number
number_same s = ground (arith, text_eq_refl s)

empty_rewritten :
    (text : Text) (v : JsonValue)
    → to_object text ≡ some v
    → to_object (spaced.payload text) ≡ some (rewritten (λ s. s) (λ k l. false) v)
unfolding rewritten
empty_rewritten text v e = ap map_rewritten e

spaced-IsFaithful : IsFaithful no_rational (λ a b. a -ℤ b) to_object spaced
spaced-IsFaithful = record {
  respell = λ s. s;
  earlier = λ k l. false;
  same_literal = number_same;
  document = empty_rewritten;
  instant_kept = λ t. refl;
}

retry_is_duplicate_example :
    submit plain_library webhooks_only report given_m1 (views_of (pending_report ∷ []))
    ≡ yields (duplicate_of (pending_report ∷ []) pending_report)
retry_is_duplicate_example =
    retry_is_duplicate no_rational (λ a b. a -ℤ b) to_object plain_library webhooks_only report
      pending_report (json_object no_members) given_m1 (views_of (pending_report ∷ []))
      spaced-IsFaithful refl valid_report found_report stored_report refl empty_object

abbrev uuid_text : Text
uuid_text = codes "00000000-0000-0000-0000-0000000000a1"

abbrev two_apps : Table
two_apps =
    record pending_report { id = uuid_text }
    ∷ record pending_report { envelope = record report { app_id = codes "other" } }
    ∷ []

one_of_id : count_if (has_id uuid_text) two_apps ≤ 1
unfolding text_eq
one_of_id = omega arith

get-own_example :
    get (codes "other") uuid_text two_apps
    ≡ get (codes "other") uuid_text (own (codes "other") two_apps)
get-own_example = get-own (codes "other") uuid_text two_apps one_of_id

abbrev not_cancelled : CancelOutcome
not_cancelled = record {
  message_id = uuid_text;
  status = some status_pending;
  cancelled = false;
  transitioned = false;
  found = true;
}

own_cancel :
    cancel_by_id (codes "app") uuid_text (pos 300) two_apps ≡ yields (two_apps, not_cancelled)
unfolding cancel_by_id is_slug is_uuid finish_cancel cancel_message cancel_where text_eq of_app
    cancel cancel_locked is_scheduled_status derive_status insert_deliveries is_cancelled_status
own_cancel = refl

cancel_by_id-others_example : others (codes "app") two_apps ≡ others (codes "app") two_apps
cancel_by_id-others_example =
    cancel_by_id-others (codes "app") uuid_text (pos 300) two_apps two_apps not_cancelled one_of_id
      own_cancel
