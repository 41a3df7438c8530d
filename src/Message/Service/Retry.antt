-- ===== src/Message/Service/Retry.antt =====
-- A retry: the submit of an envelope that is stored already.
use irl_notifs.Base.{ℤ, Text, ◌≡◌, Bool, true, false, Option, some, arith}
use irl_notifs.Heartbeat.Validate.{valid}
use irl_notifs.Message.Columns.{Columns, kept_envelope}
use irl_notifs.Message.Types.{Envelope, StoredMessage}
use irl_notifs.Message.Equality.{JsonValue, same_payload, same_content}
use irl_notifs.Message.Equality.Laws.{has_unique_keys, IsFaithful, stored_envelope_same}
use irl_notifs.Message.Table.{Table, find_by_key}
use irl_notifs.Message.Targets.{yields, Service, Library}
use irl_notifs.Message.Validate.{validate_envelope}
use irl_notifs.Message.Service.{
  Accepted, Views, Given, is_scheduled_message, new_submit_outcome, submit_existing, hash_recipient,
  submit_valid, submit,
}

hash_recipient-key :
    (library : Library) (service : Service) (envelope : Envelope)
    → ((hash_recipient library service envelope).app_id ≡ envelope.app_id)
      × ((hash_recipient library service envelope).idempotency_key ≡ envelope.idempotency_key)
      × ((hash_recipient library service envelope).payload ≡ envelope.payload)
unfolding hash_recipient
hash_recipient-key library service envelope = ground arith

abbrev pub duplicate_of : Table → StoredMessage → Accepted
duplicate_of table existing = record {
  stored = existing;
  outcome = record {
    duplicate = true;
    replaced = false;
    scheduled = is_scheduled_message existing;
    held = false;
  };
  after = table;
  woken = false;
}

kept-same :
    {Rational : Type 0} (set_string : Text → Option Rational) (cmp : Rational → Rational → ℤ)
    (decode : Text → Option JsonValue) (columns : Columns) (payload_eq : Text → Text → Bool)
    (stored envelope : Envelope) (v : JsonValue)
    → IsFaithful set_string cmp decode columns
    → payload_eq ≡ same_payload set_string cmp decode
    → stored ≡ kept_envelope columns envelope
    → decode envelope.payload ≡ some v
    → has_unique_keys v ≡ true
    → same_content payload_eq stored envelope ≡ true
kept-same set_string cmp decode columns payload_eq stored envelope v laws payloads kept decoded
      unique =
    rw (payloads, kept)
      (stored_envelope_same set_string cmp decode columns envelope v laws decoded unique)

pub retry_is_duplicate :
    ⦃columns : Columns⦄ {Rational : Type 0} (set_string : Text → Option Rational)
    (cmp : Rational → Rational → ℤ) (decode : Text → Option JsonValue) (library : Library)
    (service : Service) (envelope : Envelope) (existing : StoredMessage) (v : JsonValue)
    (given : Given) (views : Views)
    → IsFaithful set_string cmp decode columns
    → library.payload_eq ≡ same_payload set_string cmp decode
    → validate_envelope library.tests envelope ≡ valid
    → find_by_key envelope.app_id envelope.idempotency_key views.at_lookup ≡ some existing
    → existing.envelope ≡ kept_envelope columns (hash_recipient library service envelope)
    → decode envelope.payload ≡ some v
    → has_unique_keys v ≡ true
    → submit library service envelope given views ≡ yields (duplicate_of views.at_lookup existing)
unfolding submit submit_valid submit_existing new_submit_outcome
retry_is_duplicate ⦃columns⦄ set_string cmp decode library service envelope existing v given views
      laws payloads accepted found stored decoded unique =
    ground (arith, accepted, found, hash_recipient-key library service envelope, same)
  where
    decoded_again : decode (hash_recipient library service envelope).payload ≡ some v
    decoded_again = rw (hash_recipient-key library service envelope).2 decoded

    same :
        same_content library.payload_eq existing.envelope (hash_recipient library service envelope)
        ≡ true
    same =
        kept-same set_string cmp decode columns library.payload_eq existing.envelope
          (hash_recipient library service envelope) v laws payloads stored decoded_again unique
