-- ===== src/Message/Types.antt =====
-- message/types.go. A Go string that holds one of a set of constants is a data type of those
-- constants, whose last constructor is any other string.
use irl_notifs.Base.{ℤ, Text, Bool, Option, List}
use irl_notifs.Base.Time.{Instant}

pub data DeliveryState : Type 0 where
  state_pending state_delivered state_dead state_scheduled state_cancelled : DeliveryState
  state_other : Text → DeliveryState

pub data Status : Type 0 where
  status_pending status_delivered status_dead status_partial status_scheduled : Status
  status_cancelled status_unrouted status_release_failed status_not_found status_empty : Status

pub data DeadReason : Type 0 where
  dead_reason_terminal_status dead_reason_gone dead_reason_budget_exhausted : DeadReason
  dead_reason_destination_disabled dead_reason_destination_deleted : DeadReason
  dead_reason_blocked_address dead_reason_unsupported_type dead_reason_no_publisher : DeadReason
  dead_reason_other : Text → DeadReason

pub data Outcome : Type 0 where
  outcome_success outcome_retryable outcome_terminal outcome_gone outcome_blocked : Outcome
  outcome_other : Text → Outcome

pub record Display : Type 0 where
  pub title : Text
  pub body : Text
  pub url : Text
  pub priority : Text

pub record Envelope : Type 0 where
  pub app_id : Text
  pub channel : Text
  pub idempotency_key : Text
  pub to_destination : Text
  pub to_recipient : Text
  pub deliver_at : Option Instant
  pub critical : Bool
  pub payload : Text
  pub display : Option Display
  pub hold : Bool

pub record DeliveryTarget : Type 0 where
  pub destination_id : Option ℤ
  pub destination_name : Text
  pub destination_type : Text

pub record Delivery : Type 0 where
  pub id : ℤ
  pub message_id : Text
  pub destination_id : Option ℤ
  pub destination_name : Text
  pub destination_type : Text
  pub state : DeliveryState
  pub dead_reason : Option DeadReason
  pub attempt_count : ℤ
  pub budget_attempts : ℤ
  pub budget_started_at : Instant
  pub next_attempt_at : Instant
  pub last_status_code : Option ℤ
  pub delivered_at : Option Instant
  pub created_at : Instant
  pub updated_at : Instant

pub record StoredMessage : Type 0 where
  pub id : Text
  pub envelope : Envelope
  pub created_at : Instant
  pub cancelled_at : Option Instant
  pub held_at : Option Instant
  pub released_at : Option Instant
  pub held_cancelled_at : Option Instant
  pub release_failed_at : Option Instant
  pub release_failed_reason : Text
  pub deliveries : List Delivery

pub record MessageState : Type 0 where
  pub held_at : Option Instant
  pub cancelled_at : Option Instant
  pub release_failed_at : Option Instant

-- The method State of StoredMessage.
abbrev pub message_state : StoredMessage → MessageState
message_state stored = record {
  held_at = stored.held_at;
  cancelled_at = stored.cancelled_at;
  release_failed_at = stored.release_failed_at;
}

pub record Claim : Type 0 where
  pub delivery : Delivery
  pub message : StoredMessage

pub record AttemptRecord : Type 0 where
  pub delivery_id : ℤ
  pub outcome : Outcome
  pub status_code : Option ℤ
  pub latency_ms : ℤ
  pub error : Option Text
  pub response_snippet : Option Text
  pub started_at : Instant

pub record AttemptResult : Type 0 where
  pub attempt : AttemptRecord
  pub next_state : DeliveryState
  pub dead_reason : Option DeadReason
  pub next_attempt_at : Instant
