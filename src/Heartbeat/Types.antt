-- ===== src/Heartbeat/Types.antt =====
-- heartbeat/types.go: the stored check and its probe. A Go string that holds one of a set of
-- constants is a data type of those constants, whose last constructor is any other string.
use irl_notifs.Base.{ℤ, Text, Bool, true, false, Option, none, some, List, text_eq}
use irl_notifs.Base.Time.{Instant}

pub data CheckState : Type 0 where
  state_new state_up state_down state_late : CheckState
  state_unknown : Text → CheckState

pub data PingKind : Type 0 where
  ping_success ping_fail : PingKind
  ping_unknown : Text → PingKind

pub data Reason : Type 0 where
  reason_missed reason_fail reason_http_status reason_timeout reason_body_mismatch : Reason
  reason_blocked reason_tls reason_scheme reason_network reason_config : Reason
  reason_unknown : Text → Reason

pub data AlertKind : Type 0 where
  alert_down alert_recovered : AlertKind
  alert_unknown : Text → AlertKind

pub data CheckKind : Type 0 where
  kind_push kind_probe : CheckKind

abbrev pub is_probe_result_reason : Reason → Bool
is_probe_result_reason reason_missed = false
is_probe_result_reason reason_fail = false
is_probe_result_reason (reason_unknown _) = false
is_probe_result_reason _ = true

abbrev pub is_known_down_reason : Reason → Bool
is_known_down_reason (reason_unknown _) = false
is_known_down_reason _ = true

-- `==` on the strings of CheckState.
abbrev pub state_eq : CheckState → CheckState → Bool
state_eq state_new state_new = true
state_eq state_up state_up = true
state_eq state_down state_down = true
state_eq state_late state_late = true
state_eq (state_unknown s) (state_unknown t) = text_eq s t
state_eq _ _ = false

pub record DestinationRef : Type 0 where
  pub name : Text
  pub type : Text
  pub enabled : Bool

pub record ProbeConfig : Type 0 where
  pub url : Text
  pub expected_statuses : List ℤ
  pub body_match : Option Text
  pub timeout_seconds : ℤ
  pub interval_seconds : ℤ

pub record ProbeResultRecord : Type 0 where
  pub at : Instant
  pub status : Option ℤ
  pub reason : Option Reason
  pub detail : Option Text

pub record ProbeState : Type 0 where
  pub config : ProbeConfig
  pub has_access_token : Bool
  pub sealed_access_token : Option Text
  pub consecutive_failures : ℤ
  pub next_probe_at : Instant
  pub config_version : ℤ
  pub last_result : Option ProbeResultRecord
  pub down_detail : Option Text

pub record ProbeResult : Type 0 where
  pub status : Option ℤ
  pub reason : Option Reason
  pub detail : Text

pub record StoredCheck : Type 0 where
  pub id : ℤ
  pub app_id : Text
  pub name : Text
  pub period_seconds : ℤ
  pub grace_seconds : ℤ
  pub state : CheckState
  pub paused : Bool
  pub anchor_at : Instant
  pub last_ping_at : Option Instant
  pub last_ping_kind : Option PingKind
  pub down_since : Option Instant
  pub down_reason : Option Reason
  pub alert_seq : ℤ
  pub pending_alert : Option AlertKind
  pub destinations : List DestinationRef
  pub owner_kind : Text
  pub owner_app_id : Option Text
  pub created_at : Instant
  pub updated_at : Instant
  pub probe : Option ProbeState

abbrev pub kind : StoredCheck → CheckKind
kind check = elim check.probe [ none ↦ kind_push | some _ ↦ kind_probe ]
