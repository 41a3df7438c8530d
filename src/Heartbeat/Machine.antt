-- ===== src/Heartbeat/Machine.antt =====
-- heartbeat/machine.go. A function that returns an updated copy of the check returns the new record;
-- copying a pointer or a slice (cloneProbe and its helpers) is the identity on values.
pub mod Accepts
pub mod Probe
pub mod History
pub mod Outbox
pub mod Threshold
pub mod Schedule
use irl_notifs.Base.{
  ℤ, pos, ltb_ℤ, ◌+ℤ◌, wrap64, inc64, Text, Bool, true, false, ◌&&◌, ◌||◌, not, Option, none, some,
  List, [], ◌∷◌, if◌then◌else◌, or_else,
}
use irl_notifs.Base.Time.{Instant, add, after, before, seconds}
use irl_notifs.Heartbeat.Types.{
  CheckState, state_new, state_up, state_down, state_late, state_unknown, PingKind, ping_success,
  ping_fail, ping_unknown, Reason, reason_missed, reason_fail, reason_unknown, AlertKind,
  alert_down, alert_recovered, alert_unknown, is_probe_result_reason, state_eq, ProbeConfig,
  ProbeResultRecord, ProbeState, ProbeResult, StoredCheck,
}

unfoldable pub deadline : StoredCheck → Instant
deadline check =
    add check.anchor_at (seconds (wrap64 (check.period_seconds +ℤ check.grace_seconds)))

-- The instant after which an up push check reads as late.
late_after : StoredCheck → Instant
late_after check = add check.anchor_at (seconds check.period_seconds)

unfoldable pub derived_state : StoredCheck → Instant → CheckState
unfolding late_after
derived_state check now = elim check.probe [
  | some _ ↦ check.state
  | none ↦
      if state_eq check.state state_up && after now (late_after check)
      then state_late
      else check.state
]

unfoldable pub active_down_since : StoredCheck → Option Instant
active_down_since check = if not (state_eq check.state state_down) then none else check.down_since

emit_alert : StoredCheck → AlertKind → StoredCheck
emit_alert check kind = record check {
  alert_seq = inc64 check.alert_seq;
  pending_alert = some kind;
}

-- The switch on the ping kind and the state; `none` is its `return check, false`.
ping_transition : PingKind → CheckState → StoredCheck → Instant → Option StoredCheck
ping_transition ping_success state_new check now = some (record check { state = state_up })
ping_transition ping_success state_up check now = some check
ping_transition ping_success state_down check now =
    some (record check { state = state_up; down_reason = none })
ping_transition ping_fail state_new check now =
    some
      (record check { state = state_down; down_since = some now; down_reason = some reason_fail })
ping_transition ping_fail state_up check now =
    some
      (record check { state = state_down; down_since = some now; down_reason = some reason_fail })
ping_transition ping_fail state_down check now = some check
ping_transition _ _ check now = none

-- From the ping bookkeeping on: what the change of state announces.
ping_settle : StoredCheck → StoredCheck → PingKind → Instant → StoredCheck × Bool
unfolding emit_alert
ping_settle check moved kind now =
    let next = record moved {
      last_ping_at = some now;
      last_ping_kind = some kind;
      anchor_at = now;
    } in
    if state_eq next.state check.state
    then (next, false)
    else if check.paused
    then (record next { pending_alert = none }, false)
    else if state_eq next.state state_down
    then (emit_alert next alert_down, true)
    else if state_eq check.state state_down
    then (emit_alert next alert_recovered, true)
    else (next, false)

unfoldable pub apply_ping : StoredCheck → PingKind → Instant → StoredCheck × Bool
unfolding ping_transition ping_settle
apply_ping check kind now = elim check.probe [
  | some _ ↦ (check, false)
  | none ↦ elim (ping_transition kind check.state check now) [
    | none ↦ (check, false)
    | some moved ↦ ping_settle check moved kind now
  ]
]

clear_down_detail : Option ProbeState → Option ProbeState
clear_down_detail none = none
clear_down_detail (some probe) = some (record probe { down_detail = none })

unfoldable pub advance_tick : StoredCheck → Instant → StoredCheck × Bool
unfolding clear_down_detail emit_alert
advance_tick check now =
    if check.paused || not (state_eq check.state state_new || state_eq check.state state_up)
    then (check, false)
    else if not (after now (deadline check))
    then (check, false)
    else (
      emit_alert
          (record check {
            state = state_down;
            down_since = some now;
            down_reason = some reason_missed;
            probe = clear_down_detail check.probe;
          })
          alert_down,
      true,
    )

bump_version : Option ProbeState → Option ProbeState
bump_version none = none
bump_version (some probe) = some (record probe { config_version = inc64 probe.config_version })

unfoldable pub apply_pause : StoredCheck → StoredCheck
unfolding bump_version
apply_pause check = record check {
  probe = if check.paused then check.probe else bump_version check.probe;
  paused = true;
  pending_alert = none;
}

unfoldable pub apply_probe_reset : StoredCheck → Instant → StoredCheck
apply_probe_reset check now = elim check.probe [
  | none ↦ check
  | some probe ↦ record check {
    probe = some (record probe {
      consecutive_failures = pos 0;
      last_result = none;
      config_version = inc64 probe.config_version;
      next_probe_at = add now (seconds probe.config.interval_seconds);
    });
    anchor_at = now;
  }
]

unfoldable pub apply_resume : StoredCheck → Instant → StoredCheck
unfolding apply_probe_reset
apply_resume check now =
    if not check.paused
    then check
    else apply_probe_reset (record check { paused = false; anchor_at = now }) now

pub storable_probe_status : Option ℤ → Option ℤ
storable_probe_status none = none
storable_probe_status (some status) =
    if ltb_ℤ status (pos 100) || ltb_ℤ (pos 599) status then none else some status

-- The empty string is stored as no detail.
pub non_empty : Text → Option Text
non_empty [] = none
non_empty (b ∷ bs) = some (b ∷ bs)

is_missed : Option Reason → Bool
is_missed (some reason_missed) = true
is_missed _ = false

abbrev pub probe_failure_threshold : ℤ
probe_failure_threshold = pos 3

-- A result that has been taken: the anchor and the last result are recorded whatever it says.
probe_recorded : StoredCheck → ProbeState → ProbeResult → Option Text → Instant → StoredCheck
unfolding storable_probe_status
probe_recorded check probe result detail now = record check {
  anchor_at = now;
  probe = some (record probe {
    last_result = some (record {
      at = now;
      status = storable_probe_status result.status;
      reason = result.reason;
      detail = detail;
    });
  });
}

-- The branch `if success`.
pub probe_succeeded : StoredCheck → ProbeState → Instant → StoredCheck × Bool × Bool
unfolding emit_alert
probe_succeeded next probe now =
    let cleared = record probe { consecutive_failures = pos 0 } in
    let pinged = record next { last_ping_at = some now; last_ping_kind = some ping_success } in
    if state_eq next.state state_down
    then (
      emit_alert
          (record pinged {
            state = state_up;
            down_reason = none;
            probe = some (record cleared { down_detail = none });
          })
          alert_recovered,
      true,
      true,
    )
    else (record pinged { state = state_up; probe = some cleared }, true, false)

-- The failing branch, from `next.Probe.ConsecutiveFailures++` on.
pub probe_failed :
    StoredCheck → ProbeState → Reason → Option Text → Instant → Instant → StoredCheck × Bool × Bool
unfolding emit_alert is_missed
probe_failed next probe reason detail now hold_off_until =
    let counted = record probe { consecutive_failures = inc64 probe.consecutive_failures } in
    let blamed = some (record counted { down_detail = detail }) in
    if state_eq next.state state_down
    then if is_missed next.down_reason
      then (record next { down_reason = some reason; probe = blamed }, true, false)
      else (record next { probe = some counted }, true, false)
    else if ltb_ℤ counted.consecutive_failures probe_failure_threshold || before now hold_off_until
    then (record next { probe = some counted }, true, false)
    else (
      emit_alert
          (record next {
            state = state_down;
            down_since = some now;
            down_reason = some reason;
            probe = blamed;
          })
          alert_down,
      true,
      true,
    )

-- The result of ApplyProbeResult from `var detail` on, for a reason that is a probe reason.
pub probe_outcome :
    StoredCheck
    → ProbeState
    → ProbeResult
    → Option Text
    → Instant
    → Instant
    → StoredCheck × Bool × Bool
unfolding probe_recorded probe_succeeded probe_failed
probe_outcome check probe result detail now hold_off_until =
    let next = probe_recorded check probe result detail now in
    let taken = or_else next.probe probe in
    elim result.reason [
      | none ↦ probe_succeeded next taken now
      | some reason ↦ probe_failed next taken reason detail now hold_off_until
    ]

unfoldable pub is_unknown_reason : Option Reason → Bool
is_unknown_reason none = false
is_unknown_reason (some reason) = not (is_probe_result_reason reason)

unfoldable pub known_state : CheckState → Bool
known_state state = state_eq state state_new || state_eq state state_up || state_eq state state_down

-- SanitizeProbeDetail (regular expressions, Unicode classes) is the parameter.
unfoldable pub apply_probe_result :
    (Text → Text) → StoredCheck → ProbeResult → Instant → Instant → StoredCheck × Bool × Bool
unfolding probe_outcome is_unknown_reason known_state non_empty
apply_probe_result sanitize_probe_detail check result now hold_off_until = elim check.probe [
  | none ↦ (check, false, false)
  | some probe ↦
      if check.paused
      then (check, false, false)
      else if not (known_state check.state)
      then (check, false, false)
      else if is_unknown_reason result.reason
      then (check, false, false)
      else probe_outcome check probe result (non_empty (sanitize_probe_detail result.detail)) now
          hold_off_until
]
