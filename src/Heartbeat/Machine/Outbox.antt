-- ===== src/Heartbeat/Machine/Outbox.antt =====
-- The outbox of a check (AlertSeq, PendingAlert) along its history.
use irl_notifs.Base.{
  Text, ◌≡◌, Bool, true, false, ◌&&◌, not, Option, none, some, List, [], ◌∷◌, arith, is_some, inc64,
  if◌then◌else◌,
}
use irl_notifs.Base.Time.{Instant}
use irl_notifs.Heartbeat.Types.{
  CheckState, state_new, state_up, state_down, PingKind, Reason, AlertKind, alert_down,
  alert_recovered, ProbeResult, ProbeState, StoredCheck, is_known_down_reason, ping_success,
  ping_fail, ping_unknown,
}
use irl_notifs.Heartbeat.Machine.{
  apply_ping, advance_tick, apply_pause, apply_resume, apply_probe_reset, apply_probe_result,
  probe_succeeded, probe_failed, emit_alert, is_unknown_reason, known_state, non_empty,
}
use irl_notifs.Heartbeat.Machine.Probe.{probe_cases, outcome_cases, with_probe, taken}
use irl_notifs.Heartbeat.Machine.History.{
  CheckCall, pinged, ticked, paused, resumed, probe_reset, probed, step, run,
}

abbrev pub is_down : CheckState → Bool
is_down state_down = true
is_down _ = false

abbrev pub is_stored_state : CheckState → Bool
is_stored_state state_new = true
is_stored_state state_up = true
is_stored_state state_down = true
is_stored_state _ = false

-- A pending alert announces the state that the check is in.
abbrev pub alert_fits : Option AlertKind → CheckState → Bool
alert_fits none state = true
alert_fits (some alert_down) state_down = true
alert_fits (some alert_recovered) state_up = true
alert_fits (some _) _ = false

abbrev pub reason_fits : Option Reason → CheckState → Bool
reason_fits none state = not (is_down state)
reason_fits (some reason) state = is_down state && is_known_down_reason reason

-- The CHECK constraints of heartbeat_checks, and that the outbox announces the present state.
pub record IsConsistent (check : StoredCheck) : Type 0 where
  pub stored_state : is_stored_state check.state ≡ true
  pub down_since_set : is_down check.state ≡ true → is_some check.down_since ≡ true
  pub reason_known : reason_fits check.down_reason check.state ≡ true
  pub ping_paired : is_some check.last_ping_at ≡ is_some check.last_ping_kind
  pub alert_current : alert_fits check.pending_alert check.state ≡ true
  pub paused_silent : check.paused ≡ true → check.pending_alert ≡ none

ping-IsConsistent :
    (check : StoredCheck) (kind : PingKind) (now : Instant)
    → IsConsistent check
    → IsConsistent (apply_ping check kind now).0
unfolding apply_ping
ping-IsConsistent check ping_success now h = ground arith
ping-IsConsistent check ping_fail now h = ground arith
ping-IsConsistent check (ping_unknown _) now h = ground arith

tick-IsConsistent :
    (check : StoredCheck) (now : Instant)
    → IsConsistent check
    → IsConsistent (advance_tick check now).0
unfolding advance_tick
tick-IsConsistent check now h = ground arith

pause-IsConsistent : (check : StoredCheck) → IsConsistent check → IsConsistent (apply_pause check)
unfolding apply_pause
pause-IsConsistent check h = ground arith

reset-IsConsistent :
    (check : StoredCheck) (now : Instant)
    → IsConsistent check
    → IsConsistent (apply_probe_reset check now)
unfolding apply_probe_reset
reset-IsConsistent check now h = ground arith

resume-IsConsistent :
    (check : StoredCheck) (now : Instant)
    → IsConsistent check
    → IsConsistent (apply_resume check now)
unfolding apply_resume
resume-IsConsistent check now h = ground arith

anchored-IsConsistent :
    (check : StoredCheck) (probe : ProbeState) (now : Instant)
    → IsConsistent check
    → IsConsistent (with_probe check probe now)
anchored-IsConsistent check probe now h = record {
  stored_state = h.stored_state;
  down_since_set = h.down_since_set;
  reason_known = h.reason_known;
  ping_paired = h.ping_paired;
  alert_current = h.alert_current;
  paused_silent = h.paused_silent;
}

succeeded-IsConsistent :
    (next : StoredCheck) (probe : ProbeState) (now : Instant)
    → next.paused ≡ false
    → IsConsistent next
    → IsConsistent (probe_succeeded next probe now).0
unfolding probe_succeeded emit_alert
succeeded-IsConsistent next probe now running h = ground arith

known_down :
    (reason : Reason) → is_unknown_reason (some reason) ≡ false → is_known_down_reason reason ≡ true
unfolding is_unknown_reason
known_down reason h = ground arith

failed-IsConsistent :
    (next : StoredCheck) (probe : ProbeState) (reason : Reason) (detail : Option Text)
    (now hold : Instant)
    → next.paused ≡ false
    → is_known_down_reason reason ≡ true
    → IsConsistent next
    → IsConsistent (probe_failed next probe reason detail now hold).0
unfolding probe_failed emit_alert
failed-IsConsistent next probe reason detail now hold running known h = ground arith

module _ (sanitize_probe_detail : Text → Text) where
  probe-IsConsistent :
      (check : StoredCheck) (result : ProbeResult) (now hold_off_until : Instant)
      → IsConsistent check
      → IsConsistent (apply_probe_result sanitize_probe_detail check result now hold_off_until).0
  probe-IsConsistent check result now hold h =
      probe_cases (λ r. IsConsistent r.0) sanitize_probe_detail check result now hold (λ no. h)
        (λ probe e running known named.
          let detail = non_empty (sanitize_probe_detail result.detail) in
          outcome_cases (λ r. IsConsistent r.0) check probe result detail now hold
            (λ f.
              succeeded-IsConsistent (with_probe check (taken probe result detail now) now)
                (taken probe result detail now) now running
                (anchored-IsConsistent check (taken probe result detail now) now h))
            (λ reason f.
              failed-IsConsistent (with_probe check (taken probe result detail now) now)
                (taken probe result detail now) reason detail now hold running
                (known_down reason (rw (← f) named))
                (anchored-IsConsistent check (taken probe result detail now) now h)))

  step-IsConsistent :
      (check : StoredCheck) (call : CheckCall) (now : Instant)
      → IsConsistent check
      → IsConsistent (step sanitize_probe_detail check call now).0
  unfolding step
  step-IsConsistent check (pinged kind) now h = ping-IsConsistent check kind now h
  step-IsConsistent check ticked now h = tick-IsConsistent check now h
  step-IsConsistent check paused now h = pause-IsConsistent check h
  step-IsConsistent check resumed now h = resume-IsConsistent check now h
  step-IsConsistent check probe_reset now h = reset-IsConsistent check now h
  step-IsConsistent check (probed result hold_off) now h =
      probe-IsConsistent check result now hold_off h

  -- Every history of pings, ticks, pauses, resumes, probe resets and probe results, at any times,
  -- keeps a consistent check consistent: its state is new, up or down; a down check has a
  -- down_since, and a known down_reason which no other check has; last_ping_at and last_ping_kind
  -- are set together; a pending alert announces the present state (down or recovered); and a paused
  -- check has no pending alert.
  pub run-IsConsistent :
      (check : StoredCheck) (calls : List (CheckCall × Instant))
      → IsConsistent check
      → IsConsistent (run sanitize_probe_detail check calls)
  unfolding run
  run-IsConsistent check [] h = h
  run-IsConsistent check ((call, now) ∷ calls) h =
      run-IsConsistent (step sanitize_probe_detail check call now).0 calls
        (step-IsConsistent check call now h)

abbrev pub xor : Bool → Bool → Bool
xor true b = not b
xor false b = b

-- What a call does to the outbox, from the check before and after it.
pub record Announces (check next : StoredCheck) (emitted : Bool) : Type 0 where
  pub exactly_on_change :
      emitted ≡ (not check.paused && xor (is_down check.state) (is_down next.state))
  pub counted : next.alert_seq ≡ (if emitted then inc64 check.alert_seq else check.alert_seq)
  pub announced :
      emitted ≡ true
      → next.pending_alert ≡ some (if is_down next.state then alert_down else alert_recovered)

ping-Announces :
    (check : StoredCheck) (kind : PingKind) (now : Instant)
    → let (next, emitted) = apply_ping check kind now in Announces check next emitted
unfolding apply_ping
ping-Announces check ping_success now = ground arith
ping-Announces check ping_fail now = ground arith
ping-Announces check (ping_unknown _) now = ground arith

tick-Announces :
    (check : StoredCheck) (now : Instant)
    → let (next, emitted) = advance_tick check now in Announces check next emitted
unfolding advance_tick
tick-Announces check now = ground arith

succeeded-Announces :
    (check : StoredCheck) (before probe : ProbeState) (now : Instant)
    → check.paused ≡ false
    → known_state check.state ≡ true
    → let (next, applied, emitted) = probe_succeeded (with_probe check before now) probe now in
      Announces check next emitted
unfolding probe_succeeded emit_alert
succeeded-Announces check before probe now running known = ground arith

failed-Announces :
    (check : StoredCheck) (before probe : ProbeState) (reason : Reason) (detail : Option Text)
    (now hold : Instant)
    → check.paused ≡ false
    → known_state check.state ≡ true
    → let (next, applied, emitted) =
        probe_failed (with_probe check before now) probe reason detail now hold in
      Announces check next emitted
unfolding probe_failed emit_alert
failed-Announces check before probe reason detail now hold running known = ground arith

denied-Announces : (check : StoredCheck) → Announces check check false
denied-Announces check = ground arith

probe-Announces :
    (sanitize_probe_detail : Text → Text) (check : StoredCheck) (result : ProbeResult)
    (now hold_off : Instant)
    → let (next, applied, emitted) =
        apply_probe_result sanitize_probe_detail check result now hold_off in
      Announces check next emitted
probe-Announces sanitize check result now hold =
    probe_cases (λ r. Announces check r.0 r.2) sanitize check result now hold
      (λ no. denied-Announces check)
      (λ probe e running known named.
        let detail = non_empty (sanitize result.detail) in
        outcome_cases (λ r. Announces check r.0 r.2) check probe result detail now hold
          (λ f.
            succeeded-Announces check (taken probe result detail now)
              (taken probe result detail now) now running known)
          (λ reason f.
            failed-Announces check (taken probe result detail now) (taken probe result detail now)
              reason detail now hold running known))

-- Whatever the check, every call emits an alert exactly if the check is not paused and the call
-- moves it into or out of the state down; AlertSeq grows by one (as a Go int) with every alert and
-- is otherwise kept; and an emitted alert is pending afterwards, of kind down if the check is now
-- down and of kind recovered if it is not.
pub step-Announces :
    (sanitize_probe_detail : Text → Text) (check : StoredCheck) (call : CheckCall) (now : Instant)
    → let (next, emitted) = step sanitize_probe_detail check call now in
      Announces check next emitted
unfolding step apply_pause apply_resume apply_probe_reset
step-Announces sanitize check (pinged kind) now = ping-Announces check kind now
step-Announces sanitize check ticked now = tick-Announces check now
step-Announces sanitize check paused now = ground arith
step-Announces sanitize check resumed now = ground arith
step-Announces sanitize check probe_reset now = ground arith
step-Announces sanitize check (probed result hold_off) now =
    probe-Announces sanitize check result now hold_off
