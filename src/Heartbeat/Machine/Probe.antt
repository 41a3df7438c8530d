-- ===== src/Heartbeat/Machine/Probe.antt =====
-- The ways through ApplyProbeResult (heartbeat/machine.go): a property of its result holds if it holds
-- where the result is denied, after a success and after a failure.
use irl_notifs.Base.{
  Text, arith, is_some, ◌&&◌, ◌≡◌, refl, Bool, true, false, not, Option, none, some, if◌then◌else◌,
}
use irl_notifs.Base.Time.{Instant}
use irl_notifs.Heartbeat.Types.{StoredCheck, ProbeState, ProbeResult, Reason}
use irl_notifs.Heartbeat.Machine.{
  apply_probe_result, probe_outcome, probe_recorded, probe_succeeded, probe_failed, non_empty,
  known_state, is_unknown_reason, storable_probe_status,
}

-- The probe that a taken result works on, with its last result set.
abbrev pub taken : ProbeState → ProbeResult → Option Text → Instant → ProbeState
taken probe result detail now = record probe {
  last_result = some (record {
    at = now;
    status = storable_probe_status result.status;
    reason = result.reason;
    detail = detail;
  });
}

abbrev pub with_probe : StoredCheck → ProbeState → Instant → StoredCheck
with_probe check probe now = record check { anchor_at = now; probe = some probe }

pub outcome_cases :
    (P : StoredCheck × Bool × Bool → Type 0) (check : StoredCheck) (probe : ProbeState)
    (result : ProbeResult) (detail : Option Text) (now hold : Instant)
    → (result.reason ≡ none
        → P (
            probe_succeeded
              (with_probe check (taken probe result detail now) now)
              (taken probe result detail now)
              now))
    → ((reason : Reason)
        → result.reason ≡ some reason
        → P (
            probe_failed
              (with_probe check (taken probe result detail now) now)
              (taken probe result detail now)
              reason
              detail
              now
              hold))
    → P (probe_outcome check probe result detail now hold)
unfolding probe_outcome probe_recorded
outcome_cases P check probe result detail now hold good bad = go result.reason refl
  where
    go :
        (r : Option Reason)
        → result.reason ≡ r
        → P (elim r [
          | none ↦
              probe_succeeded
                (with_probe check (taken probe result detail now) now)
                (taken probe result detail now)
                now
          | some reason ↦
              probe_failed
                (with_probe check (taken probe result detail now) now)
                (taken probe result detail now)
                reason
                detail
                now
                hold
        ])
    go none e = good e
    go (some reason) e = bad reason e

-- ApplyProbeResult denies the result unless this holds.
abbrev pub takes : StoredCheck → ProbeResult → Bool
takes check result =
    is_some check.probe
    && not check.paused
    && known_state check.state
    && not (is_unknown_reason result.reason)

pub probe_cases :
    (P : StoredCheck × Bool × Bool → Type 0) (sanitize : Text → Text) (check : StoredCheck)
    (result : ProbeResult) (now hold : Instant)
    → (takes check result ≡ false → P (check, false, false))
    → ((probe : ProbeState)
        → check.probe ≡ some probe
        → check.paused ≡ false
        → known_state check.state ≡ true
        → is_unknown_reason result.reason ≡ false
        → P (probe_outcome check probe result (non_empty (sanitize result.detail)) now hold))
    → P (apply_probe_result sanitize check result now hold)
unfolding apply_probe_result
probe_cases P sanitize check result now hold denied applied = probed check.probe refl
  where
    outcome : ProbeState → StoredCheck × Bool × Bool
    outcome probe = probe_outcome check probe result (non_empty (sanitize result.detail)) now hold

    named :
        (probe : ProbeState) (b : Bool)
        → is_unknown_reason result.reason ≡ b
        → check.probe ≡ some probe
        → check.paused ≡ false
        → known_state check.state ≡ true
        → P (if b then (check, false, false) else outcome probe)
    named probe true h e f g = denied (ground arith)
    named probe false h e f g = applied probe e f g h

    stored :
        (probe : ProbeState) (b : Bool)
        → known_state check.state ≡ b
        → check.probe ≡ some probe
        → check.paused ≡ false
        → P (
            if not b
            then (check, false, false)
            else if is_unknown_reason result.reason
            then (check, false, false)
            else outcome probe)
    stored probe false g e f = denied (ground arith)
    stored probe true g e f = named probe (is_unknown_reason result.reason) refl e f g

    running :
        (probe : ProbeState) (b : Bool)
        → check.paused ≡ b
        → check.probe ≡ some probe
        → P (
            if b
            then (check, false, false)
            else if not (known_state check.state)
            then (check, false, false)
            else if is_unknown_reason result.reason
            then (check, false, false)
            else outcome probe)
    running probe true f e = denied (ground arith)
    running probe false f e = stored probe (known_state check.state) refl e f

    probed :
        (o : Option ProbeState)
        → check.probe ≡ o
        → P (elim o [
          | none ↦ (check, false, false)
          | some probe ↦
              if check.paused
              then (check, false, false)
              else if not (known_state check.state)
              then (check, false, false)
              else if is_unknown_reason result.reason
              then (check, false, false)
              else outcome probe
        ])
    probed none e = denied (ground arith)
    probed (some probe) e = running probe check.paused refl e
