-- ===== src/Heartbeat/Machine/Accepts.antt =====
-- Which probe results ApplyProbeResult accepts.
use irl_notifs.Base.{Text, ◌≡◌, true, false, ◌&&◌, not, Option, some, arith}
use irl_notifs.Base.Time.{Instant}
use irl_notifs.Heartbeat.Types.{ProbeResult, ProbeState, StoredCheck}
use irl_notifs.Heartbeat.Machine.{
  probe_outcome, is_unknown_reason, known_state, non_empty, apply_probe_result,
}

outcome-accepted :
    (check : StoredCheck) (probe : ProbeState) (result : ProbeResult) (detail : Option Text)
    (now hold_off_until : Instant)
    → (probe_outcome check probe result detail now hold_off_until).1 ≡ true
unfolding probe_outcome
outcome-accepted check probe result detail now hold_off_until = ground arith

pub accepted-eq :
    (sanitize : Text → Text) (check : StoredCheck) (probe : ProbeState) (result : ProbeResult)
    (now hold_off_until : Instant)
    → check.probe ≡ some probe
    → is_unknown_reason result.reason ≡ false
    → (apply_probe_result sanitize check result now hold_off_until).1
      ≡ (not check.paused && known_state check.state)
unfolding apply_probe_result
accepted-eq sanitize check probe result now hold_off_until has_probe known = ground (
  arith,
  has_probe,
  known,
  outcome-accepted check probe result (non_empty (sanitize result.detail)) now hold_off_until,
)
