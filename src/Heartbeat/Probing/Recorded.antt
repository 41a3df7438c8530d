-- ===== src/Heartbeat/Probing/Recorded.antt =====
-- Every outcome of a probe has a reason that the check's state machine accepts.
use irl_notifs.Base.{
  ℤ, Text, ◌≡◌, refl, inl, inr, false, ◌&&◌, not, none, some, is_some, arith, Option-cases,
}
use irl_notifs.Base.Time.{Instant}
use irl_notifs.Heartbeat.Types.{ProbeConfig, ProbeState, StoredCheck}
use irl_notifs.Heartbeat.Machine.{is_unknown_reason, known_state}
use irl_notifs.Heartbeat.Machine.Accepts.{accepted-eq}
use irl_notifs.Heartbeat.Probing.{
  TransportError, Body, read, unread, Response, unbuilt, no_response, responds, ProbeClient,
  ProbeClaim, classify_probe_error, match_body, judge_response, run_probe, record_probe_result,
}

module _ (client : ProbeClient) where
  classify-known :
      (error : TransportError) (timeout_seconds : ℤ)
      → is_unknown_reason (classify_probe_error client error timeout_seconds).reason ≡ false
  unfolding classify_probe_error is_unknown_reason
  classify-known error timeout_seconds = ground arith

  match-known :
      (config : ProbeConfig) (status : ℤ) (body : Body)
      → is_unknown_reason (match_body client config status body).reason ≡ false
  unfolding match_body is_unknown_reason
  match-known config status (read bytes) = ground arith
  match-known config status (unread timed_out) = ground arith

  judge-known :
      (config : ProbeConfig) (response : Response)
      → is_unknown_reason (judge_response client config response).reason ≡ false
  unfolding judge_response is_unknown_reason
  judge-known config unbuilt = refl
  judge-known config (no_response error) = classify-known error config.timeout_seconds
  judge-known config (responds status body) = ground (arith, match-known config status body)

  run_probe-known : (claim : ProbeClaim) → is_unknown_reason (run_probe client claim).reason ≡ false
  unfolding run_probe is_unknown_reason
  run_probe-known claim = elim (Option-cases claim.sealed_access_token) [
    | inl e ↦ ground (arith, e, judge-known claim.config (client.get claim.config.url none))
    | inr (sealed, e) ↦ elim (Option-cases (client.open_token claim.check_id sealed)) [
      | inl failed ↦ ground (arith, e, failed)
      | inr (token, opened) ↦
          ground
            (arith, e, opened, judge-known claim.config (client.get claim.config.url (some token)))
    ]
  ]

-- A probe that ran on the configuration that its check still has is recorded, whatever came of it, unless the
-- check is paused by then (or is in a state of none of the three).
pub run_probe-recorded :
    (client : ProbeClient) (sanitize : Text → Text) (claim : ProbeClaim) (current : StoredCheck)
    (probe : ProbeState) (now hold_off_until : Instant)
    → current.probe ≡ some probe
    → probe.config_version ≡ claim.config_version
    → is_some (
        record_probe_result sanitize claim.config_version
          (run_probe client claim)
          now
          hold_off_until
          current)
      ≡ (not current.paused && known_state current.state)
unfolding record_probe_result
run_probe-recorded client sanitize claim current probe now hold_off_until has_probe same = ground (
  arith,
  has_probe,
  same,
  accepted-eq sanitize current probe (run_probe client claim) now hold_off_until has_probe
      (run_probe-known client claim),
)
