-- ===== src/Examples/Checks.antt =====
-- Heartbeat properties at concrete checks: a job that pings, and a site that is probed.
use irl_notifs.Base.{
  pos, Text, codes, ◌≡◌, refl, Bool, true, false, none, some, List, [], ◌∷◌, arith, ◌+ℤ◌,
}
use irl_notifs.Base.Time.{Instant, seconds}
use irl_notifs.Heartbeat.Types.{
  state_up, state_late, ping_success, ping_fail, reason_timeout, reason_http_status, StoredCheck,
  ProbeConfig, ProbeState, ProbeResult,
}
use irl_notifs.Heartbeat.Machine.{deadline, derived_state, advance_tick, apply_resume}
use irl_notifs.Heartbeat.Machine.History.{CheckCall, pinged, ticked, paused, resumed, step, run}
use irl_notifs.Heartbeat.Machine.Outbox.{
  IsConsistent, Announces, is_down, run-IsConsistent, step-Announces,
}
use irl_notifs.Heartbeat.Machine.Threshold.{Recorded, Counts, record_all, down_iff_three_failures}
use irl_notifs.Heartbeat.Machine.Schedule.{IsScheduled, timeline, resume_restarts_clock}
use irl_notifs.Heartbeat.Validate.{
  valid, validate_probe_config, validate_schedule, validate_destinations, derived_schedule,
  valid_expected_statuses,
}
use irl_notifs.Heartbeat.Patch.{AccessTokenPatch, access_token_unchanged}
use irl_notifs.Heartbeat.Patch.Laws.{derived_schedule_fits}

-- A job with a period of five minutes and a grace of one, that last pinged at time 1000.
abbrev backup_job : StoredCheck
backup_job = record {
  id = pos 1;
  app_id = codes "app";
  name = codes "backup";
  period_seconds = pos 300;
  grace_seconds = pos 60;
  state = state_up;
  paused = false;
  anchor_at = pos 1000;
  last_ping_at = some (pos 1000);
  last_ping_kind = some ping_success;
  down_since = none;
  down_reason = none;
  alert_seq = pos 0;
  pending_alert = none;
  destinations = [];
  owner_kind = codes "operator";
  owner_app_id = none;
  created_at = pos 1;
  updated_at = pos 1000;
  probe = none;
}

abbrev config : ProbeConfig
config = record {
  url = codes "https://a";
  expected_statuses = pos 200 ∷ pos 204 ∷ [];
  body_match = none;
  timeout_seconds = pos 5;
  interval_seconds = pos 60;
}

abbrev pub probe_state : ProbeState
probe_state = record {
  config = config;
  has_access_token = false;
  sealed_access_token = none;
  consecutive_failures = pos 0;
  next_probe_at = pos 2000;
  config_version = pos 1;
  last_result = none;
  down_detail = none;
}

abbrev pub site : StoredCheck
site = record backup_job { probe = some probe_state }

abbrev pub same_text : Text → Text
same_text t = t

abbrev timed_out : ProbeResult
timed_out = record { status = none; reason = some reason_timeout; detail = codes "slow" }

abbrev bad_status : ProbeResult
bad_status = record { status = some (pos 500); reason = some reason_http_status; detail = [] }

backup_job-IsConsistent : IsConsistent backup_job
backup_job-IsConsistent = record {
  stored_state = refl;
  down_since_set = λ h. absurd (ground arith);
  reason_known = refl;
  ping_paired = refl;
  alert_current = refl;
  paused_silent = λ h. refl;
}

abbrev night : List (CheckCall × Instant)
night =
    (pinged ping_fail, pos 5000)
    ∷ (ticked, pos 6000)
    ∷ (paused, pos 7000)
    ∷ (resumed, pos 8000)
    ∷ (pinged ping_success, pos 9000)
    ∷ []

run-IsConsistent_example : IsConsistent (run same_text backup_job night)
run-IsConsistent_example = run-IsConsistent same_text backup_job night backup_job-IsConsistent

step-Announces_example :
    Announces backup_job
      (step same_text backup_job (pinged ping_fail) (pos 5000)).0
      (step same_text backup_job (pinged ping_fail) (pos 5000)).1
step-Announces_example = step-Announces same_text backup_job (pinged ping_fail) (pos 5000)

abbrev bad_day : List Recorded
bad_day =
    record { result = timed_out; now = pos 3000; hold_off_until = pos 0 }
    ∷ record { result = bad_status; now = pos 4000; hold_off_until = pos 0 }
    ∷ record { result = bad_status; now = pos 5000; hold_off_until = pos 0 }
    ∷ []

site-Counts : Counts 0 site
site-Counts = record {
  running = refl;
  stored_state = refl;
  counter = refl;
  down_at_threshold = refl;
}

down_iff_three_failures_example : is_down (record_all same_text site bad_day).state ≡ true
down_iff_three_failures_example =
    down_iff_three_failures same_text site bad_day (omega arith) (refl, (refl, (refl, unit_of)))
      site-Counts
  where
    unit_of : Unit {0}
    unit_of = ground arith

backup_job-IsScheduled : IsScheduled 300 60 backup_job
backup_job-IsScheduled = record {
  period = refl;
  grace = refl;
  period_bound = omega arith;
  grace_bound = omega arith;
}

timeline_example :
    (derived_state backup_job (pos 1000 +ℤ pos 330000000000) ≡ state_late)
    × ((advance_tick backup_job (pos 1000 +ℤ pos 330000000000)).1 ≡ false)
    × ((advance_tick backup_job (pos 1000 +ℤ pos 330000000000)).0.state ≡ state_up)
    × ((advance_tick backup_job (pos 1000 +ℤ pos 330000000000)).0 ≡ backup_job)
timeline_example = timeline 300 60 330000000000 backup_job backup_job-IsScheduled refl refl refl

late_tick : (advance_tick backup_job (pos 400000000000)).1 ≡ true
unfolding advance_tick deadline ◌+ℤ◌ seconds
late_tick = refl

abbrev paused_job : StoredCheck
paused_job = record backup_job { paused = true }

paused_job-IsScheduled : IsScheduled 300 60 paused_job
paused_job-IsScheduled = record {
  period = refl;
  grace = refl;
  period_bound = omega arith;
  grace_bound = omega arith;
}

resume_restarts_clock_example :
    advance_tick (apply_resume paused_job (pos 900000000000)) (pos 900000000000 +ℤ pos 360000000000)
    ≡ (apply_resume paused_job (pos 900000000000), false)
resume_restarts_clock_example =
    resume_restarts_clock 300 60 360000000000 paused_job (pos 900000000000) paused_job-IsScheduled
      refl (omega arith)

abbrev keep_token : AccessTokenPatch
keep_token = record {
  action = access_token_unchanged;
  token = record { client_id = []; client_secret = [] };
}

abbrev any_text : Text → Bool
any_text t = true

config_valid : validate_probe_config any_text any_text config ≡ valid
unfolding validate_probe_config valid_expected_statuses
config_valid = refl

derived_schedule_fits_example :
    validate_schedule (derived_schedule (pos 60)).0 (derived_schedule (pos 60)).1 (codes "ops" ∷ [])
    ≡ validate_destinations (codes "ops" ∷ [])
derived_schedule_fits_example =
    derived_schedule_fits any_text any_text config (codes "ops" ∷ []) config_valid
