-- ===== src/Examples/Alerts.antt =====
-- The outbox properties at a job that is down, with one enabled and one disabled destination.
use irl_notifs.Base.{
  pos, Text, codes, ◌≡◌, refl, true, false, Option, none, some, List, [], ◌∷◌, inl, arith,
}
use irl_notifs.Base.Time.{Instant}
use irl_notifs.Heartbeat.Types.{
  StoredCheck, AlertKind, alert_down, state_down, ping_fail, reason_fail,
}
use irl_notifs.Heartbeat.Machine.{apply_ping, advance_tick}
use irl_notifs.Heartbeat.Machine.History.{CheckCall, pinged, ticked, run, step}
use irl_notifs.Heartbeat.Flush.{SubmitAnswer, submitted, clear_alert, flush, clear_pending_alert}
use irl_notifs.Heartbeat.Flush.Races.{emitted_by, clear_only_announced, flush_lem}

abbrev down_job : StoredCheck
down_job = record {
  id = pos 1;
  app_id = codes "app";
  name = codes "backup";
  period_seconds = pos 300;
  grace_seconds = pos 60;
  state = state_down;
  paused = false;
  anchor_at = pos 1000;
  last_ping_at = some (pos 1000);
  last_ping_kind = some ping_fail;
  down_since = some (pos 1000);
  down_reason = some reason_fail;
  alert_seq = pos 1;
  pending_alert = some alert_down;
  destinations =
      record { name = codes "ops"; type = codes "webhook"; enabled = true }
      ∷ record { name = codes "old"; type = codes "webhook"; enabled = false }
      ∷ [];
  owner_kind = codes "operator";
  owner_app_id = none;
  created_at = pos 1;
  updated_at = pos 1000;
  probe = none;
}

abbrev same_text : Text → Text
same_text t = t

abbrev name_only : StoredCheck → AlertKind → Text → Option Text
name_only check kind name = some name

abbrev always_submitted : Text → SubmitAnswer
always_submitted alert = submitted

flush_lem_example :
    flush Text name_only always_submitted down_job ≡ (codes "ops" ∷ [], clear_alert (pos 1) (pos 1))
flush_lem_example = flush_lem Text name_only always_submitted down_job alert_down refl (inl refl)

abbrev quiet : List (CheckCall × Instant)
quiet = (pinged ping_fail, pos 2000) ∷ (ticked, pos 3000) ∷ []

quiet_cleared : (clear_pending_alert (pos 1) (pos 1) (run same_text down_job quiet)).1 ≡ true
unfolding clear_pending_alert run step apply_ping advance_tick
quiet_cleared = refl

clear_only_announced_example : emitted_by same_text down_job quiet ≡ 0
clear_only_announced_example =
    clear_only_announced same_text 1 down_job quiet refl (omega arith) quiet_cleared
