-- ===== src/Heartbeat/Machine/History.antt =====
-- Histories of one check: the calls that the store makes on it under the row lock
-- (heartbeat/pgstore.go, probe_store.go), each at its own time.
use irl_notifs.Base.{Text, Bool, false, List, [], ◌∷◌}
use irl_notifs.Base.Time.{Instant}
use irl_notifs.Heartbeat.Types.{StoredCheck, PingKind, ProbeResult}
use irl_notifs.Heartbeat.Machine.{
  apply_ping, advance_tick, apply_pause, apply_resume, apply_probe_reset, apply_probe_result,
}

pub data CheckCall : Type 0 where
  pinged : PingKind → CheckCall
  ticked paused resumed probe_reset : CheckCall
  probed : ProbeResult → Instant → CheckCall

module _ (sanitize_probe_detail : Text → Text) where
  -- The check after a call, and whether the call emitted an alert.
  unfoldable pub step : StoredCheck → CheckCall → Instant → StoredCheck × Bool
  step check (pinged kind) now = apply_ping check kind now
  step check ticked now = advance_tick check now
  step check paused now = (apply_pause check, false)
  step check resumed now = (apply_resume check now, false)
  step check probe_reset now = (apply_probe_reset check now, false)
  step check (probed result hold_off_until) now =
      let (next, applied, emitted) =
        apply_probe_result sanitize_probe_detail check result now hold_off_until in
      (next, emitted)

  unfoldable pub run : StoredCheck → List (CheckCall × Instant) → StoredCheck
  run check [] = check
  run check ((call, now) ∷ calls) = run (step check call now).0 calls
