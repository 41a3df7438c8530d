-- ===== src/Heartbeat/Flush/Races.antt =====
-- What a flush announces, and that it clears nothing else.
use irl_notifs.Base.{
  ℕ, suc, ◌+◌, ◌≤◌, ◌<◌, pos, inc64, inc64_pos, max_int, Text, ◌≡◌, refl, ap, ◌∙◌, ◌⊎◌, Bool, true,
  false, ◌||◌, not, Option, none, some, List, [], ◌∷◌, length, all, arith, if◌then◌else◌,
}
use irl_notifs.Base.Time.{Instant}
use irl_notifs.Heartbeat.Types.{StoredCheck, DestinationRef, AlertKind, alert_down, alert_recovered}
use irl_notifs.Heartbeat.Flush.{
  SubmitAnswer, submitted, unknown_destination, destination_disabled, unsupported_destination_type,
  submit_failed, kept_pending, clear_alert, flush_all, flush, clear_pending_alert,
}
use irl_notifs.Heartbeat.Machine.History.{CheckCall, step, run}
use irl_notifs.Heartbeat.Machine.Outbox.{step-Announces}

-- How many calls of a history emit an alert.
unfoldable pub emitted_by : (Text → Text) → StoredCheck → List (CheckCall × Instant) → ℕ
emitted_by sanitize check [] = 0
emitted_by sanitize check ((call, now) ∷ calls) =
    let rest = emitted_by sanitize (step sanitize check call now).0 calls in
    if (step sanitize check call now).1 then suc rest else rest

step_seq :
    (sanitize : Text → Text) (n : ℕ) (check : StoredCheck) (call : CheckCall) (now : Instant)
    → check.alert_seq ≡ pos n
    → n < max_int
    → (step sanitize check call now).0.alert_seq
      ≡ pos (if (step sanitize check call now).1 then suc n else n)
step_seq sanitize n check call now e small =
    (step-Announces sanitize check call now).counted ∙ bumped (step sanitize check call now).1
  where
    bumped :
        (b : Bool)
        → (if b then inc64 check.alert_seq else check.alert_seq) ≡ pos (if b then suc n else n)
    bumped true = rw e (inc64_pos n small)
    bumped false = e

run_seq :
    (sanitize : Text → Text) (n : ℕ) (check : StoredCheck) (calls : List (CheckCall × Instant))
    → check.alert_seq ≡ pos n
    → n + length calls ≤ max_int
    → (run sanitize check calls).alert_seq ≡ pos (n + emitted_by sanitize check calls)
unfolding run emitted_by
run_seq sanitize n check [] e small = e ∙ ap pos (omega arith)
run_seq sanitize n check ((call, now) ∷ calls) e small =
    run_seq sanitize (if (step sanitize check call now).1 then suc n else n)
      (step sanitize check call now).0 calls (step_seq sanitize n check call now e (omega arith))
      (ground arith)
    ∙ ap pos (ground arith)

-- A clear with the id and the sequence number n of a check, after any history of the check in the
-- meantime (of so many calls that n and their number fit an int together), takes effect only if no
-- call of that history emitted an alert: an alert that a flush has not read is never cleared by it.
pub clear_only_announced :
    (sanitize : Text → Text) (n : ℕ) (check : StoredCheck) (calls : List (CheckCall × Instant))
    → check.alert_seq ≡ pos n
    → n + length calls ≤ max_int
    → (clear_pending_alert check.id check.alert_seq (run sanitize check calls)).1 ≡ true
    → emitted_by sanitize check calls ≡ 0
unfolding clear_pending_alert
clear_only_announced sanitize n check calls e small cleared =
    ground (arith, run_seq sanitize n check calls e small)

module _ (Alert : Type 0) (build : StoredCheck → AlertKind → Text → Option Alert)
    (submit : Alert → SubmitAnswer) where
  -- A destination that the alert need not be submitted to again.
  abbrev pub is_done : StoredCheck → AlertKind → DestinationRef → Bool
  is_done check kind d = not d.enabled || elim (build check kind d.name) [
    | none ↦ false
    | some alert ↦ elim (submit alert) [
      | submitted ↦ true
      | unknown_destination ↦ true
      | destination_disabled ↦ true
      | unsupported_destination_type ↦ true
      | submit_failed ↦ false
    ]
  ]

  -- The alerts of the enabled destinations, in order.
  abbrev pub alerts_for : StoredCheck → AlertKind → List DestinationRef → List Alert
  alerts_for check kind [] = []
  alerts_for check kind (d ∷ ds) =
      let rest = alerts_for check kind ds in
      if not d.enabled
      then rest
      else elim (build check kind d.name) [ none ↦ rest | some alert ↦ alert ∷ rest ]

  flush_all_lem :
      (check : StoredCheck) (kind : AlertKind) (ds : List DestinationRef)
      → flush_all Alert build submit check kind ds
        ≡ (alerts_for check kind ds, not (all (is_done check kind) ds))
  unfolding flush_all
  flush_all_lem check kind [] = refl
  flush_all_lem check kind (d ∷ ds) = ground (arith, flush_all_lem check kind ds)

  -- A flush of a down or recovered alert submits one alert for each enabled destination that one can
  -- be built for, in order, whichever of them fail; and it clears the alert exactly if every
  -- destination is disabled, or its alert was built and Submit took it or refused it because the
  -- destination is unknown, disabled or of an unsupported type: any other failure keeps it pending.
  pub flush_lem :
      (check : StoredCheck) (kind : AlertKind)
      → check.pending_alert ≡ some kind
      → (kind ≡ alert_down) ⊎ (kind ≡ alert_recovered)
      → flush Alert build submit check ≡ (
        alerts_for check kind check.destinations,
        if all (is_done check kind) check.destinations
            then clear_alert check.id check.alert_seq
            else kept_pending,
      )
  unfolding flush
  flush_lem check kind pending known = ground (arith, flush_all_lem check kind check.destinations)
