-- ===== src/Heartbeat/Flush.antt =====
-- The outbox of alerts: flush of heartbeat/service.go and ClearPendingAlert of heartbeat/pgstore.go.
-- Rendering an alert as an envelope (JSON and times as text) is a parameter, and so is the message
-- service's answer to a submit.
pub mod Races
use irl_notifs.Base.{
  ℤ, eqb_ℤ, Text, Bool, true, false, ◌&&◌, ◌||◌, not, Option, none, some, List, [], ◌∷◌, is_some,
  if◌then◌else◌,
}
use irl_notifs.Heartbeat.Types.{
  StoredCheck, DestinationRef, AlertKind, alert_down, alert_recovered, alert_unknown,
}

-- What Submit returns, as far as flush tells apart.
pub data SubmitAnswer : Type 0 where
  submitted unknown_destination destination_disabled unsupported_destination_type submit_failed :
      SubmitAnswer

pub data FlushOutcome : Type 0 where
  nothing_pending unknown_kind kept_pending : FlushOutcome
  -- All done: the alert of the id and sequence number is to be cleared.
  clear_alert : ℤ → ℤ → FlushOutcome

abbrev pub is_failure : SubmitAnswer → Bool
is_failure submit_failed = true
is_failure _ = false

unfoldable pub clear_pending_alert : ℤ → ℤ → StoredCheck → StoredCheck × Bool
clear_pending_alert id alert_seq check =
    if eqb_ℤ check.id id && eqb_ℤ check.alert_seq alert_seq && is_some check.pending_alert
    then (record check { pending_alert = none }, true)
    else (check, false)

module _ (Alert : Type 0) (build : StoredCheck → AlertKind → Text → Option Alert)
    (submit : Alert → SubmitAnswer) where
  -- One turn of the loop: the alert that is submitted, and whether the destination failed.
  flush_one : StoredCheck → AlertKind → DestinationRef → Option Alert × Bool
  flush_one check kind destination =
      if not destination.enabled then (none, false) else elim (build check kind destination.name) [
        | none ↦ (none, true)
        | some alert ↦ (some alert, is_failure (submit alert))
      ]

  -- The loop: the alerts submitted, in order, and whether any destination failed.
  unfoldable pub flush_all : StoredCheck → AlertKind → List DestinationRef → List Alert × Bool
  unfolding flush_one
  flush_all check kind [] = ([], false)
  flush_all check kind (d ∷ ds) =
      let (found, bad) = flush_one check kind d in
      let (alerts, failed) = flush_all check kind ds in
      (elim found [ none ↦ alerts | some alert ↦ alert ∷ alerts ], bad || failed)

  flush_known : StoredCheck → AlertKind → List Alert × FlushOutcome
  unfolding flush_all
  flush_known check kind =
      let (alerts, failed) = flush_all check kind check.destinations in
      (alerts, if failed then kept_pending else clear_alert check.id check.alert_seq)

  unfoldable pub flush : StoredCheck → List Alert × FlushOutcome
  unfolding flush_known
  flush check = elim check.pending_alert [
    | none ↦ ([], nothing_pending)
    | some kind ↦ elim kind [
      | alert_unknown text ↦ ([], unknown_kind)
      | known ↦ flush_known check known
    ]
  ]
