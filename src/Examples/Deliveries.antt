-- ===== src/Examples/Deliveries.antt =====
-- Dispatch and message properties at concrete deliveries: one webhook and one slow server.
use irl_notifs.Base.{
  ℕ, pos, negsuc, codes, text_eq, ◌≡◌, ◌≢◌, refl, Bool, true, false, none, some, List, [], ◌∷◌,
  arith, ◌==◌, ◌+ℤ◌, ◌-ℤ◌, ◌≤ℤ◌, ◌<ℤ◌, ◌≤◌,
}
use irl_notifs.Base.Time.{sub}
use irl_notifs.Message.Types.{
  state_pending, state_delivered, state_dead, status_partial, Delivery, MessageState, Claim,
  AttemptRecord, AttemptResult, dead_reason_gone, outcome_gone,
}
use irl_notifs.Message.Status.{derive_status}
use irl_notifs.Message.Status.Laws.{derive_status-eq}
use irl_notifs.Message.Attempts.{LoggedAttempt, validate_attempt_result}
use irl_notifs.Message.Attempts.Log.{LogEvent, IsRow, log_events, log_events-IsRow}
use irl_notifs.Registry.Types.{ResolvedDestination, resolved, recipient_destination_name}
use irl_notifs.Dispatch.Policy.{Floats, SinkOutcome, classify, decide, max_backoff, max_budget_age}
use irl_notifs.Dispatch.Policy.Decisions.{decide-accepted, decide-pending}
use irl_notifs.Dispatch.Retries.{Try, try_all, twelve_tries_settle}
use irl_notifs.Dispatch.Worker.{Services, answered, resolve, send_to, process, record_writes}
use irl_notifs.Dispatch.Worker.Effects.{
  AcceptedOnce, Orderly, send_to_addressee, process-accepted, process-Orderly,
}
use irl_notifs.Dispatch.Worker.Pace.{WorkerConfig}

-- A jitter that is nothing or everything.
share_of : Bool → ℕ → ℕ
share_of true half = half
share_of false half = 0

share_of-le : (f : Bool) (half : ℕ) → share_of f half ≤ half
unfolding share_of
share_of-le true half = omega arith
share_of-le false half = omega arith

abbrev coins : Floats
coins = record {
  Float = Bool;
  zero_float = false;
  is_nan = λ f. false;
  is_negative = λ f. false;
  min_one = λ f. f;
  share = share_of;
  share_zero = share_of-le false;
  share_min_one = λ f half a b. share_of-le f half;
}

abbrev hook : Delivery
hook = record {
  id = pos 7;
  message_id = codes "m";
  destination_id = some (pos 3);
  destination_name = codes "ops";
  destination_type = codes "webhook";
  state = state_pending;
  dead_reason = none;
  attempt_count = pos 0;
  budget_attempts = pos 0;
  budget_started_at = pos 1000;
  next_attempt_at = pos 1000;
  last_status_code = none;
  delivered_at = none;
  created_at = pos 1000;
  updated_at = pos 1000;
}

abbrev unavailable : SinkOutcome
unavailable = record {
  status_code = pos 503;
  retry_after = some (pos 60000000000);
  response_snippet = codes "busy";
  error = none;
  gone = false;
}

decide-accepted_example :
    validate_attempt_result (decide coins hook unavailable (pos 2000) (some true)) ≡ none
decide-accepted_example = decide-accepted coins hook unavailable (pos 2000) (some true) 2000 refl

hook_retried : (decide coins hook unavailable (pos 2000) none).next_state ≡ state_pending
unfolding decide classify sub ◌-ℤ◌
hook_retried = refl

decide-pending_example :
    (pos 0 <ℤ pos 11)
    × (sub (pos 2000) (pos 1000) <ℤ pos max_budget_age)
    × (pos 2000 +ℤ pos 15000000000
        ≤ℤ (decide coins hook unavailable (pos 2000) none).next_attempt_at)
    × ((decide coins hook unavailable (pos 2000) none).next_attempt_at
        ≤ℤ pos 2000 +ℤ pos max_backoff)
decide-pending_example = decide-pending coins hook unavailable (pos 2000) none hook_retried

abbrev busy : Try Bool
busy = record { outcome = unavailable; finished = 2000; random = some true; clock = pos 2001 }

abbrev kept : AttemptRecord → AttemptRecord
kept r = r

abbrev twelve_busy : List (Try Bool)
twelve_busy = busy ∷ busy ∷ busy ∷ busy ∷ busy ∷ busy ∷ busy ∷ busy ∷ busy ∷ busy ∷ busy ∷ busy ∷ []

twelve_tries_settle_example : (try_all coins kept (hook, []) twelve_busy).0.state ≢ state_pending
twelve_tries_settle_example = twelve_tries_settle coins kept hook [] twelve_busy refl (omega arith)

abbrev gone_result : AttemptResult
gone_result = record {
  attempt = record {
    delivery_id = pos 7;
    outcome = outcome_gone;
    status_code = some (pos 410);
    latency_ms = pos 12;
    error = some (codes "HTTP 410");
    response_snippet = none;
    started_at = pos 2000;
  };
  next_state = state_dead;
  dead_reason = some dead_reason_gone;
  next_attempt_at = pos 0;
}

hook-IsRow : IsRow hook []
hook-IsRow = record {
  counted = refl;
  numbered = ground arith;
  reasoned = unfold irl_notifs.Message.Attempts.lacks_reason in refl;
  unreasoned = refl;
  dated = λ h. absurd (ground arith);
}

abbrev gone_and_back : List LogEvent
gone_and_back =
    LogEvent.recorded gone_result (pos 2100)
    ∷ LogEvent.replayed (pos 3000) (pos 3001)
    ∷ LogEvent.recorded gone_result (pos 3100)
    ∷ []

log_events-IsRow_example :
    IsRow (log_events kept (hook, []) gone_and_back).0 (log_events kept (hook, []) gone_and_back).1
log_events-IsRow_example = log_events-IsRow kept (hook, []) gone_and_back (omega arith) hook-IsRow

abbrev arrived : Delivery
arrived = record hook { state = state_delivered; delivered_at = some (pos 2000) }

abbrev lost : Delivery
lost = record hook { id = pos 8; state = state_dead; dead_reason = some dead_reason_gone }

abbrev plain : MessageState
plain = record { held_at = none; cancelled_at = none; release_failed_at = none }

derive_status-eq_example : derive_status (arrived ∷ lost ∷ []) plain ≡ status_partial
derive_status-eq_example = derive_status-eq arrived (lost ∷ []) plain

abbrev ops : ResolvedDestination
ops = record { id = pos 3; name = codes "ops"; type = codes "webhook"; config = []; secrets = [] }

abbrev services : Services
services = record {
  resolve_named = λ app name channel. resolved (ops ∷ []);
  recipients = none;
  sinks = λ type. some (λ destination request. answered unavailable);
  strip_url_error = λ e. e;
  write_succeeds = λ k. k == 2;
  record_done = λ k. false;
}

abbrev hook_claim : Claim
hook_claim = record {
  delivery = hook;
  message = record {
    id = codes "m";
    envelope = record {
      app_id = codes "app";
      channel = codes "alerts";
      idempotency_key = codes "k";
      to_destination = [];
      to_recipient = [];
      deliver_at = none;
      critical = false;
      payload = codes "{}";
      display = none;
      hold = false;
    };
    created_at = pos 1000;
    cancelled_at = none;
    held_at = none;
    released_at = none;
    held_cancelled_at = none;
    release_failed_at = none;
    release_failed_reason = [];
    deliveries = hook ∷ [];
  };
}

claim_resolved : resolve services hook_claim ≡ send_to ops
unfolding resolve text_eq
claim_resolved = ground arith

named : codes "ops" ≢ recipient_destination_name
named h = absurd (ground arith)

send_to_addressee_example :
    (resolved (ops ∷ []) ≡ resolved (ops ∷ [])) × (some (pos 3) ≡ some ops.id)
send_to_addressee_example = send_to_addressee services hook_claim ops named claim_resolved

process-accepted_example :
    AcceptedOnce (process coins none services hook_claim (pos 2000) (pos 2500))
process-accepted_example = process-accepted coins none services hook_claim 2000 2500

process-Orderly_example :
    Orderly
      (record_writes services.write_succeeds services.record_done).1
      hook_claim
      (process coins none services hook_claim (pos 2000) (pos 2500))
process-Orderly_example = process-Orderly coins none services hook_claim (pos 2000) (pos 2500)

abbrev short_lease : WorkerConfig
short_lease = record {
  concurrency = pos 0;
  poll_interval = negsuc 0;
  lease = pos 1000000000;
  attempt_timeout = pos 0;
  record_retry_delay = pos 0;
}
