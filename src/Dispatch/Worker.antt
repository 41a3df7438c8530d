-- ===== src/Dispatch/Worker.antt =====
-- dispatch/worker.go: one claimed delivery, from resolving its destination to recording the outcome.
-- The registry, the recipient resolver, the sinks and the clock are arguments; what the worker does
-- to them is the list of its effects, in order. Logging is left out.
pub mod Effects
pub mod Pace
use irl_notifs.Base.{
  ℕ, zero, suc, ◌+◌, ◌-◌, ◌*◌, ◌/◌, ◌^◌, min, max, ℤ, pos, ltb_ℤ, leb_ℤ, eqb_ℤ, Text, codes,
  text_eq, Bool, true, false, ◌&&◌, ◌||◌, not, Option, none, some, List, [], ◌∷◌, ltb, ◌==◌,
  if◌then◌else◌,
}
use irl_notifs.Base.Time.{Instant, Duration, sub, is_zero}
use irl_notifs.Message.Types.{
  state_dead, DeadReason, dead_reason_destination_disabled, dead_reason_destination_deleted,
  dead_reason_unsupported_type, dead_reason_budget_exhausted, dead_reason_no_publisher, Outcome,
  outcome_terminal, outcome_gone, Envelope, Claim, AttemptRecord, AttemptResult,
}
use irl_notifs.Registry.Types.{
  ResolvedDestination, Resolution, resolved, unknown_destination, destination_disabled,
  resolve_failed, recipient_destination_name,
}
use irl_notifs.Dispatch.Policy.{Floats, SinkError, SinkOutcome, decide, max_budget_age}

-- sink.Request.
pub record Request : Type 0 where
  pub message_id : Text
  pub created_at : Instant
  pub envelope : Envelope

pub data Reply : Type 0 where
  answered : SinkOutcome → Reply
  panicked : Reply

-- RecipientResolver.ResolveRecipient.
pub data RecipientAnswer : Type 0 where
  recipient : ResolvedDestination → RecipientAnswer
  no_publisher : RecipientAnswer
  recipient_failed : Text → RecipientAnswer

abbrev pub Sink : Type 0
Sink = ResolvedDestination → Request → Reply

pub record Services : Type 0 where
  pub resolve_named : Text → Text → Text → Resolution
  pub recipients : Option (Text → Text → Text → RecipientAnswer)
  pub sinks : Text → Option Sink
  -- Taking the *url.Error wrapper off an error.
  pub strip_url_error : SinkError → SinkError
  -- Whether the k-th RecordAttempt of a result succeeds, and whether the context is done behind it.
  pub write_succeeds : ℕ → Bool
  pub record_done : ℕ → Bool

-- The results of Worker.resolve: a destination, a reason to dead-letter, or an unknown state.
pub data Target : Type 0 where
  send_to : ResolvedDestination → Target
  give_up : DeadReason → Target
  unresolved : Target

pub data Effect : Type 0 where
  sent : ResolvedDestination → Effect
  recorded : AttemptResult → Effect
  lost : AttemptResult → Effect
  disabled : Text → ℤ → Effect

unfoldable pub is_recipient : Claim → Bool
is_recipient claim = text_eq claim.delivery.destination_name recipient_destination_name

-- The destination must be the very one that the delivery was addressed to.
same_destination : Option ℤ → ResolvedDestination → Target
same_destination none destination = give_up dead_reason_destination_deleted
same_destination (some id) destination =
    if eqb_ℤ id destination.id then send_to destination else give_up dead_reason_destination_deleted

of_resolution : Option ℤ → Resolution → Target
unfolding same_destination
of_resolution id unknown_destination = give_up dead_reason_destination_deleted
of_resolution id destination_disabled = give_up dead_reason_destination_disabled
of_resolution id (resolve_failed e) = unresolved
of_resolution id (resolved (destination ∷ [])) = same_destination id destination
of_resolution id (resolved _) = unresolved

resolve_recipient : Services → Claim → Target
resolve_recipient services claim = elim services.recipients [
  | none ↦ give_up dead_reason_no_publisher
  | some ask ↦
      elim (ask claim.message.envelope.app_id claim.message.envelope.to_recipient
        claim.message.envelope.channel) [
          | recipient destination ↦ send_to destination
          | no_publisher ↦ give_up dead_reason_no_publisher
          | recipient_failed e ↦ unresolved
        ]
]

unfoldable pub resolve : Services → Claim → Target
unfolding is_recipient resolve_recipient of_resolution
resolve services claim =
    if is_recipient claim
    then resolve_recipient services claim
    else if text_eq claim.delivery.destination_name []
    then give_up dead_reason_destination_deleted
    else of_resolution claim.delivery.destination_id (
        services.resolve_named claim.message.envelope.app_id claim.delivery.destination_name
          claim.message.envelope.channel)

never_sent_text : DeadReason → Text
never_sent_text dead_reason_destination_deleted = codes "destination no longer exists"
never_sent_text dead_reason_destination_disabled = codes "destination is disabled"
never_sent_text dead_reason_unsupported_type = codes "no sink for destination type"
never_sent_text dead_reason_budget_exhausted = codes "destination could not be resolved"
never_sent_text dead_reason_no_publisher = codes "app has no ntfy publisher"
never_sent_text _ = []

-- recordNeverSent, at a reading of the clock.
pub never_sent : Claim → DeadReason → Instant → AttemptResult
unfolding never_sent_text
never_sent claim reason now = record {
  attempt = record {
    delivery_id = claim.delivery.id;
    outcome = outcome_terminal;
    status_code = none;
    latency_ms = pos 0;
    error = some (never_sent_text reason);
    response_snippet = none;
    started_at = now;
  };
  next_state = state_dead;
  dead_reason = some reason;
  next_attempt_at = pos 0;
}

sink_panic : SinkOutcome
sink_panic = record {
  status_code = pos 0;
  retry_after = none;
  response_snippet = [];
  error =
      some
        (record { is_blocked = false; is_invalid_delivery = false; text = codes "sink panicked" });
  gone = false;
}

-- Worker.deliver and the unwrapping behind it.
deliver : Services → Sink → ResolvedDestination → Claim → SinkOutcome
unfolding sink_panic
deliver services sink destination claim =
    elim (sink destination (record {
      message_id = claim.message.id;
      created_at = claim.message.created_at;
      envelope = claim.message.envelope;
    })) [
      | panicked ↦ sink_panic
      | answered outcome ↦ record outcome {
        error = elim outcome.error [ none ↦ none | some e ↦ some (services.strip_url_error e) ];
      }
    ]

-- max(finished.Sub(started), 0) in whole milliseconds.
latency_ms : Instant → Instant → ℤ
latency_ms started finished = elim (sub finished started) [ pos n ↦ pos (n / 1000000) | _ ↦ pos 0 ]

abbrev pub is_gone : Outcome → Bool
is_gone outcome_gone = true
is_gone _ = false

-- A zero start counts as ancient.
pub start_is_ancient : Claim → Instant → Bool
start_is_ancient claim now =
    is_zero claim.delivery.budget_started_at
    || leb_ℤ (pos max_budget_age) (sub now claim.delivery.budget_started_at)

-- The loop of Worker.record: `ok k` if the k-th write succeeds, `done k` if the context is done
-- after it. The number of writes, and whether the outcome was recorded.
unfoldable pub record_from : (ℕ → Bool) → (ℕ → Bool) → ℕ → ℕ → ℕ × Bool
record_from ok done zero attempt = (attempt, false)
record_from ok done (suc left) attempt =
    let again = record_from ok done left (suc attempt) in
    if ok attempt
    then (attempt, true)
    else if left == 0 || done attempt
    then (attempt, false)
    else again

unfoldable pub record_writes : (ℕ → Bool) → (ℕ → Bool) → ℕ × Bool
unfolding record_from
record_writes ok done = record_from ok done 3 1

-- Worker.record: `lost` where the context ends or every write fails.
unfoldable pub record_result : Services → AttemptResult → Effect
record_result services result =
    if (record_writes services.write_succeeds services.record_done).1
    then recorded result
    else lost result

module _ (floats : Floats) (random : Option (floats.Float)) (services : Services) where
  -- Decide at the time that the sink call finished, with the measured times put in.
  pub measured : Claim → SinkOutcome → Instant → Instant → AttemptResult
  unfolding latency_ms
  measured claim outcome started finished =
      let result = decide floats claim.delivery outcome finished random in
      record result {
        attempt = record result.attempt {
          started_at = started;
          latency_ms = latency_ms started finished;
        };
      }

  after_send : Claim → ResolvedDestination → AttemptResult → List Effect
  unfolding is_recipient
  after_send claim destination result =
      sent destination
      ∷ record_result services result
      ∷ (if is_gone result.attempt.outcome && not (is_recipient claim)
          then disabled claim.delivery.destination_name destination.id ∷ []
          else [])

  -- Worker.process; `first` and `second` are the readings of the clock, in the order of the calls on
  -- every path but that of a zero budget start, where the age is not read.
  unfoldable pub process : Claim → Instant → Instant → List Effect
  unfolding deliver after_send start_is_ancient
  process claim first second = elim (resolve services claim) [
    | unresolved ↦
        if start_is_ancient claim first
        then record_result services (never_sent claim dead_reason_budget_exhausted second) ∷ []
        else []
    | give_up reason ↦ record_result services (never_sent claim reason first) ∷ []
    | send_to destination ↦ elim (services.sinks destination.type) [
      | none ↦ record_result services (never_sent claim dead_reason_unsupported_type first) ∷ []
      | some sink ↦
          after_send claim destination
            (measured claim (deliver services sink destination claim) first second)
    ]
  ]
