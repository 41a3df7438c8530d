-- ===== src/Dispatch/Policy.antt =====
-- dispatch/policy.go. An error of a sink is what the policy asks of it (errors.Is, its text).
-- Floating point is a parameter of the jitter.
pub mod Bounds
pub mod Decisions
use irl_notifs.Base.{
  ℕ, zero, suc, ◌+◌, ◌-◌, ◌*◌, ◌/◌, ◌%◌, ◌≤◌, ◌<◌, min, max, ℤ, pos, negsuc, pos_part, ltb_ℤ, leb_ℤ,
  eqb_ℤ, inc64, Text, codes, ◌≡◌, Bool, true, false, ◌&&◌, ◌||◌, not, Option, none, some, List, [],
  ◌∷◌, ◌++◌, ltb, leb, ◌==◌, if◌then◌else◌,
}
use irl_notifs.Base.Time.{Instant, Duration, add, sub}
use irl_notifs.Message.Types.{
  DeliveryState, state_pending, state_delivered, state_dead, DeadReason, dead_reason_gone,
  dead_reason_blocked_address, dead_reason_budget_exhausted, dead_reason_terminal_status, Outcome,
  outcome_success, outcome_retryable, outcome_terminal, outcome_gone, outcome_blocked,
  outcome_other, Delivery, AttemptRecord, AttemptResult,
}

-- transport.IsBlocked(err), errors.Is(err, sink.ErrInvalidDelivery), err.Error().
pub record SinkError : Type 0 where
  pub is_blocked : Bool
  pub is_invalid_delivery : Bool
  pub text : Text

-- sink.Outcome.
pub record SinkOutcome : Type 0 where
  pub status_code : ℤ
  pub retry_after : Option Duration
  pub response_snippet : Text
  pub error : Option SinkError
  pub gone : Bool

within : ℕ → ℕ → ℤ → Bool
within lo hi code = leb_ℤ (pos lo) code && leb_ℤ code (pos hi)

classify_error : SinkError → Outcome
classify_error e =
    if e.is_blocked
    then outcome_blocked
    else if e.is_invalid_delivery
    then outcome_terminal
    else outcome_retryable

unfoldable pub classify : SinkOutcome → Outcome
unfolding within classify_error
classify outcome = elim outcome.error [
  | some e ↦ classify_error e
  | none ↦
      if within 200 299 outcome.status_code
      then outcome_success
      else if eqb_ℤ outcome.status_code (pos 410) || outcome.gone
      then outcome_gone
      else if eqb_ℤ outcome.status_code (pos 408)
          || eqb_ℤ outcome.status_code (pos 429)
          || within 500 599 outcome.status_code
      then outcome_retryable
      else outcome_terminal
]

abbrev pub max_budget_attempts : ℕ
max_budget_attempts = 12

-- Durations in nanoseconds: 24 h, 30 s, 1 h, 1 h.
abbrev pub max_budget_age : ℕ
max_budget_age = 86400000000000

abbrev pub base_backoff : ℕ
base_backoff = 30000000000

abbrev pub max_backoff : ℕ
max_backoff = 3600000000000

abbrev pub max_retry_after : ℕ
max_retry_after = 3600000000000

-- float64 as far as the jitter uses it: NaN, the order with 0, min with 1, and
-- time.Duration(f * float64(half)), which for f in [0, 1] lies in [0, half].
pub record Floats : Type 1 where
  pub Float : Type 0
  pub zero_float : Float
  pub is_nan : Float → Bool
  pub is_negative : Float → Bool
  pub min_one : Float → Float
  pub share : Float → ℕ → ℕ
  pub share_zero : (half : ℕ) → share zero_float half ≤ half
  pub share_min_one :
      (f : Float) (half : ℕ)
      → is_nan f ≡ false
      → is_negative f ≡ false
      → share (min_one f) half ≤ half

-- The loop over the attempts: `rounds` is budgetAttempts - attempt. The doubled ceiling is below
-- 2 * max_backoff, far inside int64.
double_ceiling : ℕ → ℕ → ℕ
double_ceiling zero ceiling = ceiling
double_ceiling (suc rounds) ceiling =
    let doubled = double_ceiling rounds (ceiling * 2) in
    if ltb ceiling max_backoff then doubled else ceiling

-- How many times the loop condition `attempt < budgetAttempts` can hold, from attempt = 1.
rounds_of : ℤ → ℕ
rounds_of (pos zero) = 0
rounds_of (pos (suc n)) = n
rounds_of (negsuc n) = 0

pub ceiling_of : ℤ → ℕ
unfolding double_ceiling rounds_of
ceiling_of budget_attempts =
    min (double_ceiling (rounds_of budget_attempts) base_backoff) max_backoff

-- The retryAfter clause, on a positive duration.
raise_to : ℕ → Option Duration → ℕ
raise_to backoff none = backoff
raise_to backoff (some (negsuc n)) = backoff
raise_to backoff (some (pos n)) = if ltb 0 n then max backoff (min n max_retry_after) else backoff

-- The decimal digits of a number, with fuel for as many.
digits_from : ℕ → ℕ → Text → Text
digits_from zero n tail = tail
digits_from (suc fuel) n tail =
    let more = digits_from fuel (n / 10) ((48 + n % 10) ∷ tail) in
    if ltb n 10 then (48 + n) ∷ tail else more

-- %d of a 64-bit int, which has at most 19 digits.
unfoldable pub decimal : ℤ → Text
unfolding digits_from
decimal (pos n) = digits_from 20 n []
decimal (negsuc n) = 45 ∷ digits_from 20 (suc n) []

record_error : SinkOutcome → Outcome → Option Text
record_error outcome class = elim outcome.error [
  | some e ↦ some e.text
  | none ↦ elim class [
    | outcome_success ↦ none
    | _ ↦ some (codes "HTTP " ++ decimal outcome.status_code)
  ]
]

non_empty : Text → Option Text
non_empty [] = none
non_empty (b ∷ bs) = some (b ∷ bs)

pub build_record : Delivery → SinkOutcome → Outcome → Instant → AttemptRecord
unfolding record_error non_empty
build_record delivery outcome class now = record {
  delivery_id = delivery.id;
  outcome = class;
  status_code = if ltb_ℤ (pos 0) outcome.status_code then some outcome.status_code else none;
  latency_ms = pos 0;
  error = record_error outcome class;
  response_snippet = non_empty outcome.response_snippet;
  started_at = now;
}

abbrev pub dead_result : AttemptRecord → DeadReason → AttemptResult
dead_result attempt reason = record {
  attempt = attempt;
  next_state = state_dead;
  dead_reason = some reason;
  next_attempt_at = pos 0;
}

-- The retry budget is spent.
pub budget_exhausted : Delivery → Instant → Bool
budget_exhausted delivery now =
    leb_ℤ (pos (max_budget_attempts - 1)) delivery.budget_attempts
    || leb_ℤ (pos max_budget_age) (sub now delivery.budget_started_at)

module _ (floats : Floats) where
  open floats use {Float, zero_float, is_nan, is_negative, min_one, share}

  -- `none` is a nil source; a source is called once, so it is its value.
  jitter_fraction : Option Float → Float
  jitter_fraction none = zero_float
  jitter_fraction (some fraction) =
      if is_nan fraction || is_negative fraction then zero_float else min_one fraction

  unfoldable pub backoff : ℤ → Option Duration → Option Float → ℕ
  unfolding raise_to jitter_fraction
  backoff budget_attempts retry_after random =
      let half = ceiling_of budget_attempts / 2 in
      raise_to (half + share (jitter_fraction random) half) retry_after

  -- The switch of Decide on the class.
  decide_class :
      Outcome → AttemptRecord → Delivery → SinkOutcome → Instant → Option Float → AttemptResult
  decide_class outcome_success attempt delivery outcome now random = record {
    attempt = attempt;
    next_state = state_delivered;
    dead_reason = none;
    next_attempt_at = pos 0;
  }
  decide_class outcome_gone attempt delivery outcome now random =
      dead_result attempt dead_reason_gone
  decide_class outcome_blocked attempt delivery outcome now random =
      dead_result attempt dead_reason_blocked_address
  decide_class outcome_retryable attempt delivery outcome now random =
      if budget_exhausted delivery now
      then dead_result attempt dead_reason_budget_exhausted
      else record {
        attempt = attempt;
        next_state = state_pending;
        dead_reason = none;
        next_attempt_at =
            add now (pos (backoff (inc64 delivery.budget_attempts) outcome.retry_after random));
      }
  decide_class _ attempt delivery outcome now random =
      dead_result attempt dead_reason_terminal_status

  unfoldable pub decide : Delivery → SinkOutcome → Instant → Option Float → AttemptResult
  unfolding decide_class budget_exhausted
  decide delivery outcome now random =
      decide_class (classify outcome) (build_record delivery outcome (classify outcome) now)
        delivery outcome now random
