-- ===== src/Dispatch/Policy/Decisions.antt =====
-- What Decide makes of an outcome, and that the store takes it.
use irl_notifs.Base.{
  ℕ, ◌≤◌, ℤ, pos, ◌≤ℤ◌, ◌<ℤ◌, ◌+ℤ◌, +ℤ_parts, inc64, ◌≡◌, ◌↔◌, Option, none, arith,
}
use irl_notifs.Base.Time.{Instant, sub}
use irl_notifs.Message.Types.{state_pending, state_delivered, Delivery}
use irl_notifs.Message.Attempts.{validate_attempt_result}
use irl_notifs.Dispatch.Policy.{
  Floats, SinkOutcome, classify, decide, budget_exhausted, backoff, max_budget_age, max_backoff,
  build_record,
}
use irl_notifs.Dispatch.Policy.Bounds.{backoff_bounds, ceiling_bounds}

module _ (floats : Floats) where
  open floats use {Float}

  module _ (delivery : Delivery) (outcome : SinkOutcome) (now : Instant)
      (random : Option Float) where
    wait-le : (b : ℤ) → backoff floats b outcome.retry_after random ≤ max_backoff
    wait-le b = (backoff_bounds floats b outcome.retry_after random).at_most_hour

    wait_floor : (b : ℤ) → 15000000000 ≤ backoff floats b outcome.retry_after random
    wait_floor b = omega (
      arith,
      (backoff_bounds floats b outcome.retry_after random).half_ceiling,
      (ceiling_bounds b).0,
    )

    -- Decided at an instant that is not before the zero time, every outcome of every delivery gives a
    -- result that RecordAttempt accepts: success goes with delivered and with nothing else, a retry
    -- has a time, and exactly the dead results carry a reason.
    pub decide-accepted :
        (n : ℕ)
        → now ≡ pos n
        → validate_attempt_result (decide floats delivery outcome now random) ≡ none
    unfolding decide validate_attempt_result build_record
    decide-accepted n e = ground (
      arith,
      wait_floor (inc64 delivery.budget_attempts),
      +ℤ_parts now
          (pos (backoff floats (inc64 delivery.budget_attempts) outcome.retry_after random)),
    )

    -- A delivery is marked delivered exactly if the sink answered, with a status from 200 to 299.
    pub decide-delivered :
        ((decide floats delivery outcome now random).next_state ≡ state_delivered) ↔ (
          (outcome.error ≡ none)
          × (pos 200 ≤ℤ outcome.status_code)
          × (outcome.status_code ≤ℤ pos 299))
    unfolding decide classify
    decide-delivered = (λ h. ground arith, λ h. ground arith)

    -- A delivery that is to be tried again has used fewer than 11 attempts of its budget, which
    -- started less than 24 hours ago, and is due again 15 seconds to one hour from now.
    pub decide-pending :
        (decide floats delivery outcome now random).next_state ≡ state_pending
        → (delivery.budget_attempts <ℤ pos 11)
          × (sub now delivery.budget_started_at <ℤ pos max_budget_age)
          × (now +ℤ pos 15000000000 ≤ℤ (decide floats delivery outcome now random).next_attempt_at)
          × ((decide floats delivery outcome now random).next_attempt_at ≤ℤ now +ℤ pos max_backoff)
    unfolding decide budget_exhausted
    decide-pending h = ground (
      arith,
      wait_floor (inc64 delivery.budget_attempts),
      wait-le (inc64 delivery.budget_attempts),
      +ℤ_parts now
          (pos (backoff floats (inc64 delivery.budget_attempts) outcome.retry_after random)),
      +ℤ_parts now (pos 15000000000),
      +ℤ_parts now (pos max_backoff),
    )
