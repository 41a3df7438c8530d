-- ===== src/Dispatch/Retries.antt =====
-- The life of one delivery in the queue: each attempt is decided by the policy (Policy) and recorded
-- by the store (Message.Attempts), until the delivery is no longer pending.
use native.Mathlib.Nat.{add-zero, add-suc, suc-add}
use irl_notifs.Base.{
  ℕ, suc, ◌+◌, ◌≤◌, pos, inc64_pos, ◌≡◌, ◌≢◌, refl, Option, List, [], ◌∷◌, arith, length,
}
use irl_notifs.Base.Time.{Instant}
use irl_notifs.Message.Types.{state_pending, Delivery, AttemptRecord}
use irl_notifs.Message.Attempts.{ok, err, LoggedAttempt, record_attempt}
use irl_notifs.Dispatch.Policy.{Floats, SinkOutcome, decide}
use irl_notifs.Dispatch.Policy.Decisions.{decide-accepted, decide-pending}

-- What the world answers to one attempt, and when: nanoseconds after the zero time.
pub record Try (Float : Type 0) : Type 0 where
  pub outcome : SinkOutcome
  pub finished : ℕ
  pub random : Option Float
  pub clock : Instant

-- A delivery that has used `k` attempts of its budget if it is still pending, at most 11 of them.
pub record Charged (k : ℕ) (delivery : Delivery) : Type 0 where
  pub charged : delivery.state ≡ state_pending → delivery.budget_attempts ≡ pos k
  pub within_budget : delivery.state ≡ state_pending → k ≤ 11

module _ (floats : Floats) (clean : AttemptRecord → AttemptRecord) where
  open floats use {Float}

  -- The worker's Decide and RecordAttempt; a refused result changes nothing.
  unfoldable pub try_once :
      Delivery × List LoggedAttempt → Try Float → Delivery × List LoggedAttempt
  try_once (delivery, log) t =
      elim (record_attempt clean (delivery, log)
        (decide floats delivery t.outcome (pos t.finished) t.random) t.clock) [
          | ok after ↦ after
          | err e ↦ (delivery, log)
        ]

  unfoldable pub try_all :
      Delivery × List LoggedAttempt → List (Try Float) → Delivery × List LoggedAttempt
  try_all s [] = s
  try_all s (t ∷ ts) = try_all (try_once s t) ts

  step-Charged :
      (k : ℕ) (delivery : Delivery) (log : List LoggedAttempt) (t : Try Float)
      → Charged k delivery
      → Charged (suc k) (try_once (delivery, log) t).0
  unfolding try_once record_attempt
  step-Charged k delivery log t h = ground (
    arith,
    inc64_pos k,
    decide-accepted floats delivery t.outcome (pos t.finished) t.random t.finished refl,
    decide-pending floats delivery t.outcome (pos t.finished) t.random,
  )

  try_all-Charged :
      (k : ℕ) (s : Delivery × List LoggedAttempt) (ts : List (Try Float))
      → Charged k s.0
      → Charged (k + length ts) (try_all s ts).0
  unfolding try_all
  try_all-Charged k s [] h = rw (add-zero k) h
  try_all-Charged k s (t ∷ ts) h =
      rw (add-suc k (length ts), ← suc-add k (length ts))
        (try_all-Charged (suc k) (try_once s t) ts (step-Charged k s.0 s.1 t h))

  -- A delivery with a fresh retry budget is no longer pending after twelve attempts (or more),
  -- whatever the sink answers, whenever the attempts finish (not before the zero time) and whatever
  -- the jitter is.
  pub twelve_tries_settle :
      (delivery : Delivery) (log : List LoggedAttempt) (ts : List (Try Float))
      → delivery.budget_attempts ≡ pos 0
      → 12 ≤ length ts
      → (try_all (delivery, log) ts).0.state ≢ state_pending
  twelve_tries_settle delivery log ts fresh long waiting =
      absurd (omega (arith, (try_all-Charged 0 (delivery, log) ts start).within_budget waiting))
    where
      start : Charged 0 delivery
      start = record { charged = λ _. fresh; within_budget = λ _. omega arith }
