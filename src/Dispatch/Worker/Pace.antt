-- ===== src/Dispatch/Worker/Pace.antt =====
-- The worker's timing: NewWorker's defaults and lease floor, the pause between failing claims, and
-- the retries of a recording (dispatch/worker.go).
use irl_notifs.Base.{
  ℕ, zero, suc, ◌+◌, ◌-◌, ◌*◌, ◌/◌, ◌^◌, ◌≤◌, ◌<◌, min, max, ℤ, pos, negsuc, ltb_ℤ, leb_ℤ, ◌+ℤ◌,
  ◌≤ℤ◌, ◌<ℤ◌, +ℤ_parts, wrap64, wrap64_small, eq_of_parts, int_laws, max_int, ◌≡◌, refl, ap, ◌∙◌,
  Bool, true, ◌⊎◌, arith, ltb, if◌then◌else◌,
}
use irl_notifs.Base.Time.{Duration}
use irl_notifs.Dispatch.Worker.{record_writes}

-- The fields that NewWorker computes with.
pub record WorkerConfig : Type 0 where
  pub concurrency : ℤ
  pub poll_interval : Duration
  pub lease : Duration
  pub attempt_timeout : Duration
  pub record_retry_delay : Duration

abbrev default_to : ℤ → ℤ → ℤ
default_to d n = if leb_ℤ n (pos 0) then d else n

-- recordTimeout + disableTimeout + leaseMargin, in nanoseconds.
abbrev pub after_attempt : ℕ
after_attempt = 37000000000

abbrev pub lease_floor : Duration → Duration
lease_floor attempt_timeout = wrap64 (attempt_timeout +ℤ pos after_attempt)

defaulted : WorkerConfig → WorkerConfig
defaulted config = record {
  concurrency = if ltb_ℤ config.concurrency (pos 1) then pos 4 else config.concurrency;
  poll_interval = default_to (pos 1000000000) config.poll_interval;
  lease = default_to (pos 120000000000) config.lease;
  attempt_timeout = default_to (pos 9000000000) config.attempt_timeout;
  record_retry_delay = default_to (pos 250000000) config.record_retry_delay;
}

unfoldable pub new_worker : WorkerConfig → WorkerConfig
unfolding defaulted
new_worker config =
    let set = defaulted config in
    record set {
      lease =
          if ltb_ℤ set.lease (lease_floor set.attempt_timeout)
          then lease_floor set.attempt_timeout
          else set.lease;
    }

floor_small : (n : ℕ) → n + after_attempt ≤ max_int → lease_floor (pos n) ≡ pos (n + after_attempt)
floor_small n h =
    ap wrap64 (eq_of_parts (pos n +ℤ pos after_attempt) (pos (n + after_attempt)) (omega int_laws))
    ∙ wrap64_small (n + after_attempt) h

-- A worker that may run: positive times, and a lease that outlasts one whole attempt.
pub record IsSound (config : WorkerConfig) : Type 0 where
  pub loops : pos 1 ≤ℤ config.concurrency
  pub polls : pos 0 <ℤ config.poll_interval
  pub attempts : pos 0 <ℤ config.attempt_timeout
  pub retries : pos 0 <ℤ config.record_retry_delay
  pub outlasts : config.attempt_timeout +ℤ pos after_attempt ≤ℤ config.lease

defaulted_lem :
    (config : WorkerConfig)
    → config.attempt_timeout ≤ℤ pos (max_int - after_attempt)
    → (n : ℕ) × (0 < n)
      × (n + after_attempt ≤ max_int)
      × ((defaulted config).attempt_timeout ≡ pos n)
unfolding defaulted
defaulted_lem config h = timeout config.attempt_timeout refl
  where
    timeout :
        (t : Duration)
        → config.attempt_timeout ≡ t
        → (n : ℕ) × (0 < n)
          × (n + after_attempt ≤ max_int)
          × ((defaulted config).attempt_timeout ≡ pos n)
    timeout (negsuc n) e = (9000000000, omega arith, omega arith, ground arith)
    timeout (pos zero) e = (9000000000, omega arith, omega arith, ground arith)
    timeout (pos (suc n)) e = (suc n, omega arith, ground arith, ground arith)

new_worker-IsSound' :
    (config : WorkerConfig) (n : ℕ)
    → 0 < n
    → n + after_attempt ≤ max_int
    → (defaulted config).attempt_timeout ≡ pos n
    → IsSound (new_worker config)
unfolding new_worker
new_worker-IsSound' config n more small e =
    ground (arith, floor_small n small, +ℤ_parts (pos n) (pos after_attempt))

-- Whatever the configuration (an attempt timeout within 37 seconds of the largest duration aside),
-- NewWorker's has at least one loop, positive times, and a lease at least as long as the attempt
-- timeout, the record and disable timeouts and the margin together.
pub new_worker-IsSound :
    (config : WorkerConfig)
    → config.attempt_timeout ≤ℤ pos (max_int - after_attempt)
    → IsSound (new_worker config)
new_worker-IsSound config h =
    let (n, more, small, e) = defaulted_lem config h in new_worker-IsSound' config n more small e

-- claimBackoff for the failures-th failure in a row, on a positive poll interval.
unfoldable pub claim_backoff : ℕ → ℕ → ℕ
claim_backoff poll_interval failures =
    let shift = min (failures - 1) 5 in
    let ceiling = max 30000000000 poll_interval in
    if ltb (ceiling / 2 ^ shift) poll_interval then ceiling else poll_interval * 2 ^ shift

-- The pause at a shift of `s`.
abbrev paused_for : ℕ → ℕ → ℕ
paused_for p s = if ltb (max 30000000000 p / 2 ^ s) p then max 30000000000 p else p * 2 ^ s

paused_for-eq :
    (p s : ℕ)
    → s ≤ 5
    → (paused_for p s ≡ min (p * 2 ^ s) (max 30000000000 p)) × (p ≤ paused_for p s)
paused_for-eq p zero h = (ground arith, ground arith)
paused_for-eq p (suc zero) h = (ground arith, ground arith)
paused_for-eq p (suc (suc zero)) h = (ground arith, ground arith)
paused_for-eq p (suc (suc (suc zero))) h = (ground arith, ground arith)
paused_for-eq p (suc (suc (suc (suc zero)))) h = (ground arith, ground arith)
paused_for-eq p (suc (suc (suc (suc (suc zero))))) h = (ground arith, ground arith)
paused_for-eq p (suc (suc (suc (suc (suc (suc s)))))) h = absurd (omega arith)

-- The pause is the poll interval, doubled with every failure after the first up to five times, and
-- capped at 30 s or at the poll interval if that is longer. So it is never shorter than a poll.
pub claim_backoff-eq :
    (poll_interval failures : ℕ)
    → (claim_backoff poll_interval failures
        ≡ min (poll_interval * 2 ^ min (failures - 1) 5) (max 30000000000 poll_interval))
      × (poll_interval ≤ claim_backoff poll_interval failures)
unfolding claim_backoff
claim_backoff-eq p failures = paused_for-eq p (min (failures - 1) 5) (omega arith)

-- A recording is written one to three times, its outcome is that of the last write, and it stops
-- short of three failed writes only when its context is done.
pub record_writes_bounded :
    (ok done : ℕ → Bool)
    → let (writes, recorded) = record_writes ok done in
      (1 ≤ writes)
      × (writes ≤ 3)
      × (recorded ≡ ok writes)
      × ((recorded ≡ true) ⊎ (writes ≡ 3) ⊎ (done writes ≡ true))
unfolding record_writes
record_writes_bounded ok done = ground arith
