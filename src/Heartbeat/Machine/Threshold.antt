-- ===== src/Heartbeat/Machine/Threshold.antt =====
-- How many failing probe results take a check down (ProbeFailureThreshold).
use irl_notifs.Base.{
  ℕ, suc, ◌+◌, ◌<◌, ◌≤◌, ℤ, pos, Text, ◌≡◌, ap, Bool, true, false, ◌&&◌, not, Option, none, some,
  List, [], ◌∷◌, arith, leb, length, max_int, inc64_pos,
}
use irl_notifs.Base.Time.{Instant, before}
use irl_notifs.Heartbeat.Types.{
  StoredCheck, ProbeState, ProbeResult, Reason, is_probe_result_reason,
}
use irl_notifs.Heartbeat.Machine.{
  apply_probe_result, probe_succeeded, probe_failed, emit_alert, is_unknown_reason, known_state,
  non_empty,
}
use irl_notifs.Heartbeat.Machine.Probe.{probe_cases, outcome_cases, takes, taken, with_probe}
use irl_notifs.Heartbeat.Machine.Outbox.{is_down, is_stored_state}

-- A probe result with the time that it is recorded at and the hold-off in force.
pub record Recorded : Type 0 where
  pub result : ProbeResult
  pub now : Instant
  pub hold_off_until : Instant

abbrev pub is_accepted : Option Reason → Bool
is_accepted none = true
is_accepted (some reason) = is_probe_result_reason reason

-- Outside the hold-off, and with a reason that ApplyProbeResult accepts.
abbrev pub is_countable : Recorded → Bool
is_countable r = not (before r.now r.hold_off_until) && is_accepted r.result.reason

abbrev pub AllCountable : List Recorded → Type 0
AllCountable [] = Unit {0}
AllCountable (r ∷ rs) = (is_countable r ≡ true) × AllCountable rs

-- The failures since the last success, after one more result.
abbrev pub next_count : ℕ → Option Reason → ℕ
next_count k none = 0
next_count k (some _) = suc k

-- The failures since the last success, after `k` of them.
abbrev pub trailing_failures : ℕ → List Recorded → ℕ
trailing_failures k [] = k
trailing_failures k (r ∷ rs) = trailing_failures (next_count k r.result.reason) rs

abbrev pub failures : Option ProbeState → Option ℤ
failures none = none
failures (some probe) = some probe.consecutive_failures

-- A running probe check that has counted `k` failures, and is down just if that is enough.
pub record Counts (k : ℕ) (check : StoredCheck) : Type 0 where
  pub running : check.paused ≡ false
  pub stored_state : is_stored_state check.state ≡ true
  pub counter : failures check.probe ≡ some (pos k)
  pub down_at_threshold : is_down check.state ≡ leb 3 k

never_denied :
    (k : ℕ) (check : StoredCheck) (result : ProbeResult)
    → is_accepted result.reason ≡ true
    → Counts k check
    → takes check result ≡ false
    → ⊥
unfolding is_unknown_reason known_state
never_denied k check result fits h denied = ground arith

counter_of :
    (k : ℕ) (check : StoredCheck) (probe : ProbeState)
    → check.probe ≡ some probe
    → Counts k check
    → probe.consecutive_failures ≡ pos k
counter_of k check probe e h = ground arith

succeeded-Counts :
    (k n : ℕ) (check : StoredCheck) (probe : ProbeState) (now : Instant)
    → n ≡ 0
    → Counts k check
    → Counts n (probe_succeeded (with_probe check probe now) probe now).0
unfolding probe_succeeded emit_alert
succeeded-Counts k n check probe now e h = ground arith

failed-Counts :
    (k n : ℕ) (check : StoredCheck) (probe : ProbeState) (reason : Reason) (detail : Option Text)
    (now hold : Instant)
    → n ≡ suc k
    → k < max_int
    → before now hold ≡ false
    → probe.consecutive_failures ≡ pos k
    → Counts k check
    → Counts n (probe_failed (with_probe check probe now) probe reason detail now hold).0
unfolding probe_failed emit_alert
failed-Counts k n check probe reason detail now hold e bound late count h =
    ground (arith, inc64_pos k)

module _ (sanitize_probe_detail : Text → Text) where
  unfoldable pub record_all : StoredCheck → List Recorded → StoredCheck
  record_all check [] = check
  record_all check (r ∷ rs) =
      record_all (apply_probe_result sanitize_probe_detail check r.result r.now r.hold_off_until).0
        rs

  record-Counts :
      (k : ℕ) (check : StoredCheck) (r : Recorded)
      → k < max_int
      → is_countable r ≡ true
      → Counts k check
      → Counts
          (next_count k r.result.reason)
          (apply_probe_result sanitize_probe_detail check r.result r.now r.hold_off_until).0
  record-Counts k check r bound fits h =
      probe_cases (λ x. Counts (next_count k r.result.reason) x.0) sanitize_probe_detail check
        r.result r.now r.hold_off_until
        (λ no. absurd (never_denied k check r.result fits_reason h no))
        (λ probe e running known named.
          let detail = non_empty (sanitize_probe_detail r.result.detail) in
          outcome_cases (λ x. Counts (next_count k r.result.reason) x.0) check probe r.result detail
            r.now r.hold_off_until
            (λ f.
              succeeded-Counts k (next_count k r.result.reason) check
                (taken probe r.result detail r.now) r.now (ap (next_count k) f) h)
            (λ reason f.
              failed-Counts k (next_count k r.result.reason) check
                (taken probe r.result detail r.now) reason detail r.now r.hold_off_until
                (ap (next_count k) f) bound early (counter_of k check probe e h) h))
    where
      fits_reason : is_accepted r.result.reason ≡ true
      fits_reason = ground arith

      early : before r.now r.hold_off_until ≡ false
      early = ground arith

  record_all-Counts :
      (k : ℕ) (check : StoredCheck) (rs : List Recorded)
      → k + length rs ≤ max_int
      → AllCountable rs
      → Counts k check
      → Counts (trailing_failures k rs) (record_all check rs)
  unfolding record_all
  record_all-Counts k check [] bound fits h = h
  record_all-Counts k check (r ∷ rs) bound fits h =
      record_all-Counts (next_count k r.result.reason)
        (apply_probe_result sanitize_probe_detail check r.result r.now r.hold_off_until).0 rs
        (ground arith) fits.1 (record-Counts k check r (omega arith) fits.0 h)

  -- From a running probe check that is up or new and has counted no failure, any number of results that fits an int,
  -- outside the hold-off and with accepted reasons leave it down exactly if the last three or more
  -- of them are failures.
  pub down_iff_three_failures :
      (check : StoredCheck) (rs : List Recorded)
      → length rs ≤ max_int
      → AllCountable rs
      → Counts 0 check
      → is_down (record_all check rs).state ≡ leb 3 (trailing_failures 0 rs)
  down_iff_three_failures check rs bound fits h =
      (record_all-Counts 0 check rs (omega arith) fits h).down_at_threshold

  -- Inside the startup hold-off no probe result takes a check down: one that was not down is not
  -- down afterwards.
  pub hold_off-not-down :
      (check : StoredCheck) (result : ProbeResult) (now hold_off_until : Instant)
      → before now hold_off_until ≡ true
      → is_down check.state ≡ false
      → is_down (apply_probe_result sanitize_probe_detail check result now hold_off_until).0.state
        ≡ false
  unfolding apply_probe_result
  hold_off-not-down check result now hold_off_until early up = ground arith
