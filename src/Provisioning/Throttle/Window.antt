-- ===== src/Provisioning/Throttle/Window.antt =====
-- What one call answers, and what it remembers of the attempts in its window.
use irl_notifs.Base.{
  ◌⊎◌, ◌≤◌, ℤ, pos, negsuc, leb_ℤ, ◌≤ℤ◌, ◌<ℤ◌, +ℤ_parts, -ℤ_parts, Text, text_eq, ◌≡◌, refl, ap,
  ◌∙◌, inl, inr, Bool, true, false, List, [], ◌∷◌, ◌++◌, length, all, count_if, keep_if, arith,
  Bool-cases,
}
use irl_notifs.Base.Time.{Instant, Duration, add, sub, after}
use irl_notifs.Provisioning.Throttle.{
  Attempts, AttemptThrottle, times_of, set_times, window_start, sweep, recent, Allowance, allowed,
  retry_after, retry_time, sweep_if_due, allow,
}
use irl_notifs.Provisioning.Throttle.Sweep.{
  all_latest_last, times-set_times, times-set_other, has_key, sweep-recent,
}

abbrev pub is_allowed : Allowance → Bool
is_allowed allowed = true
is_allowed _ = false

keep-append :
    (p : Instant → Bool) (xs ys : List Instant)
    → keep_if p (xs ++ ys) ≡ keep_if p xs ++ keep_if p ys
keep-append p [] ys = refl
keep-append p (x ∷ xs) ys = ground (arith, keep-append p xs ys)

keep-again : (p : Instant → Bool) (xs : List Instant) → keep_if p (keep_if p xs) ≡ keep_if p xs
keep-again p [] = refl
keep-again p (x ∷ xs) = ground (arith, keep-again p xs)

now-in-window : (now : Instant) → after now (window_start now) ≡ true
now-in-window now = ground (arith, +ℤ_parts now (negsuc 3599999999999))

sweep_if_due-recent :
    (other key : Text) (now : Instant) (throttle : AttemptThrottle)
    → all_latest_last throttle.attempts ≡ true
    → count_if (has_key other) throttle.attempts ≤ 1
    → recent other (window_start now) (sweep_if_due key now throttle).attempts
      ≡ recent other (window_start now) throttle.attempts
unfolding sweep_if_due sweep recent
sweep_if_due-recent other key now throttle h once =
    ground (arith, sweep-recent other (window_start now) throttle.attempts h once)

recent-set :
    (key : Text) (start : Instant) (times : List Instant) (attempts : Attempts)
    → recent key start (set_times key times attempts) ≡ keep_if (λ t. after t start) times
unfolding recent
recent-set key start times attempts =
    ap (keep_if (λ t. after t start)) (times-set_times key times attempts)

recent-set_other :
    (key other : Text) (start : Instant) (times : List Instant) (attempts : Attempts)
    → text_eq key other ≡ false
    → recent other start (set_times key times attempts) ≡ recent other start attempts
unfolding recent
recent-set_other key other start times attempts h =
    ap (keep_if (λ t. after t start)) (times-set_other other key times attempts h)

-- A call for one key leaves the attempts of any other key that are in its window, even where it sweeps the
-- expired keys. The list of each key ends in its latest attempt, and the other key has one entry at most.
pub allow-other :
    (key other : Text) (limit : ℤ) (now : Instant) (throttle : AttemptThrottle)
    → text_eq key other ≡ false
    → all_latest_last throttle.attempts ≡ true
    → count_if (has_key other) throttle.attempts ≤ 1
    → recent other (window_start now) (allow key limit now throttle).0.attempts
      ≡ recent other (window_start now) throttle.attempts
unfolding allow
allow-other key other limit now throttle differ h once =
    elim (Bool-cases
      (leb_ℤ limit (pos (length (recent key (window_start now) throttle.attempts))))) [
        | inl e ↦
            rw (e, allow)
              (recent-set_other key other (window_start now)
                (recent key (window_start now) throttle.attempts) throttle.attempts differ)
        | inr e ↦
            rw (e, allow)
              (recent-set_other key other (window_start now)
                  (recent key (window_start now) throttle.attempts ++ now ∷ [])
                  (sweep_if_due key now throttle).attempts differ
                ∙ sweep_if_due-recent other key now throttle h once)
      ]

-- The attempts in the window of the key, after the call.
abbrev pub remembered : Text → ℤ → Instant → AttemptThrottle → List Instant
remembered key limit now throttle =
    recent key (window_start now) (allow key limit now throttle).0.attempts

wait_left :
    (t now : Instant)
    → after t (window_start now) ≡ true
    → pos 0 <ℤ sub (add t (pos 3600000000000)) now
unfolding sub
wait_left t now h = ground (
  arith,
  h,
  +ℤ_parts now (negsuc 3599999999999),
  +ℤ_parts t (pos 3600000000000),
  -ℤ_parts (add t (pos 3600000000000)) now,
)

all-keep_if : (p : Instant → Bool) (xs : List Instant) → all p (keep_if p xs) ≡ true
all-keep_if p [] = refl
all-keep_if p (x ∷ xs) = ground (arith, all-keep_if p xs)

recent-in_window :
    (key : Text) (start : Instant) (attempts : Attempts)
    → (all (λ t. after t start) (recent key start attempts) ≡ true)
      × (keep_if (λ t. after t start) (recent key start attempts) ≡ recent key start attempts)
unfolding recent
recent-in_window key start attempts = (
  all-keep_if (λ t. after t start) (times_of key attempts),
  keep-again (λ t. after t start) (times_of key attempts),
)

keep-now : (now : Instant) → keep_if (λ t. after t (window_start now)) (now ∷ []) ≡ now ∷ []
keep-now now = ground (arith, now-in-window now)

wait-positive :
    (now : Instant) (times : List Instant)
    → 1 ≤ length times
    → all (λ t. after t (window_start now)) times ≡ true
    → (wait : Duration) × (retry_time now times ≡ retry_after wait) × (pos 0 <ℤ wait)
unfolding retry_time
wait-positive now [] some_left h = ground (arith, some_left)
wait-positive now (t ∷ times) some_left h =
    (sub (add t (pos 3600000000000)) now, refl, wait_left t now (ground (arith, h)))

-- With a positive limit, an attempt is allowed exactly if fewer than the limit are left in the window of
-- its key, and is counted there then; one that is refused leaves the window as it was and is told a
-- positive time to wait.
pub allow_iff :
    (key : Text) (limit : ℤ) (now : Instant) (throttle : AttemptThrottle)
    → pos 0 <ℤ limit
    → (((allow key limit now throttle).1 ≡ allowed)
        × (pos (length (recent key (window_start now) throttle.attempts)) <ℤ limit)
        × (remembered key limit now throttle
            ≡ recent key (window_start now) throttle.attempts ++ now ∷ []))
      ⊎ ((wait : Duration) × ((allow key limit now throttle).1 ≡ retry_after wait)
          × (pos 0 <ℤ wait)
          × (limit ≤ℤ pos (length (recent key (window_start now) throttle.attempts)))
          × (remembered key limit now throttle ≡ recent key (window_start now) throttle.attempts))
unfolding allow
allow_iff key limit now throttle positive =
    elim (Bool-cases
      (leb_ℤ limit (pos (length (recent key (window_start now) throttle.attempts))))) [
        | inr e ↦ inl (rw (e, allow) (refl, ground (arith, e), counted))
        | inl e ↦
            let waits =
              wait-positive now (recent key (window_start now) throttle.attempts)
                (ground (arith, e, positive)) in_window.0 in
            inr (
              waits.0,
              rw (e, allow) waits.1,
              waits.2,
              ground (arith, e),
              rw (e, allow)
                  (recent-set key (window_start now)
                      (recent key (window_start now) throttle.attempts) throttle.attempts
                    ∙ in_window.1),
            )
      ]
  where
    in_window :
        (all (λ t. after t (window_start now)) (recent key (window_start now) throttle.attempts)
          ≡ true)
        × (keep_if
              (λ t. after t (window_start now))
              (recent key (window_start now) throttle.attempts)
            ≡ recent key (window_start now) throttle.attempts)
    in_window = recent-in_window key (window_start now) throttle.attempts

    counted :
        recent key (window_start now) (
          set_times key
            (recent key (window_start now) throttle.attempts ++ now ∷ [])
            (sweep_if_due key now throttle).attempts)
        ≡ recent key (window_start now) throttle.attempts ++ now ∷ []
    counted =
        recent-set key (window_start now)
          (recent key (window_start now) throttle.attempts ++ now ∷ [])
          (sweep_if_due key now throttle).attempts
        ∙ keep-append (λ t. after t (window_start now))
            (recent key (window_start now) throttle.attempts) (now ∷ [])
        ∙ rw (in_window.1, keep-now now) refl
