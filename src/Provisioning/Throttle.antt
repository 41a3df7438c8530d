-- ===== src/Provisioning/Throttle.antt =====
-- provisioning-api/internal/provisioning/attemptthrottle.go: a sliding window of attempts per key. The map is
-- a list of entries, each key once; the mutex makes the calls follow one another.
pub mod Sweep
pub mod Window
use irl_notifs.Base.{
  ℕ, suc, leb, ℤ, pos, negsuc, leb_ℤ, Text, text_eq, Bool, true, false, ◌&&◌, ◌||◌, not, Option,
  none, some, List, [], ◌∷◌, ◌++◌, length, any, keep_if, is_some, or_else, if◌then◌else◌,
}
use irl_notifs.Base.Time.{Instant, Duration, add, sub, after}

abbrev pub Attempts : Type 0
Attempts = List (Text × List Instant)

pub record AttemptThrottle : Type 0 where
  pub attempts : Attempts
  pub last_sweep : Instant
  pub sweeps : ℕ

-- throttle.attempts[key].
abbrev pub tracked : Text → Attempts → Option (List Instant)
tracked key [] = none
tracked key ((k, times) ∷ rest) =
    let found = tracked key rest in if text_eq k key then some times else found

abbrev pub times_of : Text → Attempts → List Instant
times_of key attempts = or_else (tracked key attempts) []

abbrev pub set_times : Text → List Instant → Attempts → Attempts
set_times key times [] = (key, times) ∷ []
set_times key times ((k, old) ∷ rest) =
    if text_eq k key then (key, times) ∷ rest else (k, old) ∷ set_times key times rest

-- A time.Hour back from now.
abbrev pub window_start : Instant → Instant
window_start now = add now (negsuc 3599999999999)

-- attemptTimes[len(attemptTimes)-1], if there is one.
abbrev pub last_of : List Instant → Option Instant
last_of [] = none
last_of (t ∷ []) = some t
last_of (t ∷ u ∷ times) = last_of (u ∷ times)

-- The test of the sweep: the newest attempt has left the window.
unfoldable pub has_expired : Instant → List Instant → Bool
has_expired start times = elim (last_of times) [ none ↦ true | some t ↦ not (after t start) ]

unfoldable pub sweep : Instant → AttemptThrottle → AttemptThrottle
unfolding has_expired
sweep start throttle = record throttle {
  attempts = keep_if (λ entry. not (has_expired start entry.1)) throttle.attempts;
  sweeps = suc throttle.sweeps;
}

unfoldable pub recent : Text → Instant → Attempts → List Instant
recent key start attempts = keep_if (λ t. after t start) (times_of key attempts)

-- `index_panic` is `recent[0]` of an empty slice.
pub data Allowance : Type 0 where
  allowed : Allowance
  retry_after : Duration → Allowance
  index_panic : Allowance

unfoldable pub retry_time : Instant → List Instant → Allowance
retry_time now [] = index_panic
retry_time now (t ∷ times) = retry_after (sub (add t (pos 3600000000000)) now)

-- The sweep in front of a new key.
unfoldable pub sweep_if_due : Text → Instant → AttemptThrottle → AttemptThrottle
sweep_if_due key now throttle =
    if not (is_some (tracked key throttle.attempts))
      && leb 1024 (length throttle.attempts)
      && leb_ℤ (pos 60000000000) (sub now throttle.last_sweep)
    then record (sweep (window_start now) throttle) { last_sweep = now }
    else throttle

unfoldable pub allow : Text → ℤ → Instant → AttemptThrottle → AttemptThrottle × Allowance
allow key limit now throttle =
    let times = recent key (window_start now) throttle.attempts in
    let swept = sweep_if_due key now throttle in
    if leb_ℤ limit (pos (length times))
    then (
      record throttle { attempts = set_times key times throttle.attempts },
      retry_time now times,
    )
    else (record swept { attempts = set_times key (times ++ now ∷ []) swept.attempts }, allowed)
