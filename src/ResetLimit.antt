-- ===== src/ResetLimit.antt =====
-- resetlimit/pgstore.go and resetlimit.go of delivery-api/internal: the limit on reset-password calls.
-- The table is the list of its rows. Each statement reads the clock for
-- itself. The per-app lock makes the transactions of an app follow one another.
pub mod Window
use irl_notifs.Base.{
  ℕ, suc, ◌+◌, ◌-◌, ◌/◌, ◌*◌, ◌≡◌, Bool, true, false, ◌&&◌, ◌||◌, not, Option, none, some, List, [],
  ◌∷◌, ℤ, pos, negsuc, ◌+ℤ◌, ◌-ℤ◌, ltb_ℤ, Text, text_eq, codes, count_if, keep_if, leb,
  if◌then◌else◌,
}
use irl_notifs.Base.Time.{Instant, before}

abbrev pub app_limit : ℕ
app_limit = 30

abbrev pub person_limit : ℕ
person_limit = 3

-- An hour, in nanoseconds.
abbrev pub window : ℕ
window = 3600000000000

pub data Scope : Type 0 where
  scope_app scope_person : Scope

-- A row of app_reset_attempts.
pub record ResetAttempt : Type 0 where
  pub app_id : Text
  pub person_hash : Text
  pub attempted_at : Instant

-- The clock at the prune and at the two counts, and the transaction's now() (its start), which is the
-- default of attempted_at.
pub record Clocks : Type 0 where
  pub at_prune : Instant
  pub at_app_count : Instant
  pub at_person_count : Instant
  pub at_start : Instant

-- RateLimitedError, with RetryAfter in seconds.
pub data Reservation : Type 0 where
  reserved : List ResetAttempt → Reservation
  rate_limited : ℤ → Scope → Reservation

unfoldable pub of_app : Text → ResetAttempt → Bool
of_app app_id r = text_eq r.app_id app_id

unfoldable pub of_person : Text → Text → ResetAttempt → Bool
of_person app_id person_hash r = text_eq r.app_id app_id && text_eq r.person_hash person_hash

unfoldable pub is_expired : Instant → ResetAttempt → Bool
is_expired clock r = before r.attempted_at (clock -ℤ pos window)

-- pruneSQL: the rows that it leaves.
unfoldable pub prune : Text → Instant → List ResetAttempt → List ResetAttempt
prune app_id clock rows = keep_if (λ r. not (of_app app_id r && is_expired clock r)) rows

min_ℤ : ℤ → ℤ → ℤ
min_ℤ a b = if ltb_ℤ a b then a else b

max_ℤ : ℤ → ℤ → ℤ
max_ℤ a b = if ltb_ℤ a b then b else a

-- min(attempted_at) of the rows that pass the test.
oldest : (ResetAttempt → Bool) → List ResetAttempt → Option Instant
unfolding min_ℤ
oldest p [] = none
oldest p (r ∷ rows) =
    let rest = oldest p rows in
    if p r
    then some (elim rest [ none ↦ r.attempted_at | some t ↦ min_ℤ r.attempted_at t ])
    else rest

-- ceil of a duration in seconds.
ceil_seconds : ℤ → ℤ
ceil_seconds (pos n) = pos ((n + 999999999) / 1000000000)
ceil_seconds (negsuc n) = pos 0 -ℤ pos (suc n / 1000000000)

-- The second column of appUsageSQL and personUsageSQL.
wait_seconds : (ResetAttempt → Bool) → Instant → List ResetAttempt → ℤ
unfolding oldest ceil_seconds
wait_seconds p clock rows = elim (oldest p rows) [
  | none ↦ pos 0
  | some t ↦ ceil_seconds (t +ℤ pos window -ℤ clock)
]

refusal : Bool → Bool → ℤ → ℤ → Reservation
unfolding max_ℤ
refusal app_full person_full app_wait person_wait =
    let waited = if person_full then person_wait else pos 0 in
    if app_full
    then rate_limited (max_ℤ (max_ℤ waited app_wait) (pos 1)) scope_app
    else rate_limited (max_ℤ waited (pos 1)) scope_person

unfoldable pub reserve : List ResetAttempt → Text → Text → Clocks → Reservation
unfolding prune refusal wait_seconds
reserve rows app_id person_hash clocks =
    let left = prune app_id clocks.at_prune rows in
    let app_full = leb app_limit (count_if (of_app app_id) left) in
    let person_full = leb person_limit (count_if (of_person app_id person_hash) left) in
    if app_full || person_full
    then refusal app_full person_full (wait_seconds (of_app app_id) clocks.at_app_count left)
        (wait_seconds (of_person app_id person_hash) clocks.at_person_count left)
    else reserved (
        record { app_id = app_id; person_hash = person_hash; attempted_at = clocks.at_start }
        ∷ left)
