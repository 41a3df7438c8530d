-- ===== src/Dispatch/Sweeper.antt =====
-- dispatch/sweeper.go: the settings of the retention, and one sweep over the table of messages. A panic of
-- a phase counts as a statement that fails; no other statement runs between the two phases.
use irl_notifs.Base.{
  ℕ, suc, ◌*◌, ℤ, pos, negsuc, ◌-ℤ◌, ◌≡◌, Text, codes, Bool, ◌&&◌, not, Option, any, count_if,
  count_if-ext, is_some, arith,
}
use irl_notifs.Base.Int.{wrap64}
use irl_notifs.Base.Time.{Instant, Duration, add}
use irl_notifs.Message.Types.{StoredMessage}
use irl_notifs.Message.Attempts.{StoreError}
use irl_notifs.Message.Service.Config.{Setting, value, invalid_setting, bounded}
use irl_notifs.Message.Table.{Table}
use irl_notifs.Message.Table.Expiry.{
  is_waiting, is_expired_held, by_time_and_id, held_at_of, delete_expired, delete_expired_held,
  delete_expired_held_in_batches, delete_expired_held_batch,
}
use irl_notifs.Message.Table.Retention.{is_in_use, delete_expired_keeps, loop_keeps}

-- time.Duration(days) * hoursPerDay * time.Hour.
unfoldable pub days : Setting ℤ → Setting Duration
days (invalid_setting name) = invalid_setting name
days (value (pos n)) = value (wrap64 (pos (n * 24 * 3600000000000)))
days (value (negsuc n)) = value (wrap64 (pos 0 -ℤ pos (suc n * 24 * 3600000000000)))

unfoldable pub retention_from_env : (Text → Option ℤ) → (Text → Text) → Setting Duration
unfolding days
retention_from_env atoi getenv =
    days (bounded atoi getenv (codes "DELIVERY_RETENTION_DAYS") 30 3650)

unfoldable pub held_ttl_from_env : (Text → Option ℤ) → (Text → Text) → Setting Duration
unfolding days
held_ttl_from_env atoi getenv = days (bounded atoi getenv (codes "DELIVERY_HELD_TTL_DAYS") 7 365)

-- sweep: DeleteExpired, and whatever came of it, DeleteExpiredHeld.
unfoldable pub sweep_messages :
    (ℕ → Option StoreError)
    → (ℕ → Option StoreError)
    → Duration
    → Duration
    → Instant
    → Table
    → Table
sweep_messages stops held_stops retention held_ttl sweep_start table =
    (delete_expired_held held_stops (add sweep_start (pos 0 -ℤ held_ttl))
      (delete_expired stops (add sweep_start (pos 0 -ℤ retention)) table).0).0

-- A message that is not held and has a pending or scheduled delivery.
unfoldable pub is_underway : StoredMessage → Bool
is_underway m = not (is_some m.held_at) && any is_waiting m.deliveries

held_sweep_keeps :
    (q : StoredMessage → Bool) (stops : ℕ → Option StoreError) (cutoff : Instant) (table : Table)
    → count_if
        (λ m. not (is_expired_held cutoff m) && (is_underway m && q m))
        (delete_expired_held stops cutoff table).0
      ≡ count_if (λ m. not (is_expired_held cutoff m) && (is_underway m && q m)) table
unfolding delete_expired_held delete_expired_held_in_batches delete_expired_held_batch
held_sweep_keeps q stops cutoff table =
    loop_keeps (by_time_and_id held_at_of) (is_expired_held cutoff) (λ m. is_underway m && q m)
      stops 500 200 0 table

underway_not_expired_held :
    (q : StoredMessage → Bool) (cutoff : Instant) (m : StoredMessage)
    → (is_underway m && q m) ≡ (not (is_expired_held cutoff m) && (is_underway m && q m))
unfolding is_underway is_expired_held
underway_not_expired_held q cutoff m = ground arith

underway_in_use :
    (q : StoredMessage → Bool) (m : StoredMessage)
    → (is_underway m && q m) ≡ (is_in_use m && (is_underway m && q m))
unfolding is_underway is_in_use
underway_in_use q m = ground arith

-- Where nothing else writes during it, a sweep, however its phases end, keeps every message that is not held and has a pending or scheduled
-- delivery: of those that pass a further test, as many are left as there were.
pub sweep_keeps :
    (q : StoredMessage → Bool) (stops held_stops : ℕ → Option StoreError)
    (retention held_ttl : Duration) (sweep_start : Instant) (table : Table)
    → count_if
        (λ m. is_underway m && q m)
        (sweep_messages stops held_stops retention held_ttl sweep_start table)
      ≡ count_if (λ m. is_underway m && q m) table
unfolding sweep_messages delete_expired
sweep_keeps q stops held_stops retention held_ttl sweep_start table = omega (
  arith,
  held_sweep_keeps q held_stops (add sweep_start (pos 0 -ℤ held_ttl)) left,
  delete_expired_keeps (λ m. is_underway m && q m) stops (add sweep_start (pos 0 -ℤ retention))
      (pos 500) table,
  unexpired (sweep_messages stops held_stops retention held_ttl sweep_start table),
  unexpired left,
  in_use left,
  in_use table,
)
  where
    left : Table
    left = (delete_expired stops (add sweep_start (pos 0 -ℤ retention)) table).0

    unexpired :
        (rows : Table)
        → count_if (λ m. is_underway m && q m) rows
          ≡ count_if
              (λ m.
                not (is_expired_held (add sweep_start (pos 0 -ℤ held_ttl)) m)
                && (is_underway m && q m))
              rows
    unexpired rows =
        count_if-ext (λ m. is_underway m && q m)
          (λ m.
            not (is_expired_held (add sweep_start (pos 0 -ℤ held_ttl)) m) && (is_underway m && q m))
          rows (underway_not_expired_held q (add sweep_start (pos 0 -ℤ held_ttl)))

    in_use :
        (rows : Table)
        → count_if (λ m. is_underway m && q m) rows
          ≡ count_if (λ m. is_in_use m && (is_underway m && q m)) rows
    in_use rows =
        count_if-ext (λ m. is_underway m && q m) (λ m. is_in_use m && (is_underway m && q m)) rows
          (underway_in_use q)
