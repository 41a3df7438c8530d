-- ===== src/Message/Table/Retention.antt =====
-- What the deletions by age (message/pgstore.go) remove and keep.
use irl_notifs.Base.{
  ℕ, zero, suc, ◌+◌, ◌-◌, ◌*◌, ◌≤◌, ltb, min, ℤ, pos, negsuc, ◌≡◌, refl, inl, inr, Bool, ◌&&◌, ◌||◌,
  not, Option, none, any, length, keep_if, count_if, length-keep_if, count_if-append, count_if-ext,
  count_if-none, is_some, arith, Bool-cases,
}
use irl_notifs.Base.Time.{Instant}
use irl_notifs.Base.Sorting.{
  sort_by, drop, length-sort_by, count_if-sort_by, count_if-drop, count_if-drop_all,
  count_if-keep_if, count_if_split,
}
use irl_notifs.Message.Types.{StoredMessage}
use irl_notifs.Message.Attempts.{StoreError}
use irl_notifs.Message.Table.{Table}
use irl_notifs.Message.Table.Expiry.{
  delete_first, by_time_and_id, created_at_of, is_waiting, is_expired, delete_loop,
  delete_expired_batch, delete_expired_in_batches, delete_expired,
}

module _ (earlier : StoredMessage → StoredMessage → Bool) (test : StoredMessage → Bool) where
  abbrev kept : (StoredMessage → Bool) → StoredMessage → Bool
  kept q m = not (test m) && q m

  abbrev rows : Table → Table
  rows table = sort_by earlier (keep_if test table)

  -- A batch leaves every row alone that does not pass its test.
  pub delete_first_keeps :
      (q : StoredMessage → Bool) (limit : ℕ) (table : Table)
      → count_if (λ m. not (test m) && q m) (delete_first earlier test limit table).0
        ≡ count_if (λ m. not (test m) && q m) table
  unfolding delete_first
  delete_first_keeps q limit table = omega (
    arith,
    count_if-append (kept q) (keep_if (λ m. not (test m)) table) (drop limit (rows table)),
    count_if-keep_if (kept q) (λ m. not (test m)) table,
    count_if-ext (λ m. not (test m) && kept q m) (kept q) table (λ m. ground arith),
    count_if-drop (kept q) limit (rows table),
    count_if-sort_by (kept q) earlier (keep_if test table),
    count_if-keep_if (kept q) test table,
    count_if-none (λ m. test m && kept q m) table (λ m. ground arith),
  )

  pub delete_first_counts :
      (limit : ℕ) (table : Table)
      → (count_if test (delete_first earlier test limit table).0 ≡ count_if test table - limit)
        × ((delete_first earlier test limit table).1 ≡ min limit (count_if test table))
  unfolding delete_first
  delete_first_counts limit table = (
    omega (
      arith,
      count_if-append test (keep_if (λ m. not (test m)) table) (drop limit (rows table)),
      count_if-keep_if test (λ m. not (test m)) table,
      count_if-none (λ m. not (test m) && test m) table (λ m. ground arith),
      count_if-drop_all test limit (rows table) all_pass,
      size,
    ),
    ground (arith, size),
  )
    where
      size : length (rows table) ≡ count_if test table
      size = omega (arith, length-sort_by earlier (keep_if test table), length-keep_if test table)

      all_pass : count_if test (rows table) ≡ length (rows table)
      all_pass = omega (
        arith,
        size,
        count_if-sort_by test earlier (keep_if test table),
        count_if-keep_if test test table,
        count_if-ext (λ m. test m && test m) test table (λ m. ground arith),
      )

  pub delete_first_le :
      (q : StoredMessage → Bool) (limit : ℕ) (table : Table)
      → count_if q (delete_first earlier test limit table).0 ≤ count_if q table
  unfolding delete_first
  delete_first_le q limit table = omega (
    arith,
    count_if-append q (keep_if (λ m. not (test m)) table) (drop limit (rows table)),
    count_if-keep_if q (λ m. not (test m)) table,
    count_if-drop q limit (rows table),
    count_if-sort_by q earlier (keep_if test table),
    count_if-keep_if q test table,
    count_if_split q test table,
  )

abbrev pub unstopped : ℕ → Option StoreError
unstopped i = none

-- A run that nothing stops removes as many rows that pass the test as its batches hold, and counts them.
loop_counts :
    (earlier : StoredMessage → StoredMessage → Bool) (test : StoredMessage → Bool)
    (n turns total : ℕ) (table : Table)
    → (count_if test
          (delete_loop unstopped (delete_first earlier test (suc n)) (suc n) turns total table).0
        ≡ count_if test table - turns * suc n)
      × ((delete_loop unstopped (delete_first earlier test (suc n)) (suc n) turns total table).1
          ≡ total + min (turns * suc n) (count_if test table))
unfolding delete_loop
loop_counts earlier test n zero total table = ground arith
loop_counts earlier test n (suc turns) total table =
    elim (Bool-cases (ltb (delete_first earlier test (suc n) table).1 (suc n))) [
      | inl e ↦
          rw (e, delete_loop) ground (arith, e, delete_first_counts earlier test (suc n) table)
      | inr e ↦
          rw (e, delete_loop) ground
            (
              arith,
              e,
              delete_first_counts earlier test (suc n) table,
              loop_counts earlier test n turns (total + (delete_first earlier test (suc n) table).1)
                  (delete_first earlier test (suc n) table).0,
            )
    ]

-- Whatever stops it, a run keeps every row that does not pass the test.
pub loop_keeps :
    (earlier : StoredMessage → StoredMessage → Bool) (test q : StoredMessage → Bool)
    (stops : ℕ → Option StoreError) (batch turns total : ℕ) (table : Table)
    → count_if
        (λ m. not (test m) && q m)
        (delete_loop stops (delete_first earlier test batch) batch turns total table).0
      ≡ count_if (λ m. not (test m) && q m) table
unfolding delete_loop
loop_keeps earlier test q stops batch zero total table = refl
loop_keeps earlier test q stops batch (suc turns) total table = ground (
  arith,
  delete_first_keeps earlier test q batch table,
  loop_keeps earlier test q (λ i. stops (suc i)) batch turns
      (total + (delete_first earlier test batch table).1) (delete_first earlier test batch table).0,
)

-- A run of DeleteExpired that nothing stops removes the expired messages, up to 200 batches of 500, and
-- reports how many it removed.
pub delete_expired_complete :
    (cutoff : Instant) (table : Table)
    → (count_if (is_expired cutoff) (delete_expired unstopped cutoff table).0
        ≡ count_if (is_expired cutoff) table - 100000)
      × ((delete_expired unstopped cutoff table).1
          ≡ min 100000 (count_if (is_expired cutoff) table))
unfolding delete_expired delete_expired_in_batches delete_expired_batch
delete_expired_complete cutoff table = (
  omega (arith, (loop_counts (by_time_and_id created_at_of) (is_expired cutoff) 499 200 0 table).0),
  omega (arith, (loop_counts (by_time_and_id created_at_of) (is_expired cutoff) 499 200 0 table).1),
)

-- A message that is held, or has a pending or scheduled delivery.
unfoldable pub is_in_use : StoredMessage → Bool
is_in_use m = is_some m.held_at || any is_waiting m.deliveries

in_use-not-expired :
    (cutoff : Instant) (m : StoredMessage)
    → is_in_use m ≡ (not (is_expired cutoff m) && is_in_use m)
unfolding is_expired is_in_use
in_use-not-expired cutoff m = ground arith

-- Where nothing else writes to the table while DeleteExpired runs (a replay that commits during one of its
-- statements may lose its message, a race that the source accepts), it keeps every message that is held
-- or has a pending or scheduled delivery, however it ends and with whatever cutoff and batch size: of
-- those that pass a further test, as many are left as there were.
pub delete_expired_keeps :
    (q : StoredMessage → Bool) (stops : ℕ → Option StoreError) (cutoff : Instant) (size : ℤ)
    (table : Table)
    → count_if (λ m. is_in_use m && q m) (delete_expired_in_batches stops cutoff size table).0
      ≡ count_if (λ m. is_in_use m && q m) table
unfolding delete_expired_in_batches delete_expired_batch
delete_expired_keeps q stops cutoff (pos (suc n)) table = omega (
  arith,
  loop_keeps (by_time_and_id created_at_of) (is_expired cutoff) (λ m. is_in_use m && q m) stops
      (suc n) 200 0 table,
  same ((delete_expired_in_batches stops cutoff (pos (suc n)) table).0),
  same table,
)
  where
    same :
        (rows : Table)
        → count_if (λ m. is_in_use m && q m) rows
          ≡ count_if (λ m. not (is_expired cutoff m) && (is_in_use m && q m)) rows
    same rows =
        count_if-ext (λ m. is_in_use m && q m)
          (λ m. not (is_expired cutoff m) && (is_in_use m && q m)) rows
          (λ m. ground (arith, in_use-not-expired cutoff m))
delete_expired_keeps q stops cutoff (pos zero) table = refl
delete_expired_keeps q stops cutoff (negsuc n) table = refl
