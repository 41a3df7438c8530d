-- ===== src/Message/Table/Expiry.antt =====
-- The retention of messages (message/pgstore.go): DeleteExpired and DeleteExpiredHeld, in batches.
-- Rows that another transaction has locked, which the second one skips, are not modelled.
use irl_notifs.Base.{
  ℕ, zero, suc, ◌+◌, ltb, min, ℤ, pos, eqb_ℤ, Text, codes, Bool, true, false, ◌&&◌, ◌||◌, not,
  Option, none, some, [], ◌∷◌, ◌++◌, any, length, keep_if, is_some, or_else, if◌then◌else◌,
}
use irl_notifs.Base.Time.{Instant, before}
use irl_notifs.Base.Sorting.{sort_by, drop}
use irl_notifs.Message.Types.{Delivery, StoredMessage}
use irl_notifs.Message.Attempts.{StoreError, invalid, is_pending}
use irl_notifs.Message.Lifecycle.{is_scheduled}
use irl_notifs.Message.Table.{Table}

-- greatest on timestamps.
abbrev later : Instant → Instant → Instant
later t u = if before t u then u else t

latest_of : StoredMessage → Instant
latest_of m = later m.created_at (
    later (or_else m.envelope.deliver_at m.created_at)
      (later (or_else m.released_at m.created_at) (or_else m.release_failed_at m.created_at)))

is_past_retention : Instant → StoredMessage → Bool
unfolding latest_of
is_past_retention cutoff m = elim m.cancelled_at [
  | none ↦ before (latest_of m) cutoff
  | some t ↦ before t cutoff
]

unfoldable pub is_waiting : Delivery → Bool
unfolding is_scheduled
is_waiting d = is_pending d.state || is_scheduled d.state

-- The WHERE of deleteExpiredSQL.
unfoldable pub is_expired : Instant → StoredMessage → Bool
unfolding is_past_retention is_waiting
is_expired cutoff m =
    before m.created_at cutoff
    && is_past_retention cutoff m
    && not (is_some m.held_at)
    && not (any is_waiting m.deliveries)

-- The WHERE of deleteExpiredHeldSQL.
unfoldable pub is_expired_held : Instant → StoredMessage → Bool
is_expired_held cutoff m = elim m.held_at [ none ↦ false | some t ↦ before t cutoff ]

-- Go and SQL compare texts byte by byte.
abbrev pub text_before : Text → Text → Bool
text_before [] [] = false
text_before [] (b ∷ t) = true
text_before (a ∷ s) [] = false
text_before (a ∷ s) (b ∷ t) = ltb a b || (not (ltb b a) && text_before s t)

unfoldable pub by_time_and_id : (StoredMessage → Instant) → StoredMessage → StoredMessage → Bool
by_time_and_id time m n =
    before (time m) (time n) || (eqb_ℤ (time m) (time n) && text_before m.id n.id)

-- A DELETE of the first rows of a test, and how many it removes.
unfoldable pub delete_first :
    (StoredMessage → StoredMessage → Bool) → (StoredMessage → Bool) → ℕ → Table → Table × ℕ
delete_first earlier test limit table =
    let rows = sort_by earlier (keep_if test table) in
    (keep_if (λ m. not (test m)) table ++ drop limit rows, min limit (length rows))

abbrev pub created_at_of : StoredMessage → Instant
created_at_of m = m.created_at

abbrev pub held_at_of : StoredMessage → Instant
held_at_of m = or_else m.held_at m.created_at

unfoldable pub delete_expired_batch : Instant → ℕ → Table → Table × ℕ
delete_expired_batch cutoff = delete_first (by_time_and_id created_at_of) (is_expired cutoff)

unfoldable pub delete_expired_held_batch : Instant → ℕ → Table → Table × ℕ
delete_expired_held_batch cutoff = delete_first (by_time_and_id held_at_of) (is_expired_held cutoff)

abbrev pub delete_expired_batch_size : ℕ
delete_expired_batch_size = 500

abbrev pub delete_expired_max_batches : ℕ
delete_expired_max_batches = 200

-- What a call leaves: the table, the count, and the error that stopped it.
abbrev pub Deletion : Type 0
Deletion = Table × ℕ × Option StoreError

-- The loop over the batches that are left. `stops` tells which turns meet a context that is done or a
-- failing statement.
unfoldable pub delete_loop :
    (ℕ → Option StoreError) → (Table → Table × ℕ) → ℕ → ℕ → ℕ → Table → Deletion
delete_loop stops statement batch zero total table = (table, total, none)
delete_loop stops statement batch (suc n) total table = elim (stops 0) [
  | some e ↦ (table, total, some e)
  | none ↦ elim (ltb (statement table).1 batch) [
    | true ↦ ((statement table).0, total + (statement table).1, none)
    | false ↦
        delete_loop (λ i. stops (suc i)) statement batch n (total + (statement table).1)
          (statement table).0
  ]
]

unfoldable pub delete_expired_in_batches : (ℕ → Option StoreError) → Instant → ℤ → Table → Deletion
delete_expired_in_batches stops cutoff (pos (suc n)) table =
    delete_loop stops (delete_expired_batch cutoff (suc n)) (suc n) delete_expired_max_batches 0
      table
delete_expired_in_batches stops cutoff _ table =
    (table, 0, some (invalid (codes "delete expired messages: batch size must be positive")))

unfoldable pub delete_expired : (ℕ → Option StoreError) → Instant → Table → Deletion
unfolding delete_expired_in_batches
delete_expired stops cutoff = delete_expired_in_batches stops cutoff (pos delete_expired_batch_size)

unfoldable pub delete_expired_held_in_batches :
    (ℕ → Option StoreError) → Instant → ℤ → Table → Deletion
delete_expired_held_in_batches stops cutoff (pos (suc n)) table =
    delete_loop stops (delete_expired_held_batch cutoff (suc n)) (suc n) delete_expired_max_batches
      0 table
delete_expired_held_in_batches stops cutoff _ table =
    (table, 0, some (invalid (codes "delete expired held messages: batch size must be positive")))

unfoldable pub delete_expired_held : (ℕ → Option StoreError) → Instant → Table → Deletion
unfolding delete_expired_held_in_batches
delete_expired_held stops cutoff =
    delete_expired_held_in_batches stops cutoff (pos delete_expired_batch_size)
