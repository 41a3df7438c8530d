-- ===== src/Dispatch/Release.antt =====
-- dispatch/release.go: a run of the releaser over the table of messages.
pub mod Draining
use irl_notifs.Base.{
  ℕ, zero, suc, ◌+◌, ltb, ℤ, pos, leb_ℤ, ltb_ℤ, Text, Bool, true, false, if◌then◌else◌,
}
use irl_notifs.Base.Time.{Instant}
use irl_notifs.Message.Attempts.{Result, ok, err}
use irl_notifs.Message.Table.{Table}
use irl_notifs.Message.Table.Releases.{release_due_messages}

abbrev pub default_release_batch_size : ℤ
default_release_batch_size = pos 100

abbrev pub default_max_release_batches : ℕ
default_max_release_batches = 50

-- What a batch meets: whether the context is done or a statement fails, the clock, and the messages that
-- others have locked.
pub record Turn : Type 0 where
  pub stopped : Bool
  pub now : Instant
  pub locked : Text → Bool

-- drain, with the batches that are left and the total so far.
unfoldable pub drain : (ℕ → Turn) → ℤ → ℕ → ℕ → Table → Table × ℕ
drain turn batch zero total table = (table, total)
drain turn batch (suc left) total table =
    if (turn 0).stopped
    then (table, total)
    else elim (release_due_messages (turn 0).locked (turn 0).now batch table) [
      | err e ↦ (table, total)
      | ok (next, released) ↦ elim (ltb_ℤ (pos released) batch) [
        | true ↦ (next, total + released)
        | false ↦ drain (λ i. turn (suc i)) batch left (total + released) next
      ]
    ]

-- run: the table, how many messages were released, and whether the worker is woken.
unfoldable pub release_run : (ℕ → Turn) → Table → Table × ℕ × Bool
release_run turn table =
    let drained = drain turn default_release_batch_size default_max_release_batches 0 table in
    (drained.0, drained.1, ltb 0 drained.1)
