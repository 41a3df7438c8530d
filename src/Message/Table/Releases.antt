-- ===== src/Message/Table/Releases.antt =====
-- ReleaseDue over the table (message/pgstore_scheduled.go). The probe and the update meet the same table;
-- Message.Lifecycle says what the update does to a message that changed in between.
use irl_notifs.Base.{
  ℕ, zero, suc, ℤ, pos, leb_ℤ, eqb_ℤ, ltb_ℤ, Text, codes, Bool, false, ◌&&◌, ◌||◌, not, Option,
  none, some, List, [], ◌∷◌, ◌++◌, any, map, keep_if, count_if, if◌then◌else◌,
}
use irl_notifs.Base.Time.{Instant, is_zero}
use irl_notifs.Base.Sorting.{sort_by, drop}
use irl_notifs.Message.Types.{Delivery, StoredMessage}
use irl_notifs.Message.Attempts.{Result, ok, err, invalid}
use irl_notifs.Message.Lifecycle.{is_scheduled, release_due}
use irl_notifs.Message.Table.{Table}
use irl_notifs.Message.Table.Expiry.{text_before}

abbrev pub is_due_scheduled : Instant → Delivery → Bool
unfolding is_scheduled
is_due_scheduled now d = is_scheduled d.state && leb_ℤ d.next_attempt_at now

unfoldable pub has_due : Instant → StoredMessage → Bool
has_due now m = any (is_due_scheduled now) m.deliveries

-- min(next_attempt_at) of the due deliveries.
unfoldable pub earliest_due : Instant → List Delivery → Option Instant
earliest_due now [] = none
earliest_due now (d ∷ ds) =
    let rest = earliest_due now ds in
    if not (is_due_scheduled now d) then rest else elim rest [
      | none ↦ some d.next_attempt_at
      | some t ↦ some (if ltb_ℤ t d.next_attempt_at then t else d.next_attempt_at)
    ]

-- ORDER BY min(next_attempt_at), message_id.
unfoldable pub released_before : Instant → StoredMessage → StoredMessage → Bool
unfolding earliest_due
released_before now m n = elim (earliest_due now m.deliveries) [
  | none ↦ false
  | some t ↦ elim (earliest_due now n.deliveries) [
    | none ↦ false
    | some u ↦ ltb_ℤ t u || (eqb_ℤ t u && text_before m.id n.id)
  ]
]

-- The update of a candidate, unless another transaction has locked the message.
unfoldable pub release_unlocked : (Text → Bool) → Instant → StoredMessage → StoredMessage
release_unlocked locked now m = if locked m.id then m else release_due m now

-- The candidates of a limit.
abbrev pub take {ℓ} : {A : Type ℓ} → ℕ → List A → List A
take zero xs = []
take (suc n) [] = []
take (suc n) (x ∷ xs) = x ∷ take n xs

unfoldable pub release_first : (Text → Bool) → Instant → ℕ → Table → Table × ℕ
release_first locked now limit table =
    let due = sort_by (released_before now) (keep_if (has_due now) table) in
    (
      keep_if (λ m. not (has_due now m)) table
          ++ (map (release_unlocked locked now) (take limit due) ++ drop limit due),
      count_if (λ m. not (locked m.id)) (take limit due),
    )

unfoldable pub release_due_messages : (Text → Bool) → Instant → ℤ → Table → Result (Table × ℕ)
release_due_messages locked now (pos (suc n)) table =
    if is_zero now
    then err (invalid (codes "release due: now must be set"))
    else ok (release_first locked now (suc n) table)
release_due_messages locked now _ table =
    if is_zero now
    then err (invalid (codes "release due: now must be set"))
    else err (invalid (codes "release due: limit must be positive"))
