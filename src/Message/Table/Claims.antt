-- ===== src/Message/Table/Claims.antt =====
-- ClaimDue (message/pgstore.go) over the table: the earliest due pending delivery that no other
-- transaction has locked is leased to a worker. The parent of a row is the message that it is listed
-- under, as the foreign key has it, and is handed over without its deliveries. `locked` tells which
-- rows SKIP LOCKED skips.
pub mod Leases
pub mod Order
use irl_notifs.Base.{
  ℕ, ℤ, pos, leb_ℤ, ltb_ℤ, eqb_ℤ, codes, Bool, true, false, ◌&&◌, ◌||◌, not, Option, none, some,
  List, [], ◌∷◌, ◌++◌, map, keep_if, if◌then◌else◌,
}
use irl_notifs.Base.Time.{Instant, Duration, add}
use irl_notifs.Base.Sorting.{sort_by}
use irl_notifs.Message.Types.{Delivery, StoredMessage, Claim}
use irl_notifs.Message.Attempts.{Result, ok, err, invalid, is_pending}
use irl_notifs.Message.Table.{Table}

abbrev pub Row : Type 0
Row = StoredMessage × Delivery

unfoldable pub rows : Table → List Row
rows [] = []
rows (m ∷ table) = map (λ d. (m, d)) m.deliveries ++ rows table

abbrev pub is_due : (ℤ → Bool) → Instant → Row → Bool
is_due locked now (m, d) = is_pending d.state && leb_ℤ d.next_attempt_at now && not (locked d.id)

-- ORDER BY next_attempt_at, id.
abbrev pub due_before : Row → Row → Bool
due_before (m, d) (n, e) =
    ltb_ℤ d.next_attempt_at e.next_attempt_at
    || (eqb_ℤ d.next_attempt_at e.next_attempt_at && ltb_ℤ d.id e.id)

abbrev first_of : List Row → Option Row
first_of [] = none
first_of (r ∷ rs) = some r

unfoldable pub next_due : (ℤ → Bool) → Instant → Table → Option Row
next_due locked now table = first_of (sort_by due_before (keep_if (is_due locked now) (rows table)))

abbrev pub leased : Instant → Instant → Delivery → Delivery
leased until clock d = record d { next_attempt_at = until; updated_at = clock }

abbrev pub updated : ℤ → (Delivery → Delivery) → Delivery → Delivery
updated id f d = if eqb_ℤ d.id id then f d else d

-- The UPDATE of one row by its id.
abbrev pub update_row : ℤ → (Delivery → Delivery) → Table → Table
update_row id f [] = []
update_row id f (m ∷ table) =
    record m { deliveries = map (updated id f) m.deliveries } ∷ update_row id f table

unfoldable pub claim_next :
    (ℤ → Bool) → Instant → Duration → Instant → Table → Result (Table × Option Claim)
claim_next locked now lease clock table =
    if leb_ℤ lease (pos 0)
    then err (invalid (codes "claim due: lease must be positive"))
    else elim (next_due locked now table) [
      | none ↦ ok (table, none)
      | some row ↦ ok (
        update_row row.1.id (leased (add now lease) clock) table,
        some (record {
          delivery = leased (add now lease) clock row.1;
          message = record row.0 { deliveries = [] };
        }),
      )
    ]
