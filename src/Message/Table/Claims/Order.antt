-- ===== src/Message/Table/Claims/Order.antt =====
-- Claims come in the order of their due times, and a due delivery is always found.
use irl_notifs.Base.{
  ◌≤◌, ℤ, pos, ◌<ℤ◌, ◌≡◌, refl, inl, inr, Bool, true, false, ◌&&◌, not, some, List, [], ◌∷◌,
  keep_if, count_if, count_if-none, count_if-le, count_if-le-length, length, arith, Bool-cases,
  Option-cases,
}
use irl_notifs.Base.Time.{Instant, Duration, add}
use irl_notifs.Base.Sorting.{sort_by, insert_by, length-sort_by, count_if-keep_if}
use irl_notifs.Message.Attempts.{ok}
use irl_notifs.Message.Table.{Table}
use irl_notifs.Message.Table.Claims.{
  Row, rows, is_due, due_before, first_of, next_due, leased, update_row, claim_next,
}
use irl_notifs.Message.Table.Claims.Leases.{next_due-counted, next_due-none}

due_before_trans :
    (r s t : Row) → due_before s t ≡ false → due_before r t ≡ true → due_before r s ≡ true
due_before_trans (m, r) (n, s) (o, t) h k = ground (arith, h, k)

due_before-asym : (r s : Row) → due_before r s ≡ true → due_before s r ≡ false
due_before-asym (m, r) (n, s) h = ground (arith, h)

-- What comes before the first row of an insertion, where nothing came before the first row.
insert_first :
    (x r : Row) (sorted xs : List Row)
    → length sorted ≡ length xs
    → ((y : Row) → first_of sorted ≡ some y → count_if (λ s. due_before s y) xs ≡ 0)
    → first_of (insert_by due_before x sorted) ≡ some r
    → count_if (λ s. due_before s r) (x ∷ xs) ≡ 0
unfolding insert_by
insert_first x r [] xs same least e =
    ground (arith, same, e, count_if-le-length (λ s. due_before s r) xs, due_before-asym r r)
insert_first x r (y ∷ ys) xs same least e = elim (Bool-cases (due_before y x)) [
  | inl h ↦ ground (arith, h, e, least y, due_before-asym y x)
  | inr h ↦ ground (
    arith,
    h,
    e,
    least y,
    due_before-asym x x,
    count_if-le (λ s. due_before s x) (λ s. due_before s y) xs (λ s. due_before_trans s y x h),
  )
]

-- Nothing comes before the first of a sorted list.
first-least :
    (xs : List Row) (r : Row)
    → first_of (sort_by due_before xs) ≡ some r
    → count_if (λ s. due_before s r) xs ≡ 0
unfolding sort_by
first-least [] r e = refl
first-least (x ∷ xs) r e =
    insert_first x r (sort_by due_before xs) xs (length-sort_by due_before xs) (first-least xs) e

next_due-least :
    (locked : ℤ → Bool) (now : Instant) (table : Table) (row : Row)
    → next_due locked now table ≡ some row
    → (is_due locked now row ≡ true)
      × (count_if (λ r. is_due locked now r && due_before r row) (rows table) ≡ 0)
unfolding next_due
next_due-least locked now table row e = (
  elim (Bool-cases (is_due locked now row)) [
    | inl h ↦ h
    | inr h ↦ ground (
      arith,
      h,
      next_due-counted (λ r. not (is_due locked now r)) locked now table row e,
      count_if-none (λ r. is_due locked now r && not (is_due locked now r)) (rows table)
          (λ r. ground arith),
    )
  ],
  omega (
    arith,
    first-least (keep_if (is_due locked now) (rows table)) row e,
    count_if-keep_if (λ r. due_before r row) (is_due locked now) (rows table),
  ),
)

-- Where a pending delivery is due that no other transaction has locked, a claim with a positive lease
-- takes one: a due and unlocked one that no other of them comes before in the order of due time and id.
-- The row is put off by the lease, and the claim is that row.
pub claim_earliest :
    (locked : ℤ → Bool) (now : Instant) (lease : Duration) (clock : Instant) (table : Table)
    → pos 0 <ℤ lease
    → 1 ≤ count_if (is_due locked now) (rows table)
    → (row : Row) × (is_due locked now row ≡ true)
      × (count_if (λ r. is_due locked now r && due_before r row) (rows table) ≡ 0)
      × (claim_next locked now lease clock table
          ≡ ok (
            update_row row.1.id (leased (add now lease) clock) table,
            some (record {
              delivery = leased (add now lease) clock row.1;
              message = record row.0 { deliveries = [] };
            }),
          ))
unfolding claim_next
claim_earliest locked now lease clock table positive waiting =
    elim (Option-cases (next_due locked now table)) [
      | inl e ↦ ground (arith, waiting, next_due-none locked now table e)
      | inr (row, e) ↦ (
        row,
        (next_due-least locked now table row e).0,
        (next_due-least locked now table row e).1,
        ground (arith, e, positive),
      )
    ]
