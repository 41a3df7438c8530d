-- ===== src/Message/Table/Claims/Leases.antt =====
-- Which delivery a claim takes, and that a lease keeps others off it.
use irl_notifs.Base.{
  ℕ, ◌≤◌, ℤ, pos, leb_ℤ, ltb_ℤ, eqb_ℤ, ◌≡◌, refl, inl, inr, Bool, true, false, ◌&&◌, not, Option,
  none, some, List, [], ◌∷◌, ◌++◌, map, any, length, keep_if, count_if, count_if-append,
  count_if-ext, count_if-none, count_if-le, length-keep_if, arith, Bool-cases, Option-cases,
}
use irl_notifs.Base.Time.{Instant, Duration, add}
use irl_notifs.Base.Sorting.{sort_by, count_if-sort_by, count_if-keep_if, length-sort_by}
use irl_notifs.Message.Types.{Delivery, StoredMessage, Claim}
use irl_notifs.Message.Attempts.{ok, err}
use irl_notifs.Message.Table.{Table}
use irl_notifs.Message.Table.Claims.{
  Row, rows, is_due, due_before, first_of, next_due, leased, updated, update_row, claim_next,
}

count_if-map :
    {A B : Type 0} (p : B → Bool) (f : A → B) (xs : List A)
    → count_if p (map f xs) ≡ count_if (λ x. p (f x)) xs
count_if-map p f [] = refl
count_if-map p f (x ∷ xs) = ground (arith, count_if-map p f xs)

first-counted :
    (p : Row → Bool) (row : Row) (rs : List Row)
    → first_of rs ≡ some row
    → p row ≡ true
    → 1 ≤ count_if p rs
first-counted p row [] e h = ground arith
first-counted p row (r ∷ rs) e h = ground (arith, e, h)

-- The row that is claimed stands in the table, and is due.
pub next_due-counted :
    (p : Row → Bool) (locked : ℤ → Bool) (now : Instant) (table : Table) (row : Row)
    → next_due locked now table ≡ some row
    → p row ≡ true
    → 1 ≤ count_if (λ r. is_due locked now r && p r) (rows table)
unfolding next_due
next_due-counted p locked now table row e h = omega (
  arith,
  first-counted p row (sort_by due_before (keep_if (is_due locked now) (rows table))) e h,
  count_if-sort_by p due_before (keep_if (is_due locked now) (rows table)),
  count_if-keep_if p (is_due locked now) (rows table),
)

first_of-none : (rs : List Row) → first_of rs ≡ none → length rs ≡ 0
first_of-none [] e = refl
first_of-none (r ∷ rs) e = ground (arith, e)

pub next_due-none :
    (locked : ℤ → Bool) (now : Instant) (table : Table)
    → next_due locked now table ≡ none
    → count_if (is_due locked now) (rows table) ≡ 0
unfolding next_due
next_due-none locked now table e = omega (
  arith,
  first_of-none (sort_by due_before (keep_if (is_due locked now) (rows table))) e,
  length-sort_by due_before (keep_if (is_due locked now) (rows table)),
  length-keep_if (is_due locked now) (rows table),
)

-- A count of rows by their delivery.
abbrev by_delivery : (Delivery → Bool) → Row → Bool
by_delivery p (m, d) = p d

rows-update_row :
    (p : Delivery → Bool) (id : ℤ) (f : Delivery → Delivery) (table : Table)
    → count_if (by_delivery p) (rows (update_row id f table))
      ≡ count_if (by_delivery (λ d. p (updated id f d))) (rows table)
unfolding rows
rows-update_row p id f [] = refl
rows-update_row p id f (m ∷ table) = omega (
  arith,
  count_if-append (by_delivery p) (map (λ d. (next, d)) (map (updated id f) m.deliveries))
      (rows (update_row id f table)),
  count_if-map (by_delivery p) (λ d. (next, d)) (map (updated id f) m.deliveries),
  count_if-map p (updated id f) m.deliveries,
  count_if-append (by_delivery (λ d. p (updated id f d))) (map (λ d. (m, d)) m.deliveries)
      (rows table),
  count_if-map (by_delivery (λ d. p (updated id f d))) (λ d. (m, d)) m.deliveries,
  rows-update_row p id f table,
)
  where
    next : StoredMessage
    next = record m { deliveries = map (updated id f) m.deliveries }

-- The rows of the id that may be claimed before an instant.
abbrev claimable_before : ℤ → Instant → Delivery → Bool
claimable_before id until d = eqb_ℤ d.id id && ltb_ℤ d.next_attempt_at until

pub record ClaimCall : Type 0 where
  pub locked : ℤ → Bool
  pub now : Instant
  pub lease : Duration
  pub clock : Instant

-- What else happens to the table: a claim, a write to the row of a delivery that keeps its id, a new message,
-- a deletion of the messages that fail a test.
pub data LeaseStep : Type 0 where
  claiming : ClaimCall → LeaseStep
  writing : ℤ → (Delivery → Delivery) → LeaseStep
  inserting : StoredMessage → LeaseStep
  deleting : (StoredMessage → Bool) → LeaseStep

abbrev pub claimed_id : Option Claim → List ℤ
claimed_id none = []
claimed_id (some claim) = claim.delivery.id ∷ []

abbrev pub written : (Delivery → Delivery) → Delivery → Delivery
written f d = record (f d) { id = d.id }

-- The ids of the deliveries that the claims among the steps take, in order.
unfoldable pub claim_all : List LeaseStep → Table → List ℤ
claim_all [] table = []
claim_all (claiming call ∷ steps) table =
    elim (claim_next call.locked call.now call.lease call.clock table) [
      | ok (next, claim) ↦ claimed_id claim ++ claim_all steps next
      | err e ↦ claim_all steps table
    ]
claim_all (writing other f ∷ steps) table = claim_all steps (update_row other (written f) table)
claim_all (inserting m ∷ steps) table = claim_all steps (m ∷ table)
claim_all (deleting fails ∷ steps) table = claim_all steps (keep_if fails table)

-- The claims come before the instant, and no step writes to the row of the id or inserts one.
abbrev pub all_elsewhere : ℤ → Instant → List LeaseStep → Bool
all_elsewhere id until [] = true
all_elsewhere id until (claiming call ∷ steps) =
    ltb_ℤ call.now until && all_elsewhere id until steps
all_elsewhere id until (writing other f ∷ steps) =
    not (eqb_ℤ other id) && all_elsewhere id until steps
all_elsewhere id until (inserting m ∷ steps) =
    not (any (λ d. eqb_ℤ d.id id) m.deliveries) && all_elsewhere id until steps
all_elsewhere id until (deleting fails ∷ steps) = all_elsewhere id until steps

abbrev pub mentions : ℤ → List ℤ → Bool
mentions id ids = any (λ i. eqb_ℤ i id) ids

abbrev lapsed : ℤ → Instant → Table → ℕ
lapsed id until table = count_if (by_delivery (claimable_before id until)) (rows table)

-- While a lease runs, the row that is due is another one.
due-other :
    (id : ℤ) (until : Instant) (locked : ℤ → Bool) (now : Instant) (table : Table) (row : Row)
    → lapsed id until table ≡ 0
    → ltb_ℤ now until ≡ true
    → next_due locked now table ≡ some row
    → eqb_ℤ row.1.id id ≡ false
due-other id until locked now table row none_lapsed early e =
    elim (Bool-cases (eqb_ℤ row.1.id id)) [
      | inr h ↦ h
      | inl h ↦ ground (
        arith,
        h,
        next_due-counted (λ r. eqb_ℤ r.1.id id) locked now table row e h,
        count_if-le (λ r. is_due locked now r && eqb_ℤ r.1.id id)
            (by_delivery (claimable_before id until)) (rows table) (λ r. ground (arith, early)),
      )
    ]

-- Leasing another row leaves the rows of the id alone.
lease-other :
    (id other : ℤ) (until lease_end clock : Instant) (table : Table)
    → eqb_ℤ other id ≡ false
    → lapsed id until (update_row other (leased lease_end clock) table) ≡ lapsed id until table
lease-other id other until lease_end clock table h = omega (
  arith,
  rows-update_row (claimable_before id until) other (leased lease_end clock) table,
  count_if-ext
      (by_delivery (λ d. claimable_before id until (updated other (leased lease_end clock) d)))
      (by_delivery (claimable_before id until)) (rows table) (λ r. ground (arith, h)),
)

-- A lease leaves no row of its delivery that may be claimed before its end.
lease-own :
    (id : ℤ) (until clock : Instant) (table : Table)
    → lapsed id until (update_row id (leased until clock) table) ≡ 0
lease-own id until clock table = omega (
  arith,
  rows-update_row (claimable_before id until) id (leased until clock) table,
  count_if-none (by_delivery (λ d. claimable_before id until (updated id (leased until clock) d)))
      (rows table) (λ r. ground arith),
)

-- A write to another row leaves the rows of the id alone.
write-other :
    (id other : ℤ) (until : Instant) (f : Delivery → Delivery) (table : Table)
    → eqb_ℤ other id ≡ false
    → lapsed id until (update_row other (written f) table) ≡ lapsed id until table
write-other id other until f table h = omega (
  arith,
  rows-update_row (claimable_before id until) other (written f) table,
  count_if-ext (by_delivery (λ d. claimable_before id until (updated other (written f) d)))
      (by_delivery (claimable_before id until)) (rows table) (λ r. ground (arith, h)),
)

lapsed_insert :
    (id : ℤ) (until : Instant) (m : StoredMessage) (table : Table)
    → any (λ d. eqb_ℤ d.id id) m.deliveries ≡ false
    → lapsed id until (m ∷ table) ≡ lapsed id until table
unfolding rows
lapsed_insert id until m table h = omega (
  arith,
  count_if-append (by_delivery (claimable_before id until)) (map (λ d. (m, d)) m.deliveries)
      (rows table),
  count_if-map (by_delivery (claimable_before id until)) (λ d. (m, d)) m.deliveries,
  none_claimable m.deliveries h,
)
  where
    none_claimable :
        (ds : List Delivery)
        → any (λ d. eqb_ℤ d.id id) ds ≡ false
        → count_if (claimable_before id until) ds ≡ 0
    none_claimable [] h = refl
    none_claimable (d ∷ ds) h = ground (arith, h, none_claimable ds)

lapsed_delete :
    (id : ℤ) (until : Instant) (p : StoredMessage → Bool) (table : Table)
    → lapsed id until (keep_if p table) ≤ lapsed id until table
unfolding rows
lapsed_delete id until p [] = omega arith
lapsed_delete id until p (m ∷ table) = ground (
  arith,
  lapsed_delete id until p table,
  count_if-append (by_delivery (claimable_before id until)) (map (λ d. (m, d)) m.deliveries)
      (rows table),
  count_if-append (by_delivery (claimable_before id until)) (map (λ d. (m, d)) m.deliveries)
      (rows (keep_if p table)),
)

claims_keep_off :
    (id : ℤ) (until : Instant) (steps : List LeaseStep) (table : Table)
    → all_elsewhere id until steps ≡ true
    → lapsed id until table ≡ 0
    → mentions id (claim_all steps table) ≡ false
unfolding claim_all claim_next
claims_keep_off id until [] table early none_lapsed = refl
claims_keep_off id until (claiming call ∷ steps) table early none_lapsed =
    elim (Option-cases (next_due call.locked call.now table)) [
      | inl e ↦
          rw (e, claim_all, claim_next) ground (arith, early, claims_keep_off id until steps table)
      | inr (row, e) ↦
          rw (e, claim_all, claim_next) ground
            (
              arith,
              early,
              due-other id until call.locked call.now table row none_lapsed,
              e,
              lease-other id row.1.id until (add call.now call.lease) call.clock table,
              claims_keep_off id until steps table,
              claims_keep_off id until steps
                  (update_row row.1.id (leased (add call.now call.lease) call.clock) table),
            )
    ]
claims_keep_off id until (writing other f ∷ steps) table early none_lapsed = ground (
  arith,
  early,
  write-other id other until f table,
  claims_keep_off id until steps (update_row other (written f) table),
)
claims_keep_off id until (inserting m ∷ steps) table early none_lapsed =
    ground
      (arith, early, lapsed_insert id until m table, claims_keep_off id until steps (m ∷ table))
claims_keep_off id until (deleting p ∷ steps) table early none_lapsed =
    claims_keep_off id until steps (keep_if p table) early
      (omega (arith, lapsed_delete id until p table))

-- Once a delivery is claimed, no later claim takes it before its lease ends, whichever rows the other
-- claims find locked, and whatever other deliveries are written, messages inserted and messages deleted
-- in between. A write to its own row (a recorded attempt, a replay, a release, a replacement) is not
-- among these steps, since it may make the delivery due again.
pub exclusive_lease :
    (locked : ℤ → Bool) (now : Instant) (lease : Duration) (clock : Instant) (table next : Table)
    (claim : Claim) (steps : List LeaseStep)
    → claim_next locked now lease clock table ≡ ok (next, some claim)
    → all_elsewhere claim.delivery.id (add now lease) steps ≡ true
    → mentions claim.delivery.id (claim_all steps next) ≡ false
unfolding claim_next
exclusive_lease locked now lease clock table next claim steps claimed early =
    elim (Bool-cases (leb_ℤ lease (pos 0))) [
      | inl h ↦ ground (arith, h, claimed)
      | inr h ↦ elim (Option-cases (next_due locked now table)) [
        | inl e ↦ ground (arith, h, e, claimed)
        | inr (row, e) ↦ ground (
          arith,
          h,
          e,
          claimed,
          early,
          lease-own row.1.id (add now lease) clock table,
          claims_keep_off row.1.id (add now lease) steps
              (update_row row.1.id (leased (add now lease) clock) table),
        )
      ]
    ]
