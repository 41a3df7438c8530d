-- ===== src/Message/Status/Laws.antt =====
-- The status of a message against a description by quantifiers.
use irl_notifs.Base.{
  suc, ◌+◌, ◌≤◌, ◌<◌, ◌≡◌, refl, sym, inl, inr, Bool, true, false, ◌||◌, not, none, some, List, [],
  ◌∷◌, arith, ◌==◌, length, all, count_if, is_some, if◌then◌else◌, Bool-cases,
}
use irl_notifs.Message.Types.{
  state_delivered, state_dead, state_scheduled, state_cancelled, Status, status_pending,
  status_delivered, status_dead, status_partial, status_scheduled, status_cancelled,
  status_unrouted, status_release_failed, Delivery, MessageState,
}
use irl_notifs.Message.Status.{Tally, tally, of_tally, of_deliveries, derive_status}

abbrev pub delivered : Delivery → Bool
delivered d = elim d.state [ state_delivered ↦ true | _ ↦ false ]

abbrev pub dead : Delivery → Bool
dead d = elim d.state [ state_dead ↦ true | _ ↦ false ]

abbrev pub scheduled : Delivery → Bool
scheduled d = elim d.state [ state_scheduled ↦ true | _ ↦ false ]

abbrev pub cancelled : Delivery → Bool
cancelled d = elim d.state [ state_cancelled ↦ true | _ ↦ false ]

abbrev pub finished : Delivery → Bool
finished d = delivered d || dead d

-- The status of a message with deliveries and no state of its own, by what all of them are.
abbrev pub status_by_quantifiers : List Delivery → Status
status_by_quantifiers ds =
    if all scheduled ds
    then status_scheduled
    else if all cancelled ds
    then status_cancelled
    else if not (all finished ds)
    then status_pending
    else if all delivered ds
    then status_delivered
    else if all dead ds
    then status_dead
    else status_partial

counted : Delivery → Bool
counted d = delivered d || dead d || scheduled d || cancelled d

tally-none : (t : Tally) (ds : List Delivery) → all counted ds ≡ false → tally t ds ≡ none
unfolding tally counted
tally-none t [] h = ground arith
tally-none t (d ∷ ds) h = ground (
  arith,
  tally-none (record t { delivered = suc t.delivered }) ds,
  tally-none (record t { dead = suc t.dead }) ds,
  tally-none (record t { scheduled = suc t.scheduled }) ds,
  tally-none (record t { cancelled = suc t.cancelled }) ds,
)

-- The counters after the loop.
abbrev counts_from : Tally → List Delivery → Tally
counts_from t ds = record {
  delivered = t.delivered + count_if delivered ds;
  dead = t.dead + count_if dead ds;
  scheduled = t.scheduled + count_if scheduled ds;
  cancelled = t.cancelled + count_if cancelled ds;
}

tally_counts :
    (t : Tally) (ds : List Delivery) → all counted ds ≡ true → tally t ds ≡ some (counts_from t ds)
unfolding tally counted
tally_counts t [] h = ground arith
tally_counts t (d ∷ ds) h = ground (
  arith,
  tally_counts (record t { delivered = suc t.delivered }) ds,
  tally_counts (record t { dead = suc t.dead }) ds,
  tally_counts (record t { scheduled = suc t.scheduled }) ds,
  tally_counts (record t { cancelled = suc t.cancelled }) ds,
)

count_if-le {ℓ} : {A : Type ℓ} (p : A → Bool) (xs : List A) → count_if p xs ≤ length xs
count_if-le p [] = omega arith
count_if-le p (x ∷ xs) = ground (arith, count_if-le p xs)

all-count_if {ℓ} :
    {A : Type ℓ} (p : A → Bool) (xs : List A) → all p xs ≡ (count_if p xs == length xs)
all-count_if p [] = refl
all-count_if p (x ∷ xs) = ground (arith, all-count_if p xs, count_if-le p xs)

counts_sum :
    (ds : List Delivery)
    → all counted ds ≡ true
    → length ds
      ≡ count_if delivered ds + count_if dead ds + count_if scheduled ds + count_if cancelled ds
unfolding counted
counts_sum [] h = refl
counts_sum (d ∷ ds) h = ground (arith, counts_sum ds)

finished_sum :
    (ds : List Delivery) → count_if finished ds ≡ count_if delivered ds + count_if dead ds
finished_sum [] = refl
finished_sum (d ∷ ds) = ground (arith, finished_sum ds)

counted_of :
    (p : Delivery → Bool) (ds : List Delivery)
    → ((d : Delivery) → p d ≡ true → counted d ≡ true)
    → all p ds ≡ true
    → all counted ds ≡ true
counted_of p [] f h = refl
counted_of p (d ∷ ds) f h = ground (arith, f d, counted_of p ds f)

-- The part of `counted` that each description needs.
uncounted_pending :
    (ds : List Delivery) → all counted ds ≡ false → status_by_quantifiers ds ≡ status_pending
unfolding counted
uncounted_pending ds h = ground (
  arith,
  counted_of scheduled ds (λ d e. ground arith),
  counted_of cancelled ds (λ d e. ground arith),
  counted_of finished ds (λ d e. ground arith),
)

abbrev zeros : Tally
zeros = record { delivered = 0; dead = 0; scheduled = 0; cancelled = 0 }

-- What the two switches make of the counters.
of_counts :
    (ds : List Delivery)
    → all counted ds ≡ true
    → 0 < length ds
    → of_tally (length ds) (counts_from zeros ds) ≡ status_by_quantifiers ds
unfolding of_tally
of_counts ds h more =
    rw
      (
        all-count_if scheduled ds,
        all-count_if cancelled ds,
        all-count_if finished ds,
        all-count_if delivered ds,
        all-count_if dead ds,
      )
      (ground (arith, counts_sum ds h, finished_sum ds))

of_deliveries-eq :
    (d : Delivery) (ds : List Delivery) → of_deliveries (d ∷ ds) ≡ status_by_quantifiers (d ∷ ds)
unfolding of_deliveries
of_deliveries-eq d ds = elim (Bool-cases (all counted (d ∷ ds))) [
  | inl h ↦ rw (tally_counts zeros (d ∷ ds) h, of_deliveries) (of_counts (d ∷ ds) h (omega arith))
  | inr h ↦ rw (tally-none zeros (d ∷ ds) h, of_deliveries) (sym (uncounted_pending (d ∷ ds) h))
]

-- The status of a message that has deliveries: cancelled, unrouted or release_failed where the
-- message's own state says so, in this order; else scheduled, cancelled, delivered or dead if all
-- its deliveries are, partial if all are delivered or dead and some of each, and pending otherwise.
pub derive_status-eq :
    (d : Delivery) (ds : List Delivery) (state : MessageState)
    → derive_status (d ∷ ds) state ≡ (
        if is_some state.cancelled_at
        then status_cancelled
        else if is_some state.held_at
        then status_unrouted
        else if is_some state.release_failed_at
        then status_release_failed
        else status_by_quantifiers (d ∷ ds))
unfolding derive_status
derive_status-eq d ds state = ground (arith, of_deliveries-eq d ds)
