-- ===== src/Dispatch/Release/Draining.antt =====
-- What a run of the releaser (dispatch/release.go) releases, and what it leaves alone.
use irl_notifs.Base.{
  ℕ, zero, suc, eqb_ℤ, text_eq, ◌||◌, ap, negsuc, ◌+◌, ◌-◌, ◌*◌, ◌≤◌, ltb, min, ℤ, pos, ◌≤ℤ◌, ◌≡◌,
  refl, ap, ◌∙◌, inl, inr, Text, Bool, true, false, ◌&&◌, not, ◌++◌, List, [], ◌∷◌, any, map,
  length, keep_if, count_if, length-keep_if, count_if-append, count_if-ext, count_if-none,
  count_if-le, arith, Bool-cases,
}
use irl_notifs.Base.Time.{Instant, is_zero}
use irl_notifs.Base.Sorting.{
  sort_by, drop, length-sort_by, count_if-sort_by, count_if-drop_all, count_if-keep_if,
  count_if_split,
}
use irl_notifs.Message.Types.{Delivery, StoredMessage}
use irl_notifs.Message.Attempts.{is_pending}
use irl_notifs.Message.Lifecycle.{is_scheduled, release_delivery, release_due}
use irl_notifs.Message.Table.{Table}
use irl_notifs.Message.Table.Releases.{
  is_due_scheduled, has_due, released_before, release_unlocked, take, release_first,
  release_due_messages,
}
use irl_notifs.Dispatch.Release.{Turn, drain, release_run}

-- The UPDATE leaves no delivery scheduled that is due.
released_none_due :
    (now : Instant) (ds : List Delivery)
    → any (is_due_scheduled now) (map (release_delivery now) ds) ≡ false
unfolding release_delivery is_scheduled
released_none_due now [] = refl
released_none_due now (d ∷ ds) = ground (arith, released_none_due now ds)

release_due_none_due : (now : Instant) (m : StoredMessage) → has_due now (release_due m now) ≡ false
unfolding has_due release_due
release_due_none_due now m = released_none_due now m.deliveries

-- No message is locked by another transaction.
abbrev pub all_free : Text → Bool
all_free id = false

take_released :
    (now : Instant) (n : ℕ) (table : Table)
    → count_if (has_due now) (map (release_unlocked all_free now) (take n table)) ≡ 0
unfolding release_unlocked
take_released now zero table = refl
take_released now (suc n) [] = refl
take_released now (suc n) (m ∷ table) =
    ground (arith, release_due_none_due now m, take_released now n table)

take_counted :
    (n : ℕ) (table : Table)
    → count_if (λ m. not (all_free m.id)) (take n table) ≡ min n (length table)
take_counted zero table = omega arith
take_counted (suc n) [] = omega arith
take_counted (suc n) (m ∷ table) = ground (arith, take_counted n table)

abbrev due_rows : Instant → Table → Table
due_rows now table = sort_by (released_before now) (keep_if (has_due now) table)

release_first_rows :
    (now : Instant) (limit : ℕ) (table : Table)
    → count_if (has_due now) (release_first all_free now limit table).0
      ≡ count_if (has_due now) (keep_if (λ m. not (has_due now m)) table)
        + (count_if
              (has_due now)
              (map (release_unlocked all_free now) (take limit (due_rows now table)))
            + count_if (has_due now) (drop limit (due_rows now table)))
unfolding release_first
release_first_rows now limit table =
    count_if-append (has_due now) (keep_if (λ m. not (has_due now m)) table) (
      map (release_unlocked all_free now) (take limit (due_rows now table))
      ++ drop limit (due_rows now table))
    ∙ ap (λ n. count_if (has_due now) (keep_if (λ m. not (has_due now m)) table) + n)
        (count_if-append (has_due now)
          (map (release_unlocked all_free now) (take limit (due_rows now table)))
          (drop limit (due_rows now table)))

release_first_counts :
    (now : Instant) (limit : ℕ) (table : Table)
    → (count_if (has_due now) (release_first all_free now limit table).0
        ≡ count_if (has_due now) table - limit)
      × ((release_first all_free now limit table).1 ≡ min limit (count_if (has_due now) table))
unfolding release_first
release_first_counts now limit table = (
  omega (
    arith,
    release_first_rows now limit table,
    count_if-keep_if (has_due now) (λ m. not (has_due now m)) table,
    count_if-none (λ m. not (has_due now m) && has_due now m) table (λ m. ground arith),
    take_released now limit (due_rows now table),
    count_if-drop_all (has_due now) limit (due_rows now table) all_due,
    size,
  ),
  omega (arith, size, take_counted limit (due_rows now table)),
)
  where
    size : length (due_rows now table) ≡ count_if (has_due now) table
    size = omega (
      arith,
      length-sort_by (released_before now) (keep_if (has_due now) table),
      length-keep_if (has_due now) table,
    )

    all_due : count_if (has_due now) (due_rows now table) ≡ length (due_rows now table)
    all_due = omega (
      arith,
      size,
      count_if-sort_by (has_due now) (released_before now) (keep_if (has_due now) table),
      count_if-keep_if (has_due now) (has_due now) table,
      count_if-ext (λ m. has_due now m && has_due now m) (has_due now) table (λ m. ground arith),
    )

-- A run that nothing stops, at one time of the clock.
abbrev pub undisturbed : Instant → ℕ → Turn
undisturbed t i = record { stopped = false; now = t; locked = all_free }

drain_counts :
    (now : Instant) (n left total : ℕ) (table : Table)
    → is_zero now ≡ false
    → (count_if (has_due now) (drain (undisturbed now) (pos (suc n)) left total table).0
        ≡ count_if (has_due now) table - left * suc n)
      × ((drain (undisturbed now) (pos (suc n)) left total table).1
          ≡ total + min (left * suc n) (count_if (has_due now) table))
unfolding drain release_due_messages
drain_counts now n zero total table set = ground arith
drain_counts now n (suc left) total table set =
    rw (set, drain, release_due_messages)
      elim (Bool-cases (ltb (release_first all_free now (suc n) table).1 (suc n))) [
        | inl e ↦ ground (arith, e, release_first_counts now (suc n) table)
        | inr e ↦ ground (
          arith,
          e,
          release_first_counts now (suc n) table,
          drain_counts now n left (total + (release_first all_free now (suc n) table).1)
              (release_first all_free now (suc n) table).0 set,
        )
      ]

-- A delivery that was released at an instant: pending, due then, and its budget started then.
unfoldable pub is_released : Instant → Delivery → Bool
is_released now d =
    is_pending d.state && eqb_ℤ d.next_attempt_at now && eqb_ℤ d.budget_started_at now

-- The message has the delivery of the id, released at the instant or scheduled and due by then.
abbrev pub has_delivery : Instant → Text → ℤ → StoredMessage → Bool
has_delivery now message_id id m =
    text_eq m.id message_id
    && any (λ d. eqb_ℤ d.id id && (is_released now d || is_due_scheduled now d)) m.deliveries

release_keeps_delivery :
    (now : Instant) (id : ℤ) (ds : List Delivery)
    → any
        (λ d. eqb_ℤ d.id id && (is_released now d || is_due_scheduled now d))
        (map (release_delivery now) ds)
      ≡ any (λ d. eqb_ℤ d.id id && (is_released now d || is_due_scheduled now d)) ds
unfolding release_delivery is_scheduled is_released
release_keeps_delivery now id [] = refl
release_keeps_delivery now id (d ∷ ds) = ground (arith, release_keeps_delivery now id ds)

has_delivery_released :
    (now : Instant) (message_id : Text) (id : ℤ) (m : StoredMessage)
    → has_delivery now message_id id (release_unlocked all_free now m)
      ≡ has_delivery now message_id id m
unfolding release_unlocked release_due
has_delivery_released now message_id id m =
    ap (λ b. text_eq m.id message_id && b) (release_keeps_delivery now id m.deliveries)

count_if-map_same :
    (q : StoredMessage → Bool) (f : StoredMessage → StoredMessage) (n : ℕ) (table : Table)
    → ((m : StoredMessage) → q (f m) ≡ q m)
    → count_if q (map f (take n table)) + count_if q (drop n table) ≡ count_if q table
count_if-map_same q f zero table same = omega arith
count_if-map_same q f (suc n) [] same = omega arith
count_if-map_same q f (suc n) (m ∷ table) same =
    ground (arith, same m, count_if-map_same q f n table same)

-- A batch keeps the count of a test that a release does not change.
release_first_same :
    (q : StoredMessage → Bool) (now : Instant) (limit : ℕ) (table : Table)
    → ((m : StoredMessage) → q (release_unlocked all_free now m) ≡ q m)
    → count_if q (release_first all_free now limit table).0 ≡ count_if q table
unfolding release_first
release_first_same q now limit table same = omega (
  arith,
  count_if-append q (keep_if (λ m. not (has_due now m)) table) (
      map (release_unlocked all_free now) (take limit (due_rows now table))
      ++ drop limit (due_rows now table)),
  count_if-append q (map (release_unlocked all_free now) (take limit (due_rows now table)))
      (drop limit (due_rows now table)),
  count_if-map_same q (release_unlocked all_free now) limit (due_rows now table) same,
  count_if-sort_by q (released_before now) (keep_if (has_due now) table),
  count_if-keep_if q (has_due now) table,
  count_if-keep_if q (λ m. not (has_due now m)) table,
  count_if_split q (has_due now) table,
)

drain_same :
    (q : StoredMessage → Bool) (now : Instant) (n left total : ℕ) (table : Table)
    → ((m : StoredMessage) → q (release_unlocked all_free now m) ≡ q m)
    → count_if q (drain (undisturbed now) (pos (suc n)) left total table).0 ≡ count_if q table
unfolding drain release_due_messages
drain_same q now n zero total table same = refl
drain_same q now n (suc left) total table same = ground (
  arith,
  release_first_same q now (suc n) table same,
  drain_same q now n left (total + (release_first all_free now (suc n) table).1)
      (release_first all_free now (suc n) table).0 same,
)

-- A run that nothing stops, whose clock stands at one time and that finds no message locked, takes the
-- messages with a due scheduled delivery, up to 50 batches of 100, tells how many, and wakes the worker
-- exactly if there was one. Every delivery, told by its id and its message's, that is scheduled and due
-- before the run is so still or is released behind it: pending, due at that time, its budget started then.
pub release_run_complete :
    (now : Instant) (table : Table) (message_id : Text) (id : ℤ)
    → is_zero now ≡ false
    → (count_if (has_due now) (release_run (undisturbed now) table).0
        ≡ count_if (has_due now) table - 5000)
      × ((release_run (undisturbed now) table).1 ≡ min 5000 (count_if (has_due now) table))
      × ((release_run (undisturbed now) table).2 ≡ ltb 0 (count_if (has_due now) table))
      × (count_if (has_delivery now message_id id) (release_run (undisturbed now) table).0
          ≡ count_if (has_delivery now message_id id) table)
unfolding release_run
release_run_complete now table message_id id set =
    let (left, released) = drain_counts now 99 50 0 table set in
    (
      ground (arith, left),
      ground (arith, released),
      ground (arith, released),
      drain_same (has_delivery now message_id id) now 99 50 0 table
          (has_delivery_released now message_id id),
    )

due_by :
    (now t : Instant) (ds : List Delivery)
    → now ≤ℤ t
    → any (is_due_scheduled now) ds ≡ true
    → any (is_due_scheduled t) ds ≡ true
unfolding is_scheduled
due_by now t [] h e = ground (arith, e)
due_by now t (d ∷ ds) h e = elim (Bool-cases (is_due_scheduled now d)) [
  | inl f ↦ ground (arith, f, h)
  | inr f ↦ ground (arith, f, h, e, due_by now t ds h)
]

-- The messages that have no delivery due by an instant.
module _ (t : Instant) (q : StoredMessage → Bool) where
  abbrev not_due : StoredMessage → Bool
  not_due m = not (has_due t m) && q m

  not_due_later :
      (now : Instant) (m : StoredMessage)
      → now ≤ℤ t
      → not_due m ≡ true
      → not (has_due now m) && not_due m ≡ true
  unfolding has_due
  not_due_later now m h e = ground (arith, e, due_by now t m.deliveries h)

  release_first_keeps :
      (locked : Text → Bool) (now : Instant) (limit : ℕ) (table : Table)
      → now ≤ℤ t
      → count_if not_due table ≤ count_if not_due (release_first locked now limit table).0
  unfolding release_first
  release_first_keeps locked now limit table h = omega (
    arith,
    count_if-append not_due (keep_if (λ m. not (has_due now m)) table) (
        map (release_unlocked locked now) (take limit (due_rows now table))
        ++ drop limit (due_rows now table)),
    count_if-keep_if not_due (λ m. not (has_due now m)) table,
    count_if-le not_due (λ m. not (has_due now m) && not_due m) table (λ m. not_due_later now m h),
  )

  drain_keeps :
      (turn : ℕ → Turn) (batch : ℤ) (left total : ℕ) (table : Table)
      → ((i : ℕ) → (turn i).now ≤ℤ t)
      → count_if not_due table ≤ count_if not_due (drain turn batch left total table).0
  unfolding drain release_due_messages
  drain_keeps turn (negsuc n) zero total table h = omega arith
  drain_keeps turn (negsuc n) (suc left) total table h = ground arith
  drain_keeps turn (pos zero) zero total table h = omega arith
  drain_keeps turn (pos zero) (suc left) total table h = ground arith
  drain_keeps turn (pos (suc n)) zero total table h = omega arith
  drain_keeps turn (pos (suc n)) (suc left) total table h = ground (
    arith,
    release_first_keeps (turn 0).locked (turn 0).now (suc n) table (h 0),
    drain_keeps (λ i. turn (suc i)) (pos (suc n)) left
        (total + (release_first (turn 0).locked (turn 0).now (suc n) table).1)
        (release_first (turn 0).locked (turn 0).now (suc n) table).0 (λ i. h (suc i)),
  )

  -- However a run goes, with whatever messages locked, it leaves alone every message that has no delivery due
  -- by the last time of its clock: of those that pass a further test, no fewer are there behind it.
  pub release_run_keeps :
      (turn : ℕ → Turn) (table : Table)
      → ((i : ℕ) → (turn i).now ≤ℤ t)
      → count_if not_due table ≤ count_if not_due (release_run turn table).0
  unfolding release_run
  release_run_keeps turn table h = drain_keeps turn (pos 100) 50 0 table h
