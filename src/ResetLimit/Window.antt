-- ===== src/ResetLimit/Window.antt =====
-- What Reserve admits, and how many rows it keeps.
use irl_notifs.Base.{
  ◌≤◌, ◌<◌, ◌≡◌, ◌↔◌, refl, Bool, true, false, ◌&&◌, not, List, [], ◌∷◌, pos, Text, text_eq_iff,
  count_if, arith, ◌≤ℤ◌,
}
use irl_notifs.Base.Time.{Instant}
use irl_notifs.ResetLimit.{
  app_limit, person_limit, ResetAttempt, Clocks, Reservation, reserved, rate_limited, of_app,
  of_person, is_expired, prune, reserve, refusal, max_ℤ,
}

-- A reservation that changes the table: a refused one does not commit.
abbrev pub after_reserve : List ResetAttempt → Reservation → List ResetAttempt
after_reserve rows (reserved next) = next
after_reserve rows (rate_limited wait scope) = rows

abbrev pub is_reserved : Reservation → Bool
is_reserved (reserved next) = true
is_reserved (rate_limited wait scope) = false

-- The unexpired rows that a test takes.
abbrev pub in_window : Instant → (ResetAttempt → Bool) → ResetAttempt → Bool
in_window clock p r = p r && not (is_expired clock r)

count-prune_app :
    (app_id : Text) (clock : Instant) (rows : List ResetAttempt)
    → count_if (of_app app_id) (prune app_id clock rows)
      ≡ count_if (in_window clock (of_app app_id)) rows
unfolding prune
count-prune_app app_id clock [] = refl
count-prune_app app_id clock (r ∷ rows) = ground (arith, count-prune_app app_id clock rows)

count-prune_person :
    (app_id person_hash : Text) (clock : Instant) (rows : List ResetAttempt)
    → count_if (of_person app_id person_hash) (prune app_id clock rows)
      ≡ count_if (in_window clock (of_person app_id person_hash)) rows
unfolding prune of_app of_person
count-prune_person app_id person_hash clock [] = refl
count-prune_person app_id person_hash clock (r ∷ rows) =
    ground (arith, count-prune_person app_id person_hash clock rows)

-- A reset is admitted exactly if the app has made fewer than 30 attempts, and fewer than 3 for this
-- person, that are not older than an hour at the time of the prune.
pub reserve_iff :
    (rows : List ResetAttempt) (app_id person_hash : Text) (clocks : Clocks)
    → (is_reserved (reserve rows app_id person_hash clocks) ≡ true) ↔ (
        (count_if (in_window clocks.at_prune (of_app app_id)) rows < app_limit)
        × (count_if (in_window clocks.at_prune (of_person app_id person_hash)) rows < person_limit))
unfolding reserve refusal
reserve_iff rows app_id person_hash clocks = (
  λ h. ground (
    arith,
    count-prune_app app_id clocks.at_prune rows,
    count-prune_person app_id person_hash clocks.at_prune rows,
  ),
  λ h. ground (
    arith,
    count-prune_app app_id clocks.at_prune rows,
    count-prune_person app_id person_hash clocks.at_prune rows,
  ),
)

-- A call of Reserve: the app, the person, and the clocks.
abbrev pub ReserveCall : Type 0
ReserveCall = Text × Text × Clocks

unfoldable pub reserve_all : List ResetAttempt → List ReserveCall → List ResetAttempt
reserve_all rows [] = rows
reserve_all rows ((app_id, person_hash, clocks) ∷ calls) =
    reserve_all (after_reserve rows (reserve rows app_id person_hash clocks)) calls

-- The limits, for every app and person.
pub record IsWithin (rows : List ResetAttempt) : Type 0 where
  pub apps : (app_id : Text) → count_if (of_app app_id) rows ≤ app_limit
  pub people :
      (app_id person_hash : Text) → count_if (of_person app_id person_hash) rows ≤ person_limit

count-prune_le :
    (p : ResetAttempt → Bool) (app_id : Text) (clock : Instant) (rows : List ResetAttempt)
    → count_if p (prune app_id clock rows) ≤ count_if p rows
unfolding prune
count-prune_le p app_id clock [] = omega arith
count-prune_le p app_id clock (r ∷ rows) = ground (arith, count-prune_le p app_id clock rows)

reserve-apps :
    (rows : List ResetAttempt) (app_id person_hash : Text) (clocks : Clocks) (a : Text)
    → count_if (of_app a) rows ≤ app_limit
    → count_if (of_app a) (after_reserve rows (reserve rows app_id person_hash clocks)) ≤ app_limit
unfolding reserve refusal of_app
reserve-apps rows app_id person_hash clocks a h =
    ground (arith, count-prune_le (of_app a) app_id clocks.at_prune rows, text_eq_iff app_id a)

reserve-people :
    (rows : List ResetAttempt) (app_id person_hash : Text) (clocks : Clocks) (a q : Text)
    → count_if (of_person a q) rows ≤ person_limit
    → count_if (of_person a q) (after_reserve rows (reserve rows app_id person_hash clocks))
      ≤ person_limit
unfolding reserve refusal of_person
reserve-people rows app_id person_hash clocks a q h = ground (
  arith,
  count-prune_le (of_person a q) app_id clocks.at_prune rows,
  text_eq_iff app_id a,
  text_eq_iff person_hash q,
)

-- Any sequence of reservations, of any apps and persons and at any clock readings, keeps the table
-- within the limits: at most 30 rows of an app, and at most 3 of an app and a person.
pub reserve_all-IsWithin :
    (rows : List ResetAttempt) (calls : List ReserveCall)
    → IsWithin rows
    → IsWithin (reserve_all rows calls)
unfolding reserve_all
reserve_all-IsWithin rows [] h = h
reserve_all-IsWithin rows ((app_id, person_hash, clocks) ∷ calls) h =
    reserve_all-IsWithin (after_reserve rows (reserve rows app_id person_hash clocks)) calls
      (record {
        apps = λ a. reserve-apps rows app_id person_hash clocks a (h.apps a);
        people = λ a q. reserve-people rows app_id person_hash clocks a q (h.people a q);
      })

abbrev pub Waits : Reservation → Type 0
Waits (reserved next) = Unit {0}
Waits (rate_limited wait scope) = pos 1 ≤ℤ wait

-- A refusal always names a wait of at least one second.
pub reserve-Waits :
    (rows : List ResetAttempt) (app_id person_hash : Text) (clocks : Clocks)
    → Waits (reserve rows app_id person_hash clocks)
unfolding reserve refusal max_ℤ
reserve-Waits rows app_id person_hash clocks = ground arith
