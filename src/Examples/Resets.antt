-- ===== src/Examples/Resets.antt =====
-- The limit on reset-password calls at a table with one recent and one expired attempt.
use irl_notifs.Base.{◌<◌, pos, codes, ◌≡◌, ◌↔◌, true, List, [], ◌∷◌, arith, count_if}
use irl_notifs.ResetLimit.{
  ResetAttempt, Clocks, of_app, of_person, reserve, app_limit, person_limit,
}
use irl_notifs.ResetLimit.Window.{
  IsWithin, ReserveCall, in_window, is_reserved, reserve_all, reserve_iff, reserve_all-IsWithin,
}

abbrev noon : Clocks
noon = record {
  at_prune = pos 7200000000000;
  at_app_count = pos 7200000000000;
  at_person_count = pos 7200000000000;
  at_start = pos 7199999999000;
}

abbrev attempts : List ResetAttempt
attempts =
    record { app_id = codes "a"; person_hash = codes "p"; attempted_at = pos 7000000000000 }
    ∷ record { app_id = codes "a"; person_hash = codes "p"; attempted_at = pos 1000000000000 }
    ∷ []

reserve_iff_example : (is_reserved (reserve attempts (codes "a") (codes "p") noon) ≡ true) ↔ (
    (count_if (in_window (pos 7200000000000) (of_app (codes "a"))) attempts < app_limit)
    × (count_if (in_window (pos 7200000000000) (of_person (codes "a") (codes "p"))) attempts
        < person_limit))
reserve_iff_example = reserve_iff attempts (codes "a") (codes "p") noon

attempts-IsWithin : IsWithin attempts
attempts-IsWithin = record { apps = λ a. ground arith; people = λ a q. ground arith }

abbrev four_calls : List ReserveCall
four_calls =
    (codes "a", codes "p", noon)
    ∷ (codes "a", codes "p", noon)
    ∷ (codes "a", codes "p", noon)
    ∷ (codes "b", codes "p", noon)
    ∷ []

reserve_all-IsWithin_example : IsWithin (reserve_all attempts four_calls)
reserve_all-IsWithin_example = reserve_all-IsWithin attempts four_calls attempts-IsWithin
