-- ===== src/Provisioning/Throttle/Sweep.antt =====
-- The lists of the map, and that a sweep forgets no attempt in the window.
use irl_notifs.Base.{
  ◌≤◌, leb_ℤ, Text, text_eq, text_eq_iff, text_eq_refl, ◌≡◌, refl, inl, inr, Bool, true, false, not,
  none, some, List, [], ◌∷◌, all, count_if, keep_if, is_some, arith, Bool-cases, Option-cases,
}
use irl_notifs.Base.Time.{Instant, after}
use irl_notifs.Provisioning.Throttle.{Attempts, times_of, set_times, last_of, has_expired}

-- The last time of a list is its latest.
abbrev pub is_latest_last : List Instant → Bool
is_latest_last times = elim (last_of times) [ none ↦ true | some t ↦ all (λ u. leb_ℤ u t) times ]

-- Every list of attempts ends in its latest.
abbrev pub all_latest_last : Attempts → Bool
all_latest_last attempts = all (λ entry. is_latest_last entry.1) attempts

pub times-set_times :
    (key : Text) (times : List Instant) (attempts : Attempts)
    → times_of key (set_times key times attempts) ≡ times
times-set_times key times [] = ground (arith, text_eq_refl key)
times-set_times key times ((k, old) ∷ rest) = elim (Bool-cases (text_eq k key)) [
  | inl e ↦ ground (arith, e, text_eq_refl key)
  | inr e ↦ ground (arith, e, times-set_times key times rest)
]

pub times-set_other :
    (key other : Text) (times : List Instant) (attempts : Attempts)
    → text_eq other key ≡ false
    → times_of key (set_times other times attempts) ≡ times_of key attempts
times-set_other key other times [] h = ground (arith, h)
times-set_other key other times ((k, old) ∷ rest) h = elim (Bool-cases (text_eq k other)) [
  | inl e ↦ ground (arith, e, h, text_eq_iff k other)
  | inr e ↦ ground (arith, e, h, times-set_other key other times rest h)
]

-- Where the latest of a list has left the window, all have.
none_recent :
    (start last : Instant) (times : List Instant)
    → all (λ u. leb_ℤ u last) times ≡ true
    → after last start ≡ false
    → keep_if (λ t. after t start) times ≡ []
none_recent start last [] h old = refl
none_recent start last (t ∷ times) h old = ground (arith, h, old, none_recent start last times)

last-none : (t : Instant) (times : List Instant) → is_some (last_of (t ∷ times)) ≡ true
last-none t [] = refl
last-none t (u ∷ times) = last-none u times

empty_recent :
    (start : Instant) (times : List Instant)
    → last_of times ≡ none
    → keep_if (λ t. after t start) times ≡ []
empty_recent start [] h = refl
empty_recent start (t ∷ times) h = ground (arith, h, last-none t times)

expired-none :
    (start : Instant) (times : List Instant)
    → is_latest_last times ≡ true
    → has_expired start times ≡ true
    → keep_if (λ t. after t start) times ≡ []
unfolding has_expired
expired-none start times h e = elim (Option-cases (last_of times)) [
  | inl no_last ↦ empty_recent start times no_last
  | inr (last, found) ↦
      none_recent start last times (ground (arith, h, found)) (ground (arith, e, found))
]

abbrev pub has_key : Text → Text × List Instant → Bool
has_key key entry = text_eq entry.0 key

absent-swept :
    (key : Text) (start : Instant) (attempts : Attempts)
    → count_if (has_key key) attempts ≤ 0
    → times_of key (keep_if (λ entry. not (has_expired start entry.1)) attempts) ≡ []
absent-swept key start [] h = refl
absent-swept key start ((k, times) ∷ rest) h = ground (arith, h, absent-swept key start rest)

-- A sweep drops no attempt that is still in the window.
pub sweep-recent :
    (key : Text) (start : Instant) (attempts : Attempts)
    → all_latest_last attempts ≡ true
    → count_if (has_key key) attempts ≤ 1
    → keep_if
        (λ t. after t start)
        (times_of key (keep_if (λ entry. not (has_expired start entry.1)) attempts))
      ≡ keep_if (λ t. after t start) (times_of key attempts)
sweep-recent key start [] h once = refl
sweep-recent key start ((k, times) ∷ rest) h once = elim (Bool-cases (has_expired start times)) [
  | inl e ↦ ground (
    arith,
    e,
    h,
    once,
    expired-none start times,
    absent-swept key start rest,
    sweep-recent key start rest,
  )
  | inr e ↦ ground (arith, e, h, once, sweep-recent key start rest)
]
