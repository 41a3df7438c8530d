-- ===== src/Base/Time.antt =====
-- Go's time.Time and time.Duration. An instant is its nanoseconds from the zero Time (year 1), and a
-- duration its nanoseconds as an int64. `add` of an instant does not wrap: Go keeps the seconds of
-- an instant apart from the nanoseconds, and no stored instant is near the end of their range.
use Prim.Native.Nat.{ℕ, ◌+◌, ◌*◌, ◌≤◌}
use mathlib.Core.Path.{◌≡◌}
use mathlib.Core.Bool.{Bool}
use native.Mathlib.Omega.{arith}
use irl_notifs.Base.Tests.{if◌then◌else◌}
use irl_notifs.Base.Int.{ℤ, pos, negsuc, ◌+ℤ◌, ◌-ℤ◌, ltb_ℤ, eqb_ℤ, wrap64, max_int}

abbrev pub Instant : Type 0
Instant = ℤ

abbrev pub Duration : Type 0
Duration = ℤ

abbrev pub ns_per_second : ℕ
ns_per_second = 1000000000

-- time.Duration(n) * time.Second for an int n.
unfoldable pub seconds : ℤ → Duration
unfolding wrap64
seconds n =
    wrap64
      (elim n [ pos k ↦ pos (k * 1000000000) | negsuc k ↦ negsuc (k * 1000000000 + 999999999) ])

pub seconds_small : (n : ℕ) → n * 1000000000 ≤ max_int → seconds (pos n) ≡ pos (n * 1000000000)
unfolding seconds
seconds_small n h = ground arith

-- t.Add(d).
abbrev pub add : Instant → Duration → Instant
add t d = t +ℤ d

-- t.Sub(u), which stays within int64.
unfoldable pub sub : Instant → Instant → Duration
sub t u =
    let d = t -ℤ u in
    if ltb_ℤ (pos max_int) d
    then pos max_int
    else if ltb_ℤ d (negsuc max_int)
    then negsuc max_int
    else d

-- t.After(u) and t.Before(u).
abbrev pub after : Instant → Instant → Bool
after t u = ltb_ℤ u t

abbrev pub before : Instant → Instant → Bool
before t u = ltb_ℤ t u

abbrev pub is_zero : Instant → Bool
is_zero t = eqb_ℤ t (pos 0)
