-- ===== src/Dispatch/Policy/Bounds.antt =====
-- How long Backoff waits.
use native.Mathlib.Nat.{pow-suc, one-le-pow}
use irl_notifs.Base.{
  ℕ, zero, suc, ◌+◌, ◌*◌, ◌/◌, ◌^◌, ◌≤◌, ◌<◌, min, ℤ, pos, negsuc, ◌≡◌, ◌||◌, Option, none, some,
  arith, Bool-cases, inl, inr,
}
use irl_notifs.Base.Time.{Duration}
use irl_notifs.Dispatch.Policy.{
  Floats, base_backoff, max_backoff, max_retry_after, double_ceiling, ceiling_of, raise_to,
  jitter_fraction, backoff,
}

pow-pos : (k : ℕ) → 0 < 2 ^ k
pow-pos k = one-le-pow k 2 (omega arith)

double-pow : (c k : ℕ) → c * 2 ^ suc k ≡ c * 2 * 2 ^ k
double-pow c k = rw (pow-suc 2 k) (grind arith)

le-double-pow : (c k : ℕ) → c ≤ c * 2 ^ k
le-double-pow c k = grind (arith, pow-pos k)

double_ceiling-min : (k c : ℕ) → min (double_ceiling k c) max_backoff ≡ min (c * 2 ^ k) max_backoff
unfolding double_ceiling
double_ceiling-min zero c = omega arith
double_ceiling-min (suc k) c =
    ground (arith, double-pow c k, double_ceiling-min k (c * 2), le-double-pow c (suc k))

-- The ceiling doubles from 30 s with every attempt after the first, up to one hour.
pub ceiling-eq : (n : ℕ) → ceiling_of (pos (suc n)) ≡ min (base_backoff * 2 ^ n) max_backoff
unfolding ceiling_of
ceiling-eq n = double_ceiling-min n base_backoff

double_ceiling-le : (k c : ℕ) → c ≤ 2 * max_backoff → double_ceiling k c ≤ 2 * max_backoff
unfolding double_ceiling
double_ceiling-le zero c h = h
double_ceiling-le (suc k) c h = ground (arith, double_ceiling-le k (c * 2))

pub ceiling_bounds : (n : ℤ) → (base_backoff ≤ ceiling_of n) × (ceiling_of n ≤ max_backoff)
ceiling_bounds (negsuc n) = (unfold ceiling_of in omega arith, unfold ceiling_of in omega arith)
ceiling_bounds (pos zero) = (unfold ceiling_of in omega arith, unfold ceiling_of in omega arith)
ceiling_bounds (pos (suc n)) =
    rw (ceiling-eq n) (omega (arith, le-double-pow base_backoff n), omega arith)

le-raise_to : (b : ℕ) (r : Option Duration) → b ≤ raise_to b r
unfolding raise_to
le-raise_to b r = ground arith

raise_to-le : (b : ℕ) (r : Option Duration) → b ≤ max_backoff → raise_to b r ≤ max_backoff
unfolding raise_to
raise_to-le b r h = ground arith

raise_to-honours : (b n : ℕ) → min n max_retry_after ≤ raise_to b (some (pos n))
unfolding raise_to
raise_to-honours b n = ground arith

-- What a wait of `b` after the attempt must satisfy.
pub record IsBackoff (attempts : ℤ) (retry_after : Option Duration) (b : ℕ) : Type 0 where
  pub half_ceiling : ceiling_of attempts / 2 ≤ b
  pub at_most_hour : b ≤ max_backoff
  pub at_most_ceiling : retry_after ≡ none → b ≤ ceiling_of attempts
  pub honours_sink : (r : ℕ) → retry_after ≡ some (pos r) → min r max_retry_after ≤ b

module _ (floats : Floats) where
  open floats use {
    Float, zero_float, is_nan, is_negative, min_one, share, share_zero, share_min_one,
  }

  share-le : (random : Option Float) (half : ℕ) → share (jitter_fraction floats random) half ≤ half
  unfolding jitter_fraction
  share-le none half = share_zero half
  share-le (some f) half = elim (Bool-cases (is_nan f || is_negative f)) [
    | inl bad ↦ rw bad (share_zero half)
    | inr good ↦ rw good (share_min_one f half (ground arith) (ground arith))
  ]

  -- For every attempt count, Retry-After and jitter (a nil, NaN, negative or too large one
  -- included), the wait is at least half of the ceiling and at most an hour; without a Retry-After it
  -- is at most the ceiling; and it is never shorter than a Retry-After of up to one hour.
  pub backoff_bounds :
      (attempts : ℤ) (retry_after : Option Duration) (random : Option Float)
      → IsBackoff attempts retry_after (backoff floats attempts retry_after random)
  unfolding backoff
  backoff_bounds attempts retry_after random = record {
    half_ceiling = omega (arith, le-raise_to waited retry_after);
    at_most_hour = raise_to-le waited retry_after (omega (arith, small, ceiling_bounds attempts));
    at_most_ceiling = λ e. rw e (unfold raise_to in omega (arith, small));
    honours_sink = λ n e. rw e (raise_to-honours waited n);
  }
    where
      half : ℕ
      half = ceiling_of attempts / 2

      waited : ℕ
      waited = half + share (jitter_fraction floats random) half

      small : half + share (jitter_fraction floats random) half ≤ ceiling_of attempts
      small = omega (arith, share-le random half)
