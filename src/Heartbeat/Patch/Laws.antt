-- ===== src/Heartbeat/Patch/Laws.antt =====
-- What merging and comparing probe configurations keeps, and the schedule that a probe check gets.
use mathlib.Core.List.{Perm}
use irl_notifs.Base.{
  ℕ, ◌*◌, ◌≤◌, ℤ, pos, negsuc, eqb_ℤ, Text, text_eq, text_eq_refl, ◌≡◌, refl, Bool, true, false,
  ◌&&◌, ◌||◌, Option, none, some, List, arith, is_some, or_else, wrap64_small,
}
use irl_notifs.Heartbeat.Types.{ProbeConfig}
use irl_notifs.Heartbeat.Validate.{
  valid, validate_schedule, validate_period_seconds, validate_grace_seconds, validate_destinations,
  validate_probe_config, derived_schedule,
}
use irl_notifs.Heartbeat.Patch.Statuses.{
  normalize_statuses, normalize-normalize, normalize-perm, statuses_eq_refl,
}
use irl_notifs.Heartbeat.Patch.{
  ProbePatch, AccessTokenPatch, access_token_unchanged, merge_probe_config, probe_config_changed,
}

-- At most one of the two patches names the field.
abbrev pub Apart {ℓ} : {A : Type ℓ} → Option A → Option A → Type 0
Apart a b = (is_some a && is_some b) ≡ false

abbrev pub names_body : ProbePatch → Bool
names_body p = is_some p.body_match || p.clear_body_match

-- No field is named by both patches.
pub record AreDisjoint (p q : ProbePatch) : Type 0 where
  pub url : Apart p.url q.url
  pub statuses : Apart p.expected_statuses q.expected_statuses
  pub body : (names_body p && names_body q) ≡ false
  pub timeout : Apart p.timeout_seconds q.timeout_seconds
  pub interval : Apart p.interval_seconds q.interval_seconds

-- Two patches of a probe config that name different fields give the same config in either order, so
-- neither reverts the other.
pub merge_comm :
    (config : ProbeConfig) (p q : ProbePatch)
    → AreDisjoint p q
    → merge_probe_config (merge_probe_config config (some p)) (some q)
      ≡ merge_probe_config (merge_probe_config config (some q)) (some p)
unfolding merge_probe_config
merge_comm config p q apart = ground (
  arith,
  normalize-normalize config.expected_statuses,
  normalize-normalize (or_else p.expected_statuses config.expected_statuses),
  normalize-normalize (or_else q.expected_statuses config.expected_statuses),
)

eqb_refl : (a : ℤ) → eqb_ℤ a a ≡ true
eqb_refl a = ground arith

-- A merge that names no field, over a config whose statuses are stored in any order, is no change.
pub merge_none_unchanged :
    (config other : ProbeConfig) (token : AccessTokenPatch)
    → token.action ≡ access_token_unchanged
    → Perm config.expected_statuses other.expected_statuses
    → probe_config_changed config
        (merge_probe_config (record config { expected_statuses = other.expected_statuses }) none)
        token
      ≡ false
unfolding probe_config_changed merge_probe_config
merge_none_unchanged config other token keep same = ground (
  arith,
  text_eq_refl config.url,
  eqb_refl config.timeout_seconds,
  eqb_refl config.interval_seconds,
  normalize-normalize other.expected_statuses,
  normalize-perm config.expected_statuses other.expected_statuses same,
  statuses_eq_refl (normalize_statuses config.expected_statuses),
  body_same config.body_match,
)
  where
    body_same : (o : Option Text) → elim o [ none ↦ true | some s ↦ text_eq s s ] ≡ true
    body_same none = refl
    body_same (some s) = text_eq_refl s

-- A probe config that is accepted has an interval of 60 to 86400 seconds.
interval_bounds :
    (url_ok body_ok : Text → Bool) (config : ProbeConfig)
    → validate_probe_config url_ok body_ok config ≡ valid
    → (n : ℕ) × (config.interval_seconds ≡ pos n) × (60 ≤ n) × (n ≤ 86400)
unfolding validate_probe_config
interval_bounds url_ok body_ok config h = bounds config.interval_seconds refl
  where
    bounds :
        (i : ℤ)
        → config.interval_seconds ≡ i
        → (n : ℕ) × (config.interval_seconds ≡ pos n) × (60 ≤ n) × (n ≤ 86400)
    bounds (pos n) e = (n, e, ground arith, ground arith)
    bounds (negsuc n) e = absurd (ground arith)

schedule_of_interval :
    (n : ℕ) (names : List Text)
    → 60 ≤ n
    → n ≤ 86400
    → validate_schedule (derived_schedule (pos n)).0 (derived_schedule (pos n)).1 names
      ≡ validate_destinations names
unfolding validate_schedule derived_schedule validate_period_seconds validate_grace_seconds
schedule_of_interval n names lo hi = rw (wrap64_small (n * 4) (omega arith)) (ground arith)

-- The period and grace that are derived from the interval of an accepted probe config are always in
-- range: what is left to refuse in the schedule is the destination set.
pub derived_schedule_fits :
    (url_ok body_ok : Text → Bool) (config : ProbeConfig) (names : List Text)
    → validate_probe_config url_ok body_ok config ≡ valid
    → let (period, grace) = derived_schedule config.interval_seconds in
      validate_schedule period grace names ≡ validate_destinations names
derived_schedule_fits url_ok body_ok config names h =
    let (n, e, lo, hi) = interval_bounds url_ok body_ok config h in
    rw e (schedule_of_interval n names lo hi)
