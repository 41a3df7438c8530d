-- ===== src/Heartbeat/Validate.antt =====
-- heartbeat/validate.go, and the slug rule of appid/appid.go. An error is its message. The parts of
-- a probe URL and of UTF-8 are net/url's and unicode/utf8's: ValidateProbeConfig takes its tests of
-- the URL and of the body match as arguments.

use irl_notifs.Base.{
  ℕ, ◌+◌, ◌*◌, ℤ, pos, negsuc, ltb_ℤ, leb_ℤ, eqb_ℤ, Text, codes, text_eq, Bool, true, false, ◌&&◌,
  ◌||◌, not, none, some, List, [], ◌∷◌, leb, ◌==◌, length, any, all, if◌then◌else◌, wrap64,
}
use irl_notifs.Heartbeat.Types.{ProbeConfig, PingKind, ping_success, ping_fail, ping_unknown}

-- `err` carries the message of a ValidationError.
pub data Verdict : Type 0 where
  valid : Verdict
  err : Text → Verdict

-- The next check, once one has passed.
infixr 6 ◌then_check◌
abbrev pub ◌then_check◌ : Verdict → Verdict → Verdict
valid then_check v = v
err m then_check v = err m

abbrev pub require : Bool → Text → Verdict
require true m = valid
require false m = err m

is_slug_start : ℕ → Bool
is_slug_start c = leb 97 c && leb c 122 || leb 48 c && leb c 57

is_slug_char : ℕ → Bool
unfolding is_slug_start
is_slug_char c = is_slug_start c || c == 95

-- ^[a-z0-9][a-z0-9_]{0,62}$
unfoldable pub is_slug : Text → Bool
unfolding is_slug_start is_slug_char
is_slug [] = false
is_slug (c ∷ cs) = is_slug_start c && all is_slug_char cs && leb (length cs) 62

pub validate_app_id : Text → Verdict
validate_app_id app_id = require (is_slug app_id) (codes "invalid app_id")

pub validate_name : Text → Verdict
validate_name name = require (is_slug name) (codes "invalid name")

in_range : ℤ → ℕ → ℕ → Bool
in_range n lo hi = not (ltb_ℤ n (pos lo) || ltb_ℤ (pos hi) n)

unfoldable pub validate_period_seconds : ℤ → Verdict
unfolding in_range
validate_period_seconds n = require (in_range n 60 2678400) (codes "invalid period_seconds")

unfoldable pub validate_grace_seconds : ℤ → Verdict
unfolding in_range
validate_grace_seconds n = require (in_range n 60 604800) (codes "invalid grace_seconds")

-- The loop over the names with the set of those seen.
destinations_from : List Text → List Text → Bool
destinations_from seen [] = true
destinations_from seen (name ∷ names) =
    let rest = destinations_from (name ∷ seen) names in
    if not (is_slug name) || any (text_eq name) seen then false else rest

unfoldable pub validate_destinations : List Text → Verdict
unfolding destinations_from
validate_destinations names =
    require (leb 1 (length names) && leb (length names) 20 && destinations_from [] names)
      (codes "invalid destinations")

pub validate_ping_kind : PingKind → Verdict
validate_ping_kind ping_success = valid
validate_ping_kind ping_fail = valid
validate_ping_kind (ping_unknown _) = err (codes "invalid kind")

unfoldable pub validate_schedule : ℤ → ℤ → List Text → Verdict
validate_schedule period grace names =
    validate_period_seconds period
    then_check validate_grace_seconds grace
    then_check validate_destinations names

statuses_from : List ℤ → List ℤ → Bool
unfolding in_range
statuses_from seen [] = true
statuses_from seen (status ∷ statuses) =
    let rest = statuses_from (status ∷ seen) statuses in
    if not (in_range status 100 599) || any (eqb_ℤ status) seen then false else rest

unfoldable pub valid_expected_statuses : List ℤ → Bool
unfolding statuses_from
valid_expected_statuses statuses =
    leb 1 (length statuses) && leb (length statuses) 10 && statuses_from [] statuses

-- validAccessCredential: 1 to 256 printable ASCII bytes.
pub valid_access_credential : Text → Bool
valid_access_credential value =
    leb 1 (length value) && leb (length value) 256 && all (λ c. leb 33 c && leb c 126) value

-- `period, grace` of a probe interval; the product is a Go int.
unfoldable pub derived_schedule : ℤ → ℤ × ℤ
derived_schedule (pos n) = (pos n, wrap64 (pos (n * 4)))
derived_schedule (negsuc n) = (negsuc n, wrap64 (negsuc (n * 4 + 3)))

module _ (valid_probe_url : Text → Bool) (valid_body_match : Text → Bool) where
  unfoldable pub validate_probe_config : ProbeConfig → Verdict
  unfolding in_range
  validate_probe_config config =
      require (valid_probe_url config.url) (codes "invalid probe.url")
      then_check require (valid_expected_statuses config.expected_statuses)
          (codes "invalid probe.expected_statuses")
      then_check require
          (elim config.body_match [ none ↦ true | some text ↦ valid_body_match text ])
          (codes "invalid probe.body_match")
      then_check require (in_range config.interval_seconds 60 86400)
          (codes "invalid probe.interval_seconds")
      then_check require
          (in_range config.timeout_seconds 1 8
            && not (leb_ℤ config.interval_seconds config.timeout_seconds))
          (codes "invalid probe.timeout_seconds")
