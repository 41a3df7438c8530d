-- ===== src/Message/Service/Config.antt =====
-- NewService of message/service.go and the settings it is given from the environment (with envint/envint.go).
-- strconv.Atoi is a parameter.
use irl_notifs.Base.{
  ℕ, ◌≤◌, ℤ, pos, ltb_ℤ, leb_ℤ, ◌≤ℤ◌, ◌<ℤ◌, Text, codes, text_eq, ◌≡◌, Bool, true, false, ◌||◌,
  Option, none, some, [], ◌∷◌, arith, if◌then◌else◌,
}
use irl_notifs.Base.Time.{Duration}
use irl_notifs.Message.Targets.{Service}

-- ServiceConfig without its functions and its logger. A nil Publishers is `has_publishers` false.
pub record ServiceConfig : Type 0 where
  pub supported_types : Text → Bool
  pub has_publishers : Bool
  pub poll_interval : Duration
  pub max_concurrent_awaits : ℤ
  pub max_scheduled_per_app : ℤ
  pub max_scheduled_total : ℤ
  pub hold_unrouted : Bool
  pub max_held_per_app : ℤ
  pub max_held_total : ℤ

-- A value that is not positive takes its default.
unfoldable pub or_default : ℤ → ℕ → ℤ
or_default value default = if leb_ℤ value (pos 0) then pos default else value

-- The Service, the interval of Await and its number of places.
unfoldable pub new_service : ServiceConfig → Service × Duration × ℤ
unfolding or_default
new_service config = (
  record {
    supported_types = config.supported_types;
    has_publishers = config.has_publishers;
    max_scheduled = or_default config.max_scheduled_per_app 1000;
    max_total = or_default config.max_scheduled_total 100000;
    hold_unrouted = config.hold_unrouted;
    held_caps = record {
      per_app = or_default config.max_held_per_app 1000;
      total = or_default config.max_held_total 100000;
    };
  },
  or_default config.poll_interval 100000000,
  or_default config.max_concurrent_awaits 32,
)

-- An error has the text `invalid` with the name of the setting.
pub data Setting {ℓ} (A : Type ℓ) : Type ℓ where
  value : A → Setting A
  invalid_setting : Text → Setting A

-- envint.Bounded.
unfoldable pub bounded : (Text → Option ℤ) → (Text → Text) → Text → ℕ → ℕ → Setting ℤ
bounded atoi getenv name fallback limit = elim (getenv name) [
  | [] ↦ value (pos fallback)
  | c ∷ cs ↦ elim (atoi (c ∷ cs)) [
    | none ↦ invalid_setting name
    | some n ↦ if ltb_ℤ n (pos 1) || ltb_ℤ (pos limit) n then invalid_setting name else value n
  ]
]

unfoldable pub hold_unrouted_from_env : (Text → Text) → Setting Bool
hold_unrouted_from_env getenv =
    let raw = getenv (codes "DELIVERY_HOLD_UNROUTED") in
    if text_eq raw [] || text_eq raw (codes "0") || text_eq raw (codes "false")
    then value false
    else if text_eq raw (codes "1") || text_eq raw (codes "true")
    then value true
    else invalid_setting (codes "DELIVERY_HOLD_UNROUTED")

module _ (atoi : Text → Option ℤ) (getenv : Text → Text) where
  unfoldable pub max_held_per_app_from_env : Setting ℤ
  max_held_per_app_from_env = bounded atoi getenv (codes "DELIVERY_MAX_HELD_PER_APP") 1000 100000

  unfoldable pub max_held_total_from_env : Setting ℤ
  max_held_total_from_env = bounded atoi getenv (codes "DELIVERY_MAX_HELD_TOTAL") 100000 10000000

  unfoldable pub max_scheduled_from_env : Setting ℤ
  max_scheduled_from_env = bounded atoi getenv (codes "DELIVERY_MAX_SCHEDULED_PER_APP") 1000 100000

  unfoldable pub max_scheduled_total_from_env : Setting ℤ
  max_scheduled_total_from_env =
      bounded atoi getenv (codes "DELIVERY_MAX_SCHEDULED_TOTAL") 100000 10000000

bounded-range :
    (atoi : Text → Option ℤ) (getenv : Text → Text) (name : Text) (fallback limit : ℕ) (n : ℤ)
    → 1 ≤ fallback
    → fallback ≤ limit
    → bounded atoi getenv name fallback limit ≡ value n
    → (pos 1 ≤ℤ n) × (n ≤ℤ pos limit)
unfolding bounded
bounded-range atoi getenv name fallback limit n positive small e =
    ground (arith, e, positive, small)

-- A Service has positive caps and at least one place to await in, whatever its configuration says.
pub new_service_positive :
    (config : ServiceConfig)
    → (pos 0 <ℤ (new_service config).0.max_scheduled)
      × (pos 0 <ℤ (new_service config).0.max_total)
      × (pos 0 <ℤ (new_service config).0.held_caps.per_app)
      × (pos 0 <ℤ (new_service config).0.held_caps.total)
      × (pos 0 <ℤ (new_service config).1)
      × (pos 0 <ℤ (new_service config).2)
unfolding new_service or_default
new_service_positive config = ground arith

-- A cap on scheduled messages that is read from the environment is from 1 to the largest one accepted.
pub max_scheduled_range :
    (atoi : Text → Option ℤ) (getenv : Text → Text) (n : ℤ)
    → max_scheduled_from_env atoi getenv ≡ value n
    → (pos 1 ≤ℤ n) × (n ≤ℤ pos 100000)
unfolding max_scheduled_from_env
max_scheduled_range atoi getenv n e =
    bounded-range atoi getenv (codes "DELIVERY_MAX_SCHEDULED_PER_APP") 1000 100000 n (omega arith)
      (omega arith) e
