-- ===== src/Heartbeat/Patch.antt =====
-- heartbeat/types.go (partial updates) and heartbeat/validate.go (what they are checked for).
-- Statuses: the order-free comparison of status sets. Laws: what a merge keeps.
mod Statuses
pub mod Laws
pub use Statuses.*
use irl_notifs.Base.{
  ℤ, pos, eqb_ℤ, Text, codes, text_eq, Bool, true, false, ◌&&◌, ◌||◌, not, Option, none, some, List,
  [], ◌∷◌, map, is_some, or_else, if◌then◌else◌,
}
use irl_notifs.Heartbeat.Types.{
  StoredCheck, ProbeConfig, ProbeState, kind, kind_push, kind_probe, DestinationRef,
}
use irl_notifs.Heartbeat.Validate.{
  Verdict, valid, err, ◌then_check◌, require, validate_app_id, validate_name, validate_schedule,
  validate_probe_config, valid_access_credential, derived_schedule,
}

pub record AccessToken : Type 0 where
  pub client_id : Text
  pub client_secret : Text

pub data AccessTokenAction : Type 0 where
  access_token_unchanged access_token_replace access_token_clear : AccessTokenAction
  access_token_other : ℤ → AccessTokenAction

pub record AccessTokenPatch : Type 0 where
  pub action : AccessTokenAction
  pub token : AccessToken

pub record ProbePatch : Type 0 where
  pub url : Option Text
  pub expected_statuses : Option (List ℤ)
  pub body_match : Option Text
  pub clear_body_match : Bool
  pub timeout_seconds : Option ℤ
  pub interval_seconds : Option ℤ

pub record CheckPatch : Type 0 where
  pub period_seconds : Option ℤ
  pub grace_seconds : Option ℤ
  pub destination_names : Option (List Text)
  pub probe : Option ProbePatch
  pub access_token : AccessTokenPatch

pub record CheckUpdate : Type 0 where
  pub period_seconds : ℤ
  pub grace_seconds : ℤ
  pub destination_names : List Text
  pub probe : Option ProbeConfig
  pub access_token : AccessTokenPatch

pub record NewCheck : Type 0 where
  pub app_id : Text
  pub name : Text
  pub period_seconds : ℤ
  pub grace_seconds : ℤ
  pub destination_names : List Text
  pub owner_kind : Text
  pub owner_app_id : Option Text
  pub probe : Option ProbeConfig
  pub access_token : Option AccessToken
  pub schedule_supplied : Bool

is_unchanged : AccessTokenAction → Bool
is_unchanged access_token_unchanged = true
is_unchanged _ = false

pub is_empty : CheckPatch → Bool
unfolding is_unchanged
is_empty patch =
    not (is_some patch.period_seconds)
    && not (is_some patch.grace_seconds)
    && not (is_some patch.destination_names)
    && not (is_some patch.probe)
    && is_unchanged patch.access_token.action

unfoldable pub merge_probe_config : ProbeConfig → Option ProbePatch → ProbeConfig
merge_probe_config current none = record current {
  expected_statuses = normalize_statuses current.expected_statuses;
}
merge_probe_config current (some patch) = record {
  url = or_else patch.url current.url;
  expected_statuses =
      normalize_statuses (or_else patch.expected_statuses current.expected_statuses);
  body_match =
      if patch.clear_body_match
      then none
      else elim patch.body_match [ none ↦ current.body_match | some text ↦ some text ];
  timeout_seconds = or_else patch.timeout_seconds current.timeout_seconds;
  interval_seconds = or_else patch.interval_seconds current.interval_seconds;
}

unfoldable pub apply_patch : StoredCheck → CheckPatch → CheckUpdate
apply_patch current patch =
    let update : CheckUpdate = record {
      period_seconds = or_else patch.period_seconds current.period_seconds;
      grace_seconds = or_else patch.grace_seconds current.grace_seconds;
      destination_names = or_else patch.destination_names (map (λ d. d.name) current.destinations);
      probe = none;
      access_token = patch.access_token;
    } in
    elim current.probe [
      | none ↦ update
      | some probe ↦
          let merged = merge_probe_config probe.config patch.probe in
          let (period, grace) = derived_schedule merged.interval_seconds in
          record update { period_seconds = period; grace_seconds = grace; probe = some merged }
    ]

is_token_change : AccessTokenAction → Bool
is_token_change access_token_replace = true
is_token_change access_token_clear = true
is_token_change _ = false

text_option_eq : Option Text → Option Text → Bool
text_option_eq none none = true
text_option_eq (some s) (some t) = text_eq s t
text_option_eq _ _ = false

unfoldable pub probe_config_changed : ProbeConfig → ProbeConfig → AccessTokenPatch → Bool
unfolding is_token_change text_option_eq
probe_config_changed current merged token =
    is_token_change token.action
    || not (
        text_eq current.url merged.url
        && eqb_ℤ current.timeout_seconds merged.timeout_seconds
        && eqb_ℤ current.interval_seconds merged.interval_seconds)
    || not (
        statuses_eq (normalize_statuses current.expected_statuses)
          (normalize_statuses merged.expected_statuses))
    || not (text_option_eq current.body_match merged.body_match)

pub validate_access_token : AccessToken → Verdict
validate_access_token token =
    require (valid_access_credential token.client_id && valid_access_credential token.client_secret)
      (codes "invalid probe.access_token")

validate_token_patch : AccessTokenPatch → AccessTokenAction → Verdict
validate_token_patch patch access_token_unchanged = valid
validate_token_patch patch access_token_clear = valid
validate_token_patch patch access_token_replace = validate_access_token patch.token
validate_token_patch patch (access_token_other _) = err (codes "invalid probe.access_token")

unfoldable pub validate_check_patch_for_kind : StoredCheck → CheckPatch → Verdict
unfolding is_unchanged
validate_check_patch_for_kind current patch = elim (kind current) [
  | kind_probe ↦
      require (not (is_some patch.period_seconds || is_some patch.grace_seconds))
        (codes "period_seconds and grace_seconds are derived for probe checks")
  | kind_push ↦
      require (not (is_some patch.probe || not (is_unchanged patch.access_token.action)))
        (codes "probe config is not allowed on a push check")
]

module _ (valid_probe_url : Text → Bool) (valid_body_match : Text → Bool) where
  unfoldable pub validate_check_update : CheckUpdate → Verdict
  unfolding validate_token_patch
  validate_check_update update =
      elim update.probe [
        | none ↦ valid
        | some config ↦ validate_probe_config valid_probe_url valid_body_match config
      ]
      then_check validate_token_patch update.access_token update.access_token.action
      then_check validate_schedule update.period_seconds update.grace_seconds
          update.destination_names

  -- The owner check of a new check that carries probe config.
  validate_probe_owner : NewCheck → Verdict
  validate_probe_owner check =
      require
        (not (
          (is_some check.probe || is_some check.access_token)
          && not (text_eq check.owner_kind [])
          && not (text_eq check.owner_kind (codes "operator"))))
        (codes "probe config is not allowed on an app-owned check")

  unfoldable pub validate_new_check : NewCheck → Verdict
  unfolding validate_probe_owner
  validate_new_check check =
      validate_app_id check.app_id
      then_check validate_name check.name
      then_check validate_probe_owner check
      then_check elim check.probe [
        | none ↦
            require (not (is_some check.access_token)) (codes "invalid probe.access_token")
            then_check validate_schedule check.period_seconds check.grace_seconds
                check.destination_names
        | some config ↦
            require
              (not (
                check.schedule_supplied
                || not (eqb_ℤ check.period_seconds (pos 0))
                || not (eqb_ℤ check.grace_seconds (pos 0))))
              (codes "period_seconds and grace_seconds are derived for probe checks")
            then_check validate_probe_config valid_probe_url valid_body_match config
            then_check elim check.access_token [
              | none ↦ valid
              | some token ↦ validate_access_token token
            ]
            then_check (let (period, grace) = derived_schedule config.interval_seconds in
                validate_schedule period grace check.destination_names)
      ]
