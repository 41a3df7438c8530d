-- ===== src/Registry/Types.antt =====
-- registry/types.go, as far as the worker and the matching use it. A map of strings is a list of
-- pairs.
use irl_notifs.Base.{ℤ, Text, codes, Bool, Option, List}

pub record ResolvedDestination : Type 0 where
  pub id : ℤ
  pub name : Text
  pub type : Text
  pub config : List (Text × Text)
  pub secrets : List (Text × Text)

pub record StoredRoute : Type 0 where
  pub id : ℤ
  pub app_pattern : Text
  pub channel_pattern : Text
  pub destination_ids : List ℤ
  pub destination_names : List Text
  pub enabled : Bool
  pub owner_kind : Text
  pub owner_app_id : Option Text

pub record StoredDestination : Type 0 where
  pub id : ℤ
  pub name : Text
  pub type : Text
  pub config : List (Text × Text)
  pub sealed_secrets : Text
  pub enabled : Bool
  pub disabled_reason : Option Text
  pub owner_kind : Text
  pub owner_app_id : Option Text

-- RecipientDestinationName.
abbrev pub recipient_destination_name : Text
recipient_destination_name = codes "@recipient"

-- What Service.Resolve answers: the destinations, or one of its errors.
pub data Resolution : Type 0 where
  resolved : List ResolvedDestination → Resolution
  unknown_destination destination_disabled : Resolution
  resolve_failed : Text → Resolution
