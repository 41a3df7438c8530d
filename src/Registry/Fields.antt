-- ===== src/Registry/Fields.antt =====
-- registry/validate.go: the names, patterns and fields of destinations and routes. A map of strings is a
-- list of pairs, each key once. url.Parse and time.Parse are parameters; a message
-- goes without the key of an unknown field.
use irl_notifs.Base.{
  ℕ, ltb, leb, ◌==◌, Text, codes, text_eq, Bool, true, false, ◌&&◌, ◌||◌, not, Option, none, some,
  List, [], ◌∷◌, any, all, length, is_some, or_else, if◌then◌else◌,
}
use irl_notifs.Heartbeat.Validate.{Verdict, valid, err, ◌then_check◌, require, is_slug}
use irl_notifs.Registry.Match.{cut_star, has_prefix}

abbrev pub Fields : Type 0
Fields = List (Text × Text)

-- fields[key], with its presence.
abbrev pub field : Text → Fields → Option Text
field key [] = none
field key ((k, v) ∷ rest) = let found = field key rest in if text_eq k key then some v else found

abbrev pub field_or_empty : Text → Fields → Text
field_or_empty key fields = or_else (field key fields) []

-- fields[key] = value.
abbrev pub set_field : Text → Text → Fields → Fields
set_field key v [] = (key, v) ∷ []
set_field key v ((k, w) ∷ rest) =
    if text_eq k key then (key, v) ∷ rest else (k, w) ∷ set_field key v rest

-- maps.Copy.
abbrev pub copy_fields : Fields → Fields → Fields
copy_fields target [] = target
copy_fields target ((k, v) ∷ rest) = copy_fields (set_field k v target) rest

is_lower_or_digit : ℕ → Bool
is_lower_or_digit c = leb 97 c && leb c 122 || leb 48 c && leb c 57

is_name_char : ℕ → Bool
unfolding is_lower_or_digit
is_name_char c = is_lower_or_digit c || c == 95

is_token_char : ℕ → Bool
unfolding is_name_char
is_token_char c = is_name_char c || leb 65 c && leb c 90 || c == 45

-- ^[a-z0-9][a-z0-9_]{0,n}$
slug_up_to : ℕ → Text → Bool
unfolding is_lower_or_digit is_name_char
slug_up_to n [] = false
slug_up_to n (c ∷ cs) = is_lower_or_digit c && all is_name_char cs && leb (length cs) n

-- ^[A-Za-z0-9_-]{1,64}$
is_topic : Text → Bool
unfolding is_token_char
is_topic text = leb 1 (length text) && leb (length text) 64 && all is_token_char text

-- ^tk_[a-z0-9]{29}$
is_access_token : Text → Bool
unfolding is_lower_or_digit
is_access_token (t ∷ k ∷ u ∷ rest) =
    t == 116 && k == 107 && u == 95 && length rest == 29 && all is_lower_or_digit rest
is_access_token _ = false

unfoldable pub validate_destination_name : Text → Verdict
validate_destination_name name = require (is_slug name) (codes "invalid name")

unfoldable pub validate_destination_type : Text → Verdict
validate_destination_type type =
    require
      (text_eq type (codes "ntfy")
        || text_eq type (codes "discord")
        || text_eq type (codes "webhook"))
      (codes "invalid type")

unfoldable pub validate_app_pattern : Text → Verdict
validate_app_pattern pattern =
    if text_eq pattern (codes "*")
    then valid
    else require (not (text_eq pattern (codes "everyone")) && is_slug pattern)
        (codes "invalid app_pattern")

unfoldable pub validate_channel_pattern : Text → Verdict
unfolding slug_up_to
validate_channel_pattern pattern =
    require
      (text_eq pattern (codes "*")
        || slug_up_to 31 pattern
        || elim (cut_star pattern) [ none ↦ false | some head ↦ slug_up_to 30 head ])
      (codes "invalid channel_pattern")

-- The loop over the names with the set of those seen.
names_from : List Text → List Text → Bool
names_from seen [] = true
names_from seen (name ∷ names) =
    let rest = names_from (name ∷ seen) names in
    is_slug name && not (any (text_eq name) seen) && rest

unfoldable pub validate_route_destinations : List Text → Verdict
unfolding names_from
validate_route_destinations names =
    require (leb 1 (length names) && leb (length names) 20 && names_from [] names)
      (codes "invalid destinations")

-- rejectUnknownKeys.
reject_unknown_keys : Text → Fields → List Text → Verdict
reject_unknown_keys text fields allowed =
    require (all (λ pair. any (text_eq pair.0) allowed) fields) text

-- What url.Parse finds: the scheme, Host, Hostname, EscapedPath, and whether there is userinfo.
pub record DestinationUrl : Type 0 where
  pub scheme : Text
  pub host : Text
  pub hostname : Text
  pub escaped_path : Text
  pub has_user : Bool

-- net/url, strings.ToLower, and time.Parse and Format of RFC 3339.
pub record FieldTests : Type 0 where
  pub parse_url : Text → Option DestinationUrl
  pub to_lower : Text → Text
  pub is_time : Text → Bool

is_empty_text : Text → Bool
is_empty_text [] = true
is_empty_text (_ ∷ _) = false

-- The digits of a webhook's id, then a slash and its token.
id_and_token : Text → Bool
unfolding is_token_char
id_and_token [] = false
id_and_token (c ∷ []) = false
id_and_token (c ∷ d ∷ cs) =
    let rest = id_and_token (d ∷ cs) in
    if not (leb 48 c && leb c 57)
    then false
    else if d == 47
    then leb 1 (length cs) && all is_token_char cs
    else rest

drop_prefix : Text → Text → Text
drop_prefix [] text = text
drop_prefix (p ∷ ps) [] = []
drop_prefix (p ∷ ps) (c ∷ cs) = drop_prefix ps cs

-- ^/api/webhooks/[0-9]+/[A-Za-z0-9_-]+$
is_discord_path : Text → Bool
unfolding id_and_token drop_prefix
is_discord_path path =
    has_prefix path (codes "/api/webhooks/")
    && id_and_token (drop_prefix (codes "/api/webhooks/") path)

discord_hosts : List Text
discord_hosts =
    codes "discord.com"
    ∷ codes "discordapp.com"
    ∷ codes "ptb.discord.com"
    ∷ codes "canary.discord.com"
    ∷ []

-- Printable ASCII of 32 to 256 bytes.
unfoldable pub valid_signing_secret : Text → Bool
valid_signing_secret secret =
    not (ltb (length secret) 32 || ltb 256 (length secret))
    && all (λ c. leb 32 c && leb c 126) secret

same_presence : Option Text → Option Text → Bool
same_presence (some _) (some _) = true
same_presence none none = true
same_presence _ _ = false

module _ (tests : FieldTests) where
  parse_https_url : Text → Option DestinationUrl
  unfolding is_empty_text
  parse_https_url raw = if ltb 2048 (length raw) then none else elim (tests.parse_url raw) [
    | none ↦ none
    | some url ↦
        if not (text_eq url.scheme (codes "https")) || is_empty_text url.hostname || url.has_user
        then none
        else some url
  ]

  validate_ntfy_fields : Fields → Fields → Verdict
  unfolding reject_unknown_keys is_topic is_access_token
  validate_ntfy_fields config secrets =
      reject_unknown_keys (codes "unknown field config") config (codes "topic" ∷ [])
      then_check reject_unknown_keys (codes "unknown field secrets") secrets
          (codes "access_token" ∷ [])
      then_check require (is_topic (field_or_empty (codes "topic") config))
          (codes "invalid config.topic")
      then_check require
          (elim (field (codes "access_token") secrets) [ none ↦ true | some t ↦ is_access_token t ])
          (codes "invalid secrets.access_token")

  validate_discord_fields : Fields → Fields → Verdict
  unfolding reject_unknown_keys parse_https_url is_discord_path discord_hosts
  validate_discord_fields config secrets =
      reject_unknown_keys (codes "unknown field config") config []
      then_check reject_unknown_keys (codes "unknown field secrets") secrets
          (codes "webhook_url" ∷ [])
      then_check require
          (elim (parse_https_url (field_or_empty (codes "webhook_url") secrets)) [
            | none ↦ false
            | some url ↦
                any (text_eq (tests.to_lower url.host)) discord_hosts
                && is_discord_path url.escaped_path
          ])
          (codes "invalid secrets.webhook_url")

  validate_rotation_fields : Fields → Fields → Verdict
  unfolding same_presence
  validate_rotation_fields config secrets =
      let previous = field (codes "signing_secret_previous") secrets in
      let expires_at = field (codes "previous_secret_expires_at") config in
      require (elim previous [ none ↦ true | some s ↦ valid_signing_secret s ])
        (codes "invalid secrets.signing_secret_previous")
      then_check require (same_presence previous expires_at) (
          codes
            "secrets.signing_secret_previous and config.previous_secret_expires_at must be set together")
      then_check require (elim expires_at [ none ↦ true | some t ↦ tests.is_time t ])
          (codes "invalid config.previous_secret_expires_at")

  validate_webhook_fields : Fields → Fields → Verdict
  unfolding reject_unknown_keys parse_https_url validate_rotation_fields
  validate_webhook_fields config secrets =
      reject_unknown_keys (codes "unknown field config") config
        (codes "previous_secret_expires_at" ∷ [])
      then_check reject_unknown_keys (codes "unknown field secrets") secrets
          (codes "url" ∷ codes "signing_secret" ∷ codes "signing_secret_previous" ∷ [])
      then_check require (is_some (parse_https_url (field_or_empty (codes "url") secrets)))
          (codes "invalid secrets.url")
      then_check require (valid_signing_secret (field_or_empty (codes "signing_secret") secrets))
          (codes "invalid secrets.signing_secret")
      then_check validate_rotation_fields config secrets

  unfoldable pub validate_destination_fields : Text → Fields → Fields → Verdict
  unfolding validate_ntfy_fields validate_discord_fields validate_webhook_fields
  validate_destination_fields type config secrets =
      if text_eq type (codes "ntfy")
      then validate_ntfy_fields config secrets
      else if text_eq type (codes "discord")
      then validate_discord_fields config secrets
      else if text_eq type (codes "webhook")
      then validate_webhook_fields config secrets
      else err (codes "invalid type")
