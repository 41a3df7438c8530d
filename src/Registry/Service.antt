-- ===== src/Registry/Service.antt =====
-- registry/service.go: resolving an envelope's destinations, changing, disabling and rotating a
-- destination, and changing a route, over the tables of one transaction each. Sealing (seal and JSON),
-- the random secret and the text of an instant are parameters.
pub mod Resolve
pub mod Rotation
use irl_notifs.Base.{
  ℕ, suc, ltb, ◌*◌, ℤ, pos, eqb_ℤ, Text, codes, text_eq, Bool, true, false, ◌&&◌, ◌||◌, not, Option,
  none, some, List, [], ◌∷◌, map, any, keep_if, or_else, wrap64, if◌then◌else◌,
}
use irl_notifs.Base.Sorting.{sort_by}
use irl_notifs.Base.Time.{Instant, Duration, add}
use irl_notifs.Heartbeat.Validate.{Verdict, valid, err, ◌then_check◌}
use irl_notifs.Registry.Types.{ResolvedDestination, StoredRoute, StoredDestination}
use irl_notifs.Registry.Match.{DestinationMatch, match_routes, usable_by}
use irl_notifs.Registry.Fields.{
  Fields, FieldTests, field_or_empty, set_field, copy_fields, validate_app_pattern,
  validate_channel_pattern, validate_route_destinations, validate_destination_fields,
}

pub data RegistryError : Type 0 where
  destination_not_found rotation_unsupported unknown_name destination_off : RegistryError
  invalid_input : Text → RegistryError
  failed : Text → RegistryError

pub data Outcome {ℓ} (A : Type ℓ) : Type ℓ where
  done : A → Outcome A
  refused : RegistryError → Outcome A

infixl 2 ◌and_then◌
abbrev pub ◌and_then◌ {ℓ κ} : {A : Type ℓ} {B : Type κ} → Outcome A → (A → Outcome B) → Outcome B
(done a) and_then f = f a
(refused e) and_then f = refused e

-- sealSecrets and openSecrets of a destination's name, crypto/rand in base64, and time.Format.
pub record Secrets : Type 0 where
  pub seal : Text → Fields → Outcome Text
  pub open_sealed : Text → Text → Outcome Fields
  pub new_secret : Outcome Text
  pub format_time : Instant → Text

abbrev pub Destinations : Type 0
Destinations = List StoredDestination

abbrev pub find_destination : Text → Destinations → Option StoredDestination
find_destination name [] = none
find_destination name (d ∷ ds) =
    let rest = find_destination name ds in if text_eq d.name name then some d else rest

-- The order of texts, byte by byte.
abbrev pub text_before : Text → Text → Bool
text_before [] [] = false
text_before [] (b ∷ t) = true
text_before (a ∷ s) [] = false
text_before (a ∷ s) (b ∷ t) = ltb a b || (not (ltb b a) && text_before s t)

-- What comes behind a check.
abbrev pub checked {ℓ} : {A : Type ℓ} → Verdict → Outcome A → Outcome A
checked valid rest = rest
checked (err text) rest = refused (invalid_input text)

-- id = ANY($1).
abbrev pub is_matched : List DestinationMatch → StoredDestination → Bool
is_matched matches stored = any (λ m. eqb_ℤ m.destination_id stored.id) matches

module _ (secrets : Secrets) where
  unfoldable pub unseal : StoredDestination → Outcome ResolvedDestination
  unseal stored = secrets.open_sealed stored.name stored.sealed_secrets and_then (λ opened.
      done (record {
        id = stored.id;
        name = stored.name;
        type = stored.type;
        config = stored.config;
        secrets = opened;
      }))

  -- A destination that the app may not use reads as unknown.
  abbrev pub of_named : Text → Option StoredDestination → Outcome (List ResolvedDestination)
  of_named app_id none = refused unknown_name
  of_named app_id (some stored) =
      if not (usable_by stored app_id)
      then refused unknown_name
      else if not stored.enabled
      then refused destination_off
      else unseal stored and_then (λ d. done (d ∷ []))

  unfoldable pub resolve_named : Text → Text → Destinations → Outcome (List ResolvedDestination)
  resolve_named app_id name table = of_named app_id (find_destination name table)

  -- The loop over the stored destinations of the matches.
  unfoldable pub unseal_all : Text → List StoredDestination → Outcome (List ResolvedDestination)
  unseal_all app_id [] = done []
  unseal_all app_id (stored ∷ rest) =
      if not (usable_by stored app_id) || not stored.enabled
      then unseal_all app_id rest
      else unseal stored and_then (λ d. unseal_all app_id rest and_then (λ ds. done (d ∷ ds)))

  -- The routes and the destinations are read in two transactions.
  unfoldable pub resolve :
      Text → Text → Text → List StoredRoute → Destinations → Outcome (List ResolvedDestination)
  resolve app_id destination_name channel routes table = elim destination_name [
    | c ∷ cs ↦ resolve_named app_id (c ∷ cs) table
    | [] ↦ unseal_all app_id (
        sort_by (λ d e. text_before d.name e.name)
          (keep_if (is_matched (match_routes routes app_id channel)) table))
  ]

-- UpdateDestination of the store: the changed row of the name, or the error that rolls it back. The name,
-- the type and the owner are not written.
unfoldable pub write_columns : StoredDestination → StoredDestination → StoredDestination
write_columns current mutated = record current {
  config = mutated.config;
  sealed_secrets = mutated.sealed_secrets;
  enabled = mutated.enabled;
  disabled_reason = mutated.disabled_reason;
}

abbrev pub write_row : StoredDestination → Destinations → Destinations
write_row row [] = []
write_row row (d ∷ ds) = (if eqb_ℤ d.id row.id then row else d) ∷ write_row row ds

unfoldable pub update_destination :
    (StoredDestination → Outcome StoredDestination)
    → Text
    → Destinations
    → Outcome (Destinations × StoredDestination)
update_destination mutate name table = elim (find_destination name table) [
  | none ↦ refused destination_not_found
  | some current ↦ mutate current and_then (λ mutated.
      done (write_row (write_columns current mutated) table, write_columns current mutated))
]

-- The mutate step of DisableDestination.
unfoldable pub disable : ℤ → Text → StoredDestination → Outcome StoredDestination
disable destination_id reason current =
    if not (eqb_ℤ current.id destination_id)
    then refused destination_not_found
    else done (record current { enabled = false; disabled_reason = some reason })

pub record DestinationPatch : Type 0 where
  pub enabled : Option Bool
  pub config : Option Fields
  pub secrets : Option Fields

abbrev pub is_no_fields : Fields → Bool
is_no_fields [] = true
is_no_fields (_ ∷ _) = false

patch_enabled : Option Bool → StoredDestination → StoredDestination
patch_enabled none current = current
patch_enabled (some true) current = record current { enabled = true; disabled_reason = none }
patch_enabled (some false) current = record current { enabled = false }

module _ (tests : FieldTests) (secrets : Secrets) where
  -- applyDestinationPatch behind the flag.
  patch_fields : StoredDestination → Fields → Fields → Outcome StoredDestination
  patch_fields current config_patch secrets_patch =
      secrets.open_sealed current.name current.sealed_secrets and_then (λ opened.
        let config = copy_fields current.config config_patch in
        let merged = copy_fields opened secrets_patch in
        checked (validate_destination_fields tests current.type config merged) (
          if is_no_fields secrets_patch
          then done (record current { config = config })
          else secrets.seal current.name merged and_then (λ sealed.
            done (record current { config = config; sealed_secrets = sealed }))))

  unfoldable pub apply_destination_patch :
      StoredDestination → DestinationPatch → Outcome StoredDestination
  unfolding patch_enabled patch_fields
  apply_destination_patch current patch =
      let flagged = patch_enabled patch.enabled current in
      elim patch.config [
        | none ↦ elim patch.secrets [ none ↦ done flagged | some s ↦ patch_fields flagged [] s ]
        | some c ↦ patch_fields flagged c (or_else patch.secrets [])
      ]

  abbrev pub rotated_secrets : Text → Fields → Fields
  rotated_secrets new_secret opened = set_field (codes "signing_secret") new_secret (
      set_field (codes "signing_secret_previous") (field_or_empty (codes "signing_secret") opened)
        opened)

  -- time.Duration(hours) * time.Hour.
  unfoldable pub hours : ℕ → Duration
  hours n = wrap64 (pos (n * 3600000000000))

  -- rotateSecret behind the opening of the secrets and the new one.
  unfoldable pub write_rotation :
      Instant → ℕ → StoredDestination → Fields → Text → Outcome (StoredDestination × Text)
  write_rotation now overlap_hours current opened new_secret =
      let rotated = rotated_secrets new_secret opened in
      let config =
        set_field (codes "previous_secret_expires_at")
          (secrets.format_time (add now (hours overlap_hours))) current.config in
      checked (validate_destination_fields tests current.type config rotated) (
        secrets.seal current.name rotated and_then (λ sealed.
          done (record current { config = config; sealed_secrets = sealed }, new_secret)))

  -- rotateSecret, for a number of hours that is not negative.
  unfoldable pub rotate_secret :
      Instant → ℕ → StoredDestination → Outcome (StoredDestination × Text)
  rotate_secret now overlap_hours current =
      if not (text_eq current.type (codes "webhook"))
      then refused rotation_unsupported
      else (secrets.open_sealed current.name current.sealed_secrets and_then (λ opened.
          secrets.new_secret and_then (write_rotation now overlap_hours current opened)))

pub record RoutePatch : Type 0 where
  pub app_pattern : Option Text
  pub channel_pattern : Option Text
  pub destinations : Option (List Text)
  pub enabled : Option Bool

abbrev checked_if_present {ℓ} : {A : Type ℓ} → (A → Verdict) → Option A → Verdict
checked_if_present check none = valid
checked_if_present check (some a) = check a

unfoldable pub validate_route_patch : RoutePatch → Verdict
validate_route_patch patch =
    checked_if_present validate_app_pattern patch.app_pattern
    then_check checked_if_present validate_channel_pattern patch.channel_pattern
    then_check checked_if_present validate_route_destinations patch.destinations

unfoldable pub apply_route_patch : StoredRoute → RoutePatch → StoredRoute
apply_route_patch current patch = record current {
  app_pattern = or_else patch.app_pattern current.app_pattern;
  channel_pattern = or_else patch.channel_pattern current.channel_pattern;
  destination_names = or_else patch.destinations current.destination_names;
  enabled = or_else patch.enabled current.enabled;
}
