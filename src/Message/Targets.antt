-- ===== src/Message/Targets.antt =====
-- resolveTargets of message/service.go: the destinations of a submitted envelope, as delivery targets.
use irl_notifs.Base.{
  ltb, ℤ, Text, codes, text_eq, Bool, false, ◌&&◌, ◌||◌, not, Option, none, some, List, [], ◌∷◌,
  ◌++◌, length, ◌≡◌, refl, ◌⊎◌, inl, inr, if◌then◌else◌,
}
use irl_notifs.Registry.Types.{
  ResolvedDestination, Resolution, resolved, unknown_destination, destination_disabled,
  resolve_failed, recipient_destination_name,
}
use irl_notifs.Message.Types.{Display, Envelope, DeliveryTarget}
use irl_notifs.Message.Attempts.{StoreError}
use irl_notifs.Message.Table.{HeldCaps}
use irl_notifs.Message.Validate.{TextTests, is_absent}

pub data SubmitError : Type 0 where
  rejected : Text → SubmitError
  of_store : StoreError → SubmitError
  no_destination_matched unsupported_destination_type no_publisher : SubmitError
  unknown_name disabled_destination : SubmitError
  failed : Text → SubmitError

pub data Answer {ℓ} (A : Type ℓ) : Type ℓ where
  yields : A → Answer A
  refuses : SubmitError → Answer A

pub Answer-cases {ℓ} :
    {A : Type ℓ} (answer : Answer A)
    → ((e : SubmitError) × (answer ≡ refuses e)) ⊎ ((a : A) × (answer ≡ yields a))
Answer-cases (refuses e) = inl (e, refl)
Answer-cases (yields a) = inr (a, refl)

-- The fields of Service that Submit reads. A nil Publishers is `has_publishers` false.
pub record Service : Type 0 where
  pub supported_types : Text → Bool
  pub has_publishers : Bool
  pub max_scheduled : ℤ
  pub max_total : ℤ
  pub hold_unrouted : Bool
  pub held_caps : HeldCaps

-- What the registry and the publishers answer to one call of resolveTargets.
pub record Directory : Type 0 where
  pub resolve : Text → Text → Text → Resolution
  pub has_publisher : Text → Answer Bool

-- The library calls of the package: the hash of an email, the comparison of payloads, and the text tests.
pub record Library : Type 0 where
  pub tests : TextTests
  pub hash : Text → Text
  pub payload_eq : Text → Text → Bool

-- HasRenderableText.
unfoldable pub has_renderable_text : (Text → Text) → Option Display → Bool
has_renderable_text trim_space none = false
has_renderable_text trim_space (some display) =
    not (is_absent (trim_space display.title)) || not (is_absent (trim_space display.body))

-- PersonChannelTopic of personhash.
abbrev pub person_channel_topic : Text → Text → Text → Text
person_channel_topic app_id hash channel = app_id ++ codes "-" ++ hash ++ codes "-" ++ channel

display_required : SubmitError
display_required =
    rejected (codes "display.title or display.body is required for ntfy and discord destinations")

module _ (library : Library) (service : Service) where
  unfoldable pub resolve_recipient_target : Directory → Envelope → Answer (List DeliveryTarget)
  unfolding display_required
  resolve_recipient_target directory envelope =
      let topic = person_channel_topic envelope.app_id envelope.to_recipient envelope.channel in
      if not (service.supported_types (codes "ntfy"))
      then refuses unsupported_destination_type
      else if ltb 64 (length topic)
      then refuses (rejected (codes "app_id and channel are too long for a recipient topic"))
      else if not (has_renderable_text library.tests.trim_space envelope.display)
      then refuses display_required
      else if not service.has_publishers
      then refuses no_publisher
      else elim (directory.has_publisher envelope.app_id) [
        | refuses e ↦ refuses e
        | yields found ↦
            if not found
            then refuses no_publisher
            else yields (
                record {
                  destination_id = none;
                  destination_name = recipient_destination_name;
                  destination_type = codes "ntfy";
                }
                ∷ [])
      ]

  is_human_facing : Text → Bool
  is_human_facing type = text_eq type (codes "ntfy") || text_eq type (codes "discord")

  -- The loop over the resolved destinations.
  unfoldable pub targets_of : Envelope → List ResolvedDestination → Answer (List DeliveryTarget)
  unfolding is_human_facing display_required
  targets_of envelope [] = yields []
  targets_of envelope (destination ∷ destinations) =
      if not (service.supported_types destination.type)
      then refuses unsupported_destination_type
      else if is_human_facing destination.type
          && not (has_renderable_text library.tests.trim_space envelope.display)
      then refuses display_required
      else elim (targets_of envelope destinations) [
        | refuses e ↦ refuses e
        | yields targets ↦ yields (
            record {
              destination_id = some destination.id;
              destination_name = destination.name;
              destination_type = destination.type;
            }
            ∷ targets)
      ]

  abbrev pub of_resolution : Envelope → Resolution → Answer (List DeliveryTarget)
  of_resolution envelope (resolved []) = refuses no_destination_matched
  of_resolution envelope (resolved (d ∷ ds)) = targets_of envelope (d ∷ ds)
  of_resolution envelope unknown_destination = refuses unknown_name
  of_resolution envelope destination_disabled = refuses disabled_destination
  of_resolution envelope (resolve_failed text) = refuses (failed text)

  unfoldable pub resolve_targets : Directory → Envelope → Answer (List DeliveryTarget)
  resolve_targets directory envelope =
      if not (is_absent envelope.to_recipient)
      then resolve_recipient_target directory envelope
      else of_resolution envelope
          (directory.resolve envelope.app_id envelope.to_destination envelope.channel)
