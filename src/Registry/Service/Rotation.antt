-- ===== src/Registry/Service/Rotation.antt =====
-- What a rotation leaves: the new secret, the old one beside it, and when the old one ends.
use irl_notifs.Base.{
  ℕ, Text, codes, text_eq, text_eq_refl, text_eq_iff, ◌≡◌, refl, sym, ap, ◌∙◌, ◌⊎◌, inl, inr, true,
  false, some, [], ◌∷◌, arith, Bool-cases,
}
use mathlib.Core.Path.{subst}
use irl_notifs.Base.Time.{Instant, add}
use irl_notifs.Heartbeat.Validate.{Verdict, valid, err}
use irl_notifs.Registry.Types.{StoredDestination}
use irl_notifs.Registry.Fields.{
  Fields, FieldTests, field, field_or_empty, set_field, validate_destination_fields,
}
use irl_notifs.Registry.Service.{
  RegistryError, Outcome, done, refused, ◌and_then◌, Secrets, checked, rotated_secrets, hours,
  write_rotation, rotate_secret,
}

pub field-set_field : (key v : Text) (fields : Fields) → field key (set_field key v fields) ≡ some v
field-set_field key v [] = ground (arith, text_eq_refl key)
field-set_field key v ((k, w) ∷ rest) = elim (Bool-cases (text_eq k key)) [
  | inl e ↦ ground (arith, e, text_eq_refl key)
  | inr e ↦ ground (arith, e, field-set_field key v rest)
]

pub field-set_other :
    (key other v : Text) (fields : Fields)
    → text_eq other key ≡ false
    → field key (set_field other v fields) ≡ field key fields
field-set_other key other v [] h = ground (arith, h)
field-set_other key other v ((k, w) ∷ rest) h = elim (Bool-cases (text_eq k other)) [
  | inl e ↦ ground (arith, e, h, text_eq_iff k other)
  | inr e ↦ ground (arith, e, h, field-set_other key other v rest h)
]

Outcome-cases :
    {A : Type 0} (o : Outcome A)
    → ((e : RegistryError) × (o ≡ refused e)) ⊎ ((a : A) × (o ≡ done a))
Outcome-cases (refused e) = inl (e, refl)
Outcome-cases (done a) = inr (a, refl)

and_then-done :
    {A B : Type 0} (o : Outcome A) (f : A → Outcome B) (b : B)
    → (o and_then f) ≡ done b
    → (a : A) × (o ≡ done a) × (f a ≡ done b)
and_then-done (done a) f b h = (a, refl, h)
and_then-done (refused e) f b h = ground (arith, h)

done_inj : {A : Type 0} (a b : A) → done a ≡ done b → a ≡ b
done_inj {A = A} a b h = ap (λ (o : Outcome A). elim o [ done x ↦ x | refused e ↦ a ]) h

checked-done :
    {A : Type 0} (v : Verdict) (o : Outcome A) (a : A) → checked v o ≡ done a → o ≡ done a
checked-done valid o a h = h
checked-done (err text) o a h = ground (arith, h)

abbrev pub signing_secret : Text
signing_secret = codes "signing_secret"

abbrev pub signing_secret_previous : Text
signing_secret_previous = codes "signing_secret_previous"

-- What seals a name's fields, opens them.
abbrev pub OpensSealed : Secrets → Type 0
OpensSealed secrets =
    (name sealed : Text) (fields : Fields)
    → secrets.seal name fields ≡ done sealed
    → secrets.open_sealed name sealed ≡ done fields

rotated_fields :
    (new_secret : Text) (opened : Fields)
    → (field signing_secret (
          set_field signing_secret new_secret
            (set_field signing_secret_previous (field_or_empty signing_secret opened) opened))
        ≡ some new_secret)
      × (field signing_secret_previous (
            set_field signing_secret new_secret
              (set_field signing_secret_previous (field_or_empty signing_secret opened) opened))
          ≡ some (field_or_empty signing_secret opened))
unfolding text_eq
rotated_fields new_secret opened = (
  field-set_field signing_secret new_secret
      (set_field signing_secret_previous (field_or_empty signing_secret opened) opened),
  field-set_other signing_secret_previous signing_secret new_secret
        (set_field signing_secret_previous (field_or_empty signing_secret opened) opened) refl
      ∙ field-set_field signing_secret_previous (field_or_empty signing_secret opened) opened,
)

abbrev IsRotated :
    (tests : FieldTests) (secrets : Secrets)
    → Instant
    → ℕ
    → StoredDestination
    → Fields
    → StoredDestination
    → Text
    → Type 0
IsRotated tests secrets now overlap_hours current before next new_secret =
    (after : Fields) × (secrets.open_sealed next.name next.sealed_secrets ≡ done after)
    × (field signing_secret after ≡ some new_secret)
    × (field signing_secret_previous after ≡ some (field_or_empty signing_secret before))
    × (field (codes "previous_secret_expires_at") next.config
        ≡ some (secrets.format_time (add now (hours tests secrets overlap_hours))))

abbrev rotated_row : StoredDestination → Fields → Text → StoredDestination
rotated_row current config sealed = record current { config = config; sealed_secrets = sealed }

abbrev rotation : StoredDestination → Text → Outcome (StoredDestination × Text)
rotation row secret = done (row, secret)

write_rotation-IsRotated :
    (tests : FieldTests) (secrets : Secrets) (now : Instant) (overlap_hours : ℕ)
    (current next : StoredDestination) (before : Fields) (drawn new_secret : Text)
    → OpensSealed secrets
    → write_rotation tests secrets now overlap_hours current before drawn ≡ done (next, new_secret)
    → IsRotated tests secrets now overlap_hours current before next new_secret
unfolding write_rotation
write_rotation-IsRotated tests secrets now overlap_hours current next before drawn new_secret law
      e =
    subst
      (λ (r : StoredDestination × Text).
        IsRotated tests secrets now overlap_hours current before r.0 r.1)
      (done_inj (rotated_row current config sealed, drawn) (next, new_secret) step.2)
      (
        rotated_secrets tests secrets drawn before,
        law current.name sealed (rotated_secrets tests secrets drawn before) step.1,
        (rotated_fields drawn before).0,
        (rotated_fields drawn before).1,
        field-set_field (codes "previous_secret_expires_at")
            (secrets.format_time (add now (hours tests secrets overlap_hours))) current.config,
      )
  where
    config : Fields
    config =
        set_field (codes "previous_secret_expires_at")
          (secrets.format_time (add now (hours tests secrets overlap_hours))) current.config

    step :
        (sealed : Text) × (secrets.seal current.name (rotated_secrets tests secrets drawn before)
          ≡ done sealed)
        × (rotation (rotated_row current config sealed) drawn ≡ rotation next new_secret)
    step =
        and_then-done (secrets.seal current.name (rotated_secrets tests secrets drawn before))
          (λ sealed. rotation (rotated_row current config sealed) drawn) (next, new_secret)
          (checked-done
            (validate_destination_fields tests current.type config
              (rotated_secrets tests secrets drawn before))
            (secrets.seal current.name (rotated_secrets tests secrets drawn before)
              and_then (λ sealed. rotation (rotated_row current config sealed) drawn))
            (next, new_secret) e)

    sealed : Text
    sealed = step.0

webhook_rotation :
    (tests : FieldTests) (secrets : Secrets) (now : Instant) (overlap_hours : ℕ)
    (current : StoredDestination)
    → text_eq current.type (codes "webhook") ≡ true
    → rotate_secret tests secrets now overlap_hours current ≡ (
        secrets.open_sealed current.name current.sealed_secrets and_then (λ before.
          secrets.new_secret
          and_then (write_rotation tests secrets now overlap_hours current before)))
unfolding rotate_secret
webhook_rotation tests secrets now overlap_hours current h = rw (h, rotate_secret) refl

-- A rotation that succeeds leaves a blob that opens, by the sealer that opens what it sealed, to the new
-- secret as the signing secret and the secret of before as the previous one, and a config that says when
-- the previous one ends: the given number of hours, as an int64 of nanoseconds that wraps around, from now.
pub rotate_secret-open :
    (tests : FieldTests) (secrets : Secrets) (now : Instant) (overlap_hours : ℕ)
    (current next : StoredDestination) (new_secret : Text)
    → OpensSealed secrets
    → rotate_secret tests secrets now overlap_hours current ≡ done (next, new_secret)
    → (before after : Fields) × (secrets.open_sealed current.name current.sealed_secrets
        ≡ done before)
      × (secrets.open_sealed next.name next.sealed_secrets ≡ done after)
      × (field signing_secret after ≡ some new_secret)
      × (field signing_secret_previous after ≡ some (field_or_empty signing_secret before))
      × (field (codes "previous_secret_expires_at") next.config
          ≡ some (secrets.format_time (add now (hours tests secrets overlap_hours))))
unfolding rotate_secret
rotate_secret-open tests secrets now overlap_hours current next new_secret law e =
    elim (Bool-cases (text_eq current.type (codes "webhook"))) [
      | inr h ↦ ground (arith, h, e)
      | inl h ↦
          let opened =
            and_then-done (secrets.open_sealed current.name current.sealed_secrets)
              (λ before.
                secrets.new_secret
                and_then (write_rotation tests secrets now overlap_hours current before))
              (next, new_secret)
              (sym (webhook_rotation tests secrets now overlap_hours current h) ∙ e) in
          let drawn =
            and_then-done secrets.new_secret
              (write_rotation tests secrets now overlap_hours current opened.0) (next, new_secret)
              opened.2 in
          let rotated =
            write_rotation-IsRotated tests secrets now overlap_hours current next opened.0 drawn.0
              new_secret law drawn.2 in
          (opened.0, rotated.0, opened.1, rotated.1, rotated.2, rotated.3, rotated.4)
    ]
