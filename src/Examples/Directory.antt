-- ===== src/Examples/Directory.antt =====
-- The registry, the probes and the throttle at concrete inputs.
use irl_notifs.Base.{
  ◌≤◌, pos, ◌≤ℤ◌, ◌<ℤ◌, eqb_ℤ, Text, codes, text_eq, text_eq_iff, text_eq_refl, ◌≡◌, refl, ◌⊎◌, inl,
  inr, Bool-cases, if◌then◌else◌, Bool, true, false, ◌&&◌, none, some, [], ◌∷◌, ◌++◌, any, length,
  count_if, arith,
}
use irl_notifs.Base.Sorting.{sort_by}
use irl_notifs.Base.Time.{Duration, add}
use irl_notifs.Registry.Types.{ResolvedDestination, StoredRoute, StoredDestination}
use irl_notifs.Registry.Match.{
  match_routes, match_pattern, cut_star, usable_by, destination_usable_by,
}
use irl_notifs.Registry.Fields.{
  Fields, FieldTests, field, field_or_empty, validate_destination_fields, valid_signing_secret,
}
use irl_notifs.Registry.Service.{
  done, refused, destination_not_found, Secrets, is_matched, resolve, resolve_named, hours,
  rotate_secret, write_rotation, unseal, unseal_all,
}
use irl_notifs.Registry.Service.Resolve.{
  is_open_to, resolve_iff, visible, has_name, resolve_named-visible,
}
use irl_notifs.Registry.Service.Rotation.{
  OpensSealed, signing_secret, signing_secret_previous, rotate_secret-open,
}
use irl_notifs.Provisioning.Throttle.{
  AttemptThrottle, window_start, recent, allowed, retry_after, allow,
}
use irl_notifs.Provisioning.Throttle.Window.{remembered, allow_iff}

abbrev old_secret : Text
old_secret = codes "0123456789abcdef0123456789abcdef"

abbrev fresh_secret : Text
fresh_secret = codes "fedcba9876543210fedcba9876543210"

abbrev before_rotation : Fields
before_rotation = (codes "url", codes "https://x") ∷ (signing_secret, old_secret) ∷ []

abbrev after_rotation : Fields
after_rotation =
    (codes "url", codes "https://x")
    ∷ (signing_secret, fresh_secret)
    ∷ (signing_secret_previous, old_secret)
    ∷ []

abbrev fields_eq : Fields → Fields → Bool
fields_eq [] [] = true
fields_eq ((k, v) ∷ rest) ((l, w) ∷ others) = text_eq k l && text_eq v w && fields_eq rest others
fields_eq _ _ = false

fields_eq_sound : (f g : Fields) → fields_eq f g ≡ true → f ≡ g
fields_eq_sound [] [] h = refl
fields_eq_sound [] ((l, w) ∷ others) h = ground (arith, h)
fields_eq_sound ((k, v) ∷ rest) [] h = ground (arith, h)
fields_eq_sound ((k, v) ∷ rest) ((l, w) ∷ others) h =
    ground (arith, h, text_eq_iff k l, text_eq_iff v w, fields_eq_sound rest others)

-- A sealer of two blobs: `new` holds the fields after the rotation, any other the ones before.
abbrev two_blobs : Secrets
two_blobs = record {
  seal = λ name fields.
      if fields_eq fields after_rotation then done (codes "new") else refused destination_not_found;
  open_sealed = λ name sealed.
      if text_eq sealed (codes "new") then done after_rotation else done before_rotation;
  new_secret = done fresh_secret;
  format_time = λ t. codes "2026-01-01T00:00:00Z";
}

two_blobs-OpensSealed : OpensSealed two_blobs
two_blobs-OpensSealed name sealed fields h = elim (Bool-cases (fields_eq fields after_rotation)) [
  | inl e ↦
      ground (arith, e, h, fields_eq_sound fields after_rotation e, text_eq_refl (codes "new"))
  | inr e ↦ ground (arith, e, h)
]

abbrev hook_tests : FieldTests
hook_tests = record {
  parse_url = λ raw. some (record {
    scheme = codes "https";
    host = codes "x";
    hostname = codes "x";
    escaped_path = [];
    has_user = false;
  });
  to_lower = λ text. text;
  is_time = λ text. true;
}

abbrev hook : StoredDestination
hook = record {
  id = pos 3;
  name = codes "ops";
  type = codes "webhook";
  config = [];
  sealed_secrets = codes "old";
  enabled = true;
  disabled_reason = none;
  owner_kind = codes "operator";
  owner_app_id = none;
}

abbrev other_hook : StoredDestination
other_hook = record hook {
  id = pos 4;
  name = codes "theirs";
  owner_kind = codes "app";
  owner_app_id = some (codes "b");
}

abbrev rotated_hook : StoredDestination
rotated_hook = record hook {
  config = (codes "previous_secret_expires_at", codes "2026-01-01T00:00:00Z") ∷ [];
  sealed_secrets = codes "new";
}

rotation_done :
    rotate_secret hook_tests two_blobs (pos 1000) 24 hook ≡ done (rotated_hook, fresh_secret)
unfolding rotate_secret text_eq write_rotation validate_destination_fields valid_signing_secret
rotation_done = refl

rotate_secret-open_example :
    (before after : Fields) × (two_blobs.open_sealed (codes "ops") (codes "old") ≡ done before)
    × (two_blobs.open_sealed (codes "ops") (codes "new") ≡ done after)
    × (field signing_secret after ≡ some fresh_secret)
    × (field signing_secret_previous after ≡ some (field_or_empty signing_secret before))
    × (field (codes "previous_secret_expires_at") rotated_hook.config
        ≡ some (two_blobs.format_time (add (pos 1000) (hours hook_tests two_blobs 24))))
rotate_secret-open_example =
    rotate_secret-open hook_tests two_blobs (pos 1000) 24 hook rotated_hook fresh_secret
      two_blobs-OpensSealed rotation_done

abbrev to_both : StoredRoute
to_both = record {
  id = pos 1;
  app_pattern = codes "a";
  channel_pattern = codes "*";
  destination_ids = pos 3 ∷ pos 4 ∷ [];
  destination_names = codes "ops" ∷ codes "theirs" ∷ [];
  enabled = true;
  owner_kind = codes "operator";
  owner_app_id = none;
}

abbrev opened_hook : ResolvedDestination
opened_hook = record {
  id = pos 3;
  name = codes "ops";
  type = codes "webhook";
  config = [];
  secrets = before_rotation;
}

only_ours :
    resolve two_blobs (codes "a") [] (codes "news") (to_both ∷ []) (hook ∷ other_hook ∷ [])
    ≡ done (opened_hook ∷ [])
unfolding resolve unseal_all unseal sort_by match_routes match_pattern text_eq cut_star usable_by
    destination_usable_by
only_ours = refl

resolve_iff_example :
    any (λ d. eqb_ℤ d.id (pos 4)) (opened_hook ∷ [])
    ≡ any
        (λ r.
          is_matched (match_routes (to_both ∷ []) (codes "a") (codes "news")) r
          && (eqb_ℤ r.id (pos 4) && is_open_to (codes "a") r))
        (hook ∷ other_hook ∷ [])
resolve_iff_example =
    resolve_iff two_blobs (codes "a") (codes "news") (to_both ∷ []) (hook ∷ other_hook ∷ [])
      (opened_hook ∷ []) (pos 4) only_ours

one_theirs : count_if (has_name (codes "theirs")) (hook ∷ other_hook ∷ []) ≤ 1
unfolding text_eq
one_theirs = omega arith

resolve_named-visible_example :
    resolve_named two_blobs (codes "a") (codes "theirs") (hook ∷ other_hook ∷ [])
    ≡ resolve_named two_blobs
        (codes "a")
        (codes "theirs")
        (visible (codes "a") (hook ∷ other_hook ∷ []))
resolve_named-visible_example =
    resolve_named-visible two_blobs (codes "a") (codes "theirs") (hook ∷ other_hook ∷ []) one_theirs

abbrev one_attempt : AttemptThrottle
one_attempt = record {
  attempts = (codes "p/a", pos 5000 ∷ []) ∷ [];
  last_sweep = pos 0;
  sweeps = 0;
}

allow_iff_example :
    (((allow (codes "p/a") (pos 1) (pos 9000) one_attempt).1 ≡ allowed)
      × (pos (length (recent (codes "p/a") (window_start (pos 9000)) one_attempt.attempts))
          <ℤ pos 1)
      × (remembered (codes "p/a") (pos 1) (pos 9000) one_attempt
          ≡ recent (codes "p/a") (window_start (pos 9000)) one_attempt.attempts ++ pos 9000 ∷ []))
    ⊎ ((wait : Duration) × ((allow (codes "p/a") (pos 1) (pos 9000) one_attempt).1
          ≡ retry_after wait)
        × (pos 0 <ℤ wait)
        × (pos 1
            ≤ℤ pos (length (recent (codes "p/a") (window_start (pos 9000)) one_attempt.attempts)))
        × (remembered (codes "p/a") (pos 1) (pos 9000) one_attempt
            ≡ recent (codes "p/a") (window_start (pos 9000)) one_attempt.attempts))
allow_iff_example = allow_iff (codes "p/a") (pos 1) (pos 9000) one_attempt (omega arith)
