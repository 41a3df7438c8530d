-- ===== src/Registry/Service/Resolve.antt =====
-- Which destinations an envelope is resolved to.
use irl_notifs.Base.{
  ◌≤◌, ℤ, eqb_ℤ, Text, text_eq, ◌≡◌, refl, ap, ◌∙◌, inl, inr, Bool, true, false, ◌&&◌, ◌||◌, not,
  Option, none, some, List, [], ◌∷◌, any, keep_if, count_if, arith, Bool-cases, if◌then◌else◌,
}
use irl_notifs.Base.Sorting.{sort_by, any-sort_by, any-keep_if}
use irl_notifs.Registry.Types.{ResolvedDestination, StoredRoute, StoredDestination}
use irl_notifs.Registry.Match.{match_routes, usable_by}
use irl_notifs.Registry.Fields.{Fields}
use irl_notifs.Registry.Service.{
  Outcome, done, refused, ◌and_then◌, Secrets, Destinations, find_destination, text_before, unseal,
  of_named, resolve_named, unseal_all, is_matched, resolve,
}

-- The destinations that an app may be sent to.
abbrev pub is_open_to : Text → StoredDestination → Bool
is_open_to app_id stored = usable_by stored app_id && stored.enabled

abbrev IdsAre : Text → ℤ → List StoredDestination → Outcome (List ResolvedDestination) → Type 0
IdsAre app_id id rows (refused e) = Unit
IdsAre app_id id rows (done ds) =
    any (λ d. eqb_ℤ d.id id) ds ≡ any (λ r. eqb_ℤ r.id id && is_open_to app_id r) rows

module _ (secrets : Secrets) where
  -- One more row that is open to the app.
  open-IdsAre :
      (app_id : Text) (id : ℤ) (stored : StoredDestination) (rows : List StoredDestination)
      (d : Outcome Fields) (rest : Outcome (List ResolvedDestination))
      → is_open_to app_id stored ≡ true
      → IdsAre app_id id rows rest
      → IdsAre app_id id (stored ∷ rows) (
          (d and_then (λ opened. done (record {
            id = stored.id;
            name = stored.name;
            type = stored.type;
            config = stored.config;
            secrets = opened;
          })))
          and_then (λ d. rest and_then (λ ds. done (d ∷ ds))))
  open-IdsAre app_id id stored rows (refused e) rest open_to h = tt
  open-IdsAre app_id id stored rows (done opened) (refused e) open_to h = tt
  open-IdsAre app_id id stored rows (done opened) (done ds) open_to h = ground (arith, open_to, h)

  closed-IdsAre :
      (app_id : Text) (id : ℤ) (stored : StoredDestination) (rows : List StoredDestination)
      (rest : Outcome (List ResolvedDestination))
      → is_open_to app_id stored ≡ false
      → IdsAre app_id id rows rest
      → IdsAre app_id id (stored ∷ rows) rest
  closed-IdsAre app_id id stored rows (refused e) closed h = tt
  closed-IdsAre app_id id stored rows (done ds) closed h = ground (arith, closed, h)

  unseal_all-IdsAre :
      (app_id : Text) (id : ℤ) (rows : List StoredDestination)
      → IdsAre app_id id rows (unseal_all secrets app_id rows)
  unfolding unseal_all unseal
  unseal_all-IdsAre app_id id [] = refl
  unseal_all-IdsAre app_id id (stored ∷ rows) =
      elim (Bool-cases (not (usable_by stored app_id) || not stored.enabled)) [
        | inl h ↦
            rw (h, unseal_all)
              (closed-IdsAre app_id id stored rows (unseal_all secrets app_id rows)
                (ground (arith, h)) (unseal_all-IdsAre app_id id rows))
        | inr h ↦
            rw (h, unseal_all)
              (open-IdsAre app_id id stored rows
                (secrets.open_sealed stored.name stored.sealed_secrets)
                (unseal_all secrets app_id rows) (ground (arith, h))
                (unseal_all-IdsAre app_id id rows))
      ]

done-IdsAre :
    (app_id : Text) (id : ℤ) (rows : List StoredDestination)
    (o : Outcome (List ResolvedDestination)) (ds : List ResolvedDestination)
    → IdsAre app_id id rows o
    → o ≡ done ds
    → any (λ d. eqb_ℤ d.id id) ds ≡ any (λ r. eqb_ℤ r.id id && is_open_to app_id r) rows
done-IdsAre app_id id rows (refused e) ds h eq = ground (arith, eq)
done-IdsAre app_id id rows (done es) ds h eq = ground (arith, eq, h)

-- Without a name in the envelope, a resolution that succeeds has the destinations, by id, that a firing
-- route names, that are enabled and that the app may use, and no others.
pub resolve_iff :
    (secrets : Secrets) (app_id channel : Text) (routes : List StoredRoute) (table : Destinations)
    (ds : List ResolvedDestination) (id : ℤ)
    → resolve secrets app_id [] channel routes table ≡ done ds
    → any (λ d. eqb_ℤ d.id id) ds
      ≡ any
          (λ r.
            is_matched (match_routes routes app_id channel) r
            && (eqb_ℤ r.id id && is_open_to app_id r))
          table
unfolding resolve
resolve_iff secrets app_id channel routes table ds id e =
    done-IdsAre app_id id
      (sort_by (λ d e. text_before d.name e.name)
        (keep_if (is_matched (match_routes routes app_id channel)) table))
      (resolve secrets app_id [] channel routes table) ds
      (unseal_all-IdsAre secrets app_id id (
        sort_by (λ d e. text_before d.name e.name)
          (keep_if (is_matched (match_routes routes app_id channel)) table)))
      e
    ∙ any-sort_by (λ r. eqb_ℤ r.id id && is_open_to app_id r) (λ d e. text_before d.name e.name)
        (keep_if (is_matched (match_routes routes app_id channel)) table)
    ∙ any-keep_if (λ r. eqb_ℤ r.id id && is_open_to app_id r)
        (is_matched (match_routes routes app_id channel)) table

abbrev pub visible : Text → Destinations → Destinations
visible app_id = keep_if (λ d. usable_by d app_id)

abbrev pub has_name : Text → StoredDestination → Bool
has_name name d = text_eq d.name name

visible-absent :
    (app_id name : Text) (table : Destinations)
    → count_if (has_name name) table ≤ 0
    → find_destination name (visible app_id table) ≡ none
visible-absent app_id name [] h = refl
visible-absent app_id name (d ∷ table) h = ground (arith, h, visible-absent app_id name table)

find-visible :
    (app_id name : Text) (table : Destinations)
    → count_if (has_name name) table ≤ 1
    → elim (find_destination name table) [
      | none ↦ none
      | some d ↦ if usable_by d app_id then some d else none
    ]
      ≡ find_destination name (visible app_id table)
find-visible app_id name [] once = refl
find-visible app_id name (d ∷ table) once =
    ground (arith, once, visible-absent app_id name table, find-visible app_id name table)

some_if : (d : StoredDestination) (b : Bool) → b ≡ true → some d ≡ (if b then some d else none)
some_if d b h = ground (arith, h)

none_if : (d : StoredDestination) (b : Bool) → b ≡ false → none ≡ (if b then some d else none)
none_if d b h = ground (arith, h)

of_named-same :
    (secrets : Secrets) (app_id : Text) (o p : Option StoredDestination)
    → elim o [ none ↦ none | some d ↦ if usable_by d app_id then some d else none ] ≡ p
    → of_named secrets app_id o ≡ of_named secrets app_id p
of_named-same secrets app_id none p h = ap (of_named secrets app_id) h
of_named-same secrets app_id (some d) p h = elim (Bool-cases (usable_by d app_id)) [
  | inl e ↦ ap (of_named secrets app_id) (some_if d (usable_by d app_id) e ∙ h)
  | inr e ↦ rw e (ap (of_named secrets app_id) (none_if d (usable_by d app_id) e ∙ h))
]

-- Where names are unique, what a named destination resolves to depends only on the destinations that the app
-- may use: one that it may not use answers like one that is not there.
pub resolve_named-visible :
    (secrets : Secrets) (app_id name : Text) (table : Destinations)
    → count_if (has_name name) table ≤ 1
    → resolve_named secrets app_id name table
      ≡ resolve_named secrets app_id name (visible app_id table)
unfolding resolve_named
resolve_named-visible secrets app_id name table once =
    of_named-same secrets app_id (find_destination name table)
      (find_destination name (visible app_id table)) (find-visible app_id name table once)
