-- ===== src/Registry/Match.antt =====
-- registry/match.go. The map from a destination to its routes is a list of entries in the order of
-- their first mention; slices.SortFunc on the ids is an insertion sort.
pub mod Patterns
pub mod Routes
use irl_notifs.Base.{
  ℕ, ℤ, leb_ℤ, eqb_ℤ, Text, codes, text_eq, Bool, true, false, ◌&&◌, ◌||◌, not, Option, none, some,
  List, [], ◌∷◌, ◌++◌, ◌==◌, any, if◌then◌else◌,
}
use irl_notifs.Registry.Types.{StoredRoute, StoredDestination}

-- strings.CutSuffix(pattern, "*"): the part before a trailing star.
unfoldable pub cut_star : Text → Option Text
cut_star [] = none
cut_star (b ∷ []) = if b == 42 then some [] else none
cut_star (b ∷ c ∷ bs) = elim (cut_star (c ∷ bs)) [ none ↦ none | some prefix ↦ some (b ∷ prefix) ]

-- strings.HasPrefix(value, prefix).
unfoldable pub has_prefix : Text → Text → Bool
has_prefix value [] = true
has_prefix [] (p ∷ ps) = false
has_prefix (b ∷ bs) (p ∷ ps) = b == p && has_prefix bs ps

unfoldable pub match_pattern : Text → Text → Bool
match_pattern pattern value =
    if text_eq pattern (codes "*") then true else elim (cut_star pattern) [
      | some prefix ↦ has_prefix value prefix
      | none ↦ text_eq pattern value
    ]

pub record DestinationMatch : Type 0 where
  pub destination_id : ℤ
  pub route_ids : List ℤ

-- Appending a route's id unless slices.Contains it.
append_once : ℤ → List ℤ → List ℤ
append_once id ids = if any (eqb_ℤ id) ids then ids else ids ++ id ∷ []

add_route : ℤ → ℤ → List DestinationMatch → List DestinationMatch
unfolding append_once
add_route destination_id route_id [] =
    record { destination_id = destination_id; route_ids = append_once route_id [] } ∷ []
add_route destination_id route_id (m ∷ ms) =
    if eqb_ℤ m.destination_id destination_id
    then record m { route_ids = append_once route_id m.route_ids } ∷ ms
    else m ∷ add_route destination_id route_id ms

add_destinations : ℤ → List ℤ → List DestinationMatch → List DestinationMatch
unfolding add_route
add_destinations route_id [] ms = ms
add_destinations route_id (id ∷ ids) ms = add_destinations route_id ids (add_route id route_id ms)

pub fires : Text → Text → StoredRoute → Bool
fires app_id channel route =
    route.enabled
    && match_pattern route.app_pattern app_id
    && match_pattern route.channel_pattern channel

collect : Text → Text → List StoredRoute → List DestinationMatch → List DestinationMatch
unfolding add_destinations fires
collect app_id channel [] ms = ms
collect app_id channel (route ∷ routes) ms =
    collect app_id channel routes (
      if fires app_id channel route then add_destinations route.id route.destination_ids ms else ms)

insert_match : DestinationMatch → List DestinationMatch → List DestinationMatch
insert_match m [] = m ∷ []
insert_match m (n ∷ ns) =
    if leb_ℤ m.destination_id n.destination_id then m ∷ n ∷ ns else n ∷ insert_match m ns

sort_matches : List DestinationMatch → List DestinationMatch
unfolding insert_match
sort_matches [] = []
sort_matches (m ∷ ms) = insert_match m (sort_matches ms)

unfoldable pub match_routes : List StoredRoute → Text → Text → List DestinationMatch
unfolding collect sort_matches
match_routes routes app_id channel = sort_matches (collect app_id channel routes [])

unfoldable pub destination_usable_by : Text → Option Text → Text → Bool
destination_usable_by owner_kind owner_app_id app_id =
    if text_eq owner_kind (codes "operator")
    then elim owner_app_id [ none ↦ true | some _ ↦ false ]
    else if text_eq owner_kind (codes "app")
    then elim owner_app_id [
      | none ↦ false
      | some owner ↦ not (text_eq owner []) && text_eq owner app_id
    ]
    else false

unfoldable pub usable_by : StoredDestination → Text → Bool
usable_by destination app_id =
    destination_usable_by destination.owner_kind destination.owner_app_id app_id
