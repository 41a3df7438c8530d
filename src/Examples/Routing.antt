-- ===== src/Examples/Routing.antt =====
-- Registry properties at concrete routes: all of one app, and the alerts of every app.
use irl_notifs.Base.{ℤ, pos, Text, codes, ◌≡◌, ◌↔◌, refl, true, none, [], ◌∷◌, ◌++◌}
use irl_notifs.Registry.Types.{StoredRoute}
use irl_notifs.Registry.Match.{cut_star, match_pattern, match_routes}
use irl_notifs.Registry.Match.Patterns.{match_star_iff}
use irl_notifs.Registry.Match.Routes.{Ascending, route_ids_for, firing_ids, match_routes_lem}

match_star_iff_example :
    (match_pattern (codes "ab" ++ codes "*") (codes "abc") ≡ true)
    ↔ ((tail : Text) × (codes "abc" ≡ codes "ab" ++ tail))
match_star_iff_example = match_star_iff (codes "ab") (codes "abc")

no_star_in : cut_star (codes "ab") ≡ none
unfolding cut_star
no_star_in = refl

abbrev all_of_app : StoredRoute
all_of_app = record {
  id = pos 1;
  app_pattern = codes "a";
  channel_pattern = codes "*";
  destination_ids = pos 9 ∷ pos 4 ∷ [];
  destination_names = codes "x" ∷ codes "y" ∷ [];
  enabled = true;
  owner_kind = codes "operator";
  owner_app_id = none;
}

abbrev alerts : StoredRoute
alerts = record all_of_app {
  id = pos 2;
  app_pattern = codes "*";
  channel_pattern = codes "alert*";
  destination_ids = pos 4 ∷ [];
}

match_routes_lem_example :
    Ascending (match_routes (all_of_app ∷ alerts ∷ []) (codes "a") (codes "alerts"))
    × ((e : ℤ)
        → route_ids_for e (match_routes (all_of_app ∷ alerts ∷ []) (codes "a") (codes "alerts"))
          ≡ firing_ids (codes "a") (codes "alerts") e (all_of_app ∷ alerts ∷ []) [])
match_routes_lem_example = match_routes_lem (all_of_app ∷ alerts ∷ []) (codes "a") (codes "alerts")
