-- ===== src/Registry/Match/Routes.antt =====
-- What MatchRoutes returns, against a description route by route.
use irl_notifs.Base.{
  ℤ, ◌<ℤ◌, eqb_ℤ, ◌≡◌, refl, ◌∙◌, Text, true, false, ◌&&◌, List, [], ◌∷◌, ◌++◌, arith, any,
  if◌then◌else◌, Bool-cases, inl, inr,
}
use irl_notifs.Registry.Types.{StoredRoute}
use irl_notifs.Registry.Match.{
  DestinationMatch, append_once, add_route, add_destinations, fires, collect, insert_match,
  sort_matches, match_routes,
}

-- The routes that a list of matches gives for a destination.
abbrev pub route_ids_for : ℤ → List DestinationMatch → List ℤ
route_ids_for d [] = []
route_ids_for d (m ∷ ms) = if eqb_ℤ m.destination_id d then m.route_ids else route_ids_for d ms

-- The ids of the firing routes that name the destination, in route order, each once.
abbrev pub firing_ids : Text → Text → ℤ → List StoredRoute → List ℤ → List ℤ
firing_ids app_id channel d [] ids = ids
firing_ids app_id channel d (route ∷ routes) ids = firing_ids app_id channel d routes (
    if fires app_id channel route && any (eqb_ℤ d) route.destination_ids
    then (if any (eqb_ℤ route.id) ids then ids else ids ++ route.id ∷ [])
    else ids)

eqb_trans : (a b c : ℤ) → eqb_ℤ a b ≡ true → eqb_ℤ a c ≡ eqb_ℤ b c
eqb_trans a b c h = ground arith

any-append_self : (r : ℤ) (ids : List ℤ) → any (eqb_ℤ r) (ids ++ r ∷ []) ≡ true
any-append_self r [] = ground arith
any-append_self r (i ∷ ids) = ground (arith, any-append_self r ids)

append_once_twice : (r : ℤ) (ids : List ℤ) → append_once r (append_once r ids) ≡ append_once r ids
unfolding append_once
append_once_twice r ids = ground (arith, any-append_self r ids)

ids-add_route :
    (e d r : ℤ) (ms : List DestinationMatch)
    → route_ids_for e (add_route d r ms)
      ≡ (if eqb_ℤ e d then append_once r (route_ids_for e ms) else route_ids_for e ms)
unfolding add_route
ids-add_route e d r [] = ground arith
ids-add_route e d r (m ∷ ms) = ground (arith, ids-add_route e d r ms)

ids-add_destinations :
    (e r : ℤ) (ds : List ℤ) (ms : List DestinationMatch)
    → route_ids_for e (add_destinations r ds ms)
      ≡ (if any (eqb_ℤ e) ds then append_once r (route_ids_for e ms) else route_ids_for e ms)
unfolding add_destinations
ids-add_destinations e r [] ms = refl
ids-add_destinations e r (d ∷ ds) ms =
    ids-add_destinations e r ds (add_route d r ms)
    ∙ ground (arith, ids-add_route e d r ms, append_once_twice r (route_ids_for e ms))

ids-collect :
    (app_id channel : Text) (e : ℤ) (routes : List StoredRoute) (ms : List DestinationMatch)
    → route_ids_for e (collect app_id channel routes ms)
      ≡ firing_ids app_id channel e routes (route_ids_for e ms)
unfolding collect append_once
ids-collect app_id channel e [] ms = refl
ids-collect app_id channel e (route ∷ routes) ms = elim (Bool-cases (fires app_id channel route)) [
  | inl h ↦
      rw
        (
          h,
          ids-collect app_id channel e routes (add_destinations route.id route.destination_ids ms),
          ids-add_destinations e route.id route.destination_ids ms,
        )
        refl
  | inr h ↦ rw h (ids-collect app_id channel e routes ms)
]

ids-insert :
    (e : ℤ) (m : DestinationMatch) (ms : List DestinationMatch)
    → route_ids_for e (insert_match m ms) ≡ route_ids_for e (m ∷ ms)
unfolding insert_match
ids-insert e m [] = refl
ids-insert e m (n ∷ ns) = ground (arith, ids-insert e m ns)

ids-sort :
    (e : ℤ) (ms : List DestinationMatch) → route_ids_for e (sort_matches ms) ≡ route_ids_for e ms
unfolding sort_matches
ids-sort e [] = refl
ids-sort e (m ∷ ms) = ground (arith, ids-insert e m (sort_matches ms), ids-sort e ms)

-- No entry of the list is for the destination.
abbrev NoEntry : ℤ → List DestinationMatch → Type 0
NoEntry d [] = Unit {0}
NoEntry d (m ∷ ms) = (eqb_ℤ m.destination_id d ≡ false) × NoEntry d ms

abbrev Distinct : List DestinationMatch → Type 0
Distinct [] = Unit {0}
Distinct (m ∷ ms) = NoEntry m.destination_id ms × Distinct ms

-- Ids grow strictly along the list, from above `d`.
abbrev pub Above : ℤ → List DestinationMatch → Type 0
Above d [] = Unit {0}
Above d (m ∷ ms) = (d <ℤ m.destination_id) × Above m.destination_id ms

abbrev pub Ascending : List DestinationMatch → Type 0
Ascending [] = Unit {0}
Ascending (m ∷ ms) = Above m.destination_id ms

NoEntry-add_route :
    (e d r : ℤ) (ms : List DestinationMatch)
    → eqb_ℤ d e ≡ false
    → NoEntry e ms
    → NoEntry e (add_route d r ms)
unfolding add_route
NoEntry-add_route e d r [] ne h = ground arith
NoEntry-add_route e d r (m ∷ ms) ne h = ground (arith, NoEntry-add_route e d r ms ne h.1)

Distinct-add_route :
    (d r : ℤ) (ms : List DestinationMatch) → Distinct ms → Distinct (add_route d r ms)
unfolding add_route
Distinct-add_route d r [] h = ground arith
Distinct-add_route d r (m ∷ ms) h =
    ground (arith, NoEntry-add_route m.destination_id d r ms, Distinct-add_route d r ms h.1)

Distinct-add_destinations :
    (r : ℤ) (ds : List ℤ) (ms : List DestinationMatch)
    → Distinct ms
    → Distinct (add_destinations r ds ms)
unfolding add_destinations
Distinct-add_destinations r [] ms h = h
Distinct-add_destinations r (d ∷ ds) ms h =
    Distinct-add_destinations r ds (add_route d r ms) (Distinct-add_route d r ms h)

Distinct-collect :
    (app_id channel : Text) (routes : List StoredRoute) (ms : List DestinationMatch)
    → Distinct ms
    → Distinct (collect app_id channel routes ms)
unfolding collect
Distinct-collect app_id channel [] ms h = h
Distinct-collect app_id channel (route ∷ routes) ms h =
    elim (Bool-cases (fires app_id channel route)) [
      | inl e ↦ rw e (
          Distinct-collect app_id channel routes
            (add_destinations route.id route.destination_ids ms)
            (Distinct-add_destinations route.id route.destination_ids ms h))
      | inr e ↦ rw e (Distinct-collect app_id channel routes ms h)
    ]

NoEntry-insert :
    (e : ℤ) (m : DestinationMatch) (ms : List DestinationMatch)
    → eqb_ℤ m.destination_id e ≡ false
    → NoEntry e ms
    → NoEntry e (insert_match m ms)
unfolding insert_match
NoEntry-insert e m [] ne h = ground arith
NoEntry-insert e m (n ∷ ns) ne h = ground (arith, NoEntry-insert e m ns ne h.1)

NoEntry-sort : (e : ℤ) (ms : List DestinationMatch) → NoEntry e ms → NoEntry e (sort_matches ms)
unfolding sort_matches
NoEntry-sort e [] h = h
NoEntry-sort e (m ∷ ms) h = NoEntry-insert e m (sort_matches ms) h.0 (NoEntry-sort e ms h.1)

Above-insert :
    (d : ℤ) (m : DestinationMatch) (ms : List DestinationMatch)
    → d <ℤ m.destination_id
    → Above d ms
    → NoEntry m.destination_id ms
    → Above d (insert_match m ms)
unfolding insert_match
Above-insert d m [] lt h ne = ground arith
Above-insert d m (n ∷ ns) lt h ne = ground (
  arith,
  λ (l : n.destination_id <ℤ m.destination_id). Above-insert n.destination_id m ns l h.1 ne.1,
)

Ascending-insert :
    (m : DestinationMatch) (ms : List DestinationMatch)
    → Ascending ms
    → NoEntry m.destination_id ms
    → Ascending (insert_match m ms)
unfolding insert_match
Ascending-insert m [] h ne = ground arith
Ascending-insert m (n ∷ ns) h ne = ground (
  arith,
  λ (l : n.destination_id <ℤ m.destination_id). Above-insert n.destination_id m ns l h ne.1,
)

Ascending-sort : (ms : List DestinationMatch) → Distinct ms → Ascending (sort_matches ms)
unfolding sort_matches
Ascending-sort [] h = ground arith
Ascending-sort (m ∷ ms) h =
    Ascending-insert m (sort_matches ms) (Ascending-sort ms h.1)
      (NoEntry-sort m.destination_id ms h.0)

-- The matches of a message are in strictly ascending order of destination, so each destination is
-- there at most once, and the routes listed for a destination are the ids of the enabled routes
-- whose two patterns match and that name the destination, in route order, each once.
pub match_routes_lem :
    (routes : List StoredRoute) (app_id channel : Text)
    → Ascending (match_routes routes app_id channel)
      × ((e : ℤ)
          → route_ids_for e (match_routes routes app_id channel)
            ≡ firing_ids app_id channel e routes [])
unfolding match_routes
match_routes_lem routes app_id channel = (
  Ascending-sort (collect app_id channel routes [])
      (Distinct-collect app_id channel routes [] (ground arith)),
  λ e. ids-sort e (collect app_id channel routes []) ∙ ids-collect app_id channel e routes [],
)
