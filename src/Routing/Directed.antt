-- ===== src/Routing/Directed.antt =====
-- src/core/routing/discovery_router.hpp, RoutingTableRouter: the directed hops and the fallback.
use loti.Base.{◌≡◌, refl, ◌∙◌, arith, Bool, true, false, ◌&&◌, ◌||◌, List, [], ◌∷◌}
use loti.Base.{Option, none, some}
use loti.Base.Key.{bytes_eq, bytes_key, bytes_eq_iff}
use loti.Base.Table.{lookup}
use loti.Domain.{NodeId, TimeRange, TimedRoute, TimedRouteTable}
use loti.Routing.{
  member, overlaps, direct_hop, direct_hops, direct_route, direct_routes, or_else, table_next_hops,
}
use loti.Routing.Members.{member-snoc}

-- `x` is a hop of a route whose validity overlaps the window.
abbrev pub routed_within : TimeRange → NodeId → List TimedRoute → Bool
routed_within range x [] = false
routed_within range x (t ∷ ts) =
    (overlaps t.validity range && member x t.next_hops) || routed_within range x ts

module _ (crosslinked : List NodeId) where
  -- The directed hops that can be used.
  abbrev pub usable : TimeRange → List TimedRoute → NodeId → Bool
  usable range routes x = routed_within range x routes && member x crosslinked

  member-direct_hop :
      (x : NodeId) (directed : List NodeId) (hop : NodeId)
      → member x (direct_hop crosslinked directed hop)
        ≡ (member x directed || (bytes_eq hop x && member x crosslinked))
  unfolding direct_hop
  member-direct_hop x directed hop = ground (arith, member-snoc x hop directed, bytes_eq_iff hop x)

  member-direct_hops :
      (x : NodeId) (directed hops : List NodeId)
      → member x (direct_hops crosslinked directed hops)
        ≡ (member x directed || (member x hops && member x crosslinked))
  unfolding direct_hops member
  member-direct_hops x directed [] = ground arith
  member-direct_hops x directed (hop ∷ hops) =
      member-direct_hops x (direct_hop crosslinked directed hop) hops
      ∙ ground (arith, member-direct_hop x directed hop)

  member-direct_route :
      (x : NodeId) (range : TimeRange) (directed : List NodeId) (t : TimedRoute)
      → member x (direct_route crosslinked range directed t)
        ≡ (member x directed || usable range (t ∷ []) x)
  unfolding direct_route
  member-direct_route x range directed t = ground (arith, member-direct_hops x directed t.next_hops)

  member-direct_routes :
      (x : NodeId) (range : TimeRange) (directed : List NodeId) (routes : List TimedRoute)
      → member x (direct_routes crosslinked range directed routes)
        ≡ (member x directed || usable range routes x)
  unfolding direct_routes
  member-direct_routes x range directed [] = ground arith
  member-direct_routes x range directed (t ∷ ts) =
      member-direct_routes x range (direct_route crosslinked range directed t) ts
      ∙ ground (arith, member-direct_route x range directed t)

  -- The directed hops, from no hop on.
  member-directed :
      (x : NodeId) (range : TimeRange) (routes : List TimedRoute)
      → member x (direct_routes crosslinked range [] routes) ≡ usable range routes x
  unfolding member
  member-directed x range routes = member-direct_routes x range [] routes

or_else_hit :
    (y : NodeId) (xs fallback : List NodeId) → member y xs ≡ true → or_else xs fallback ≡ xs
unfolding or_else member
or_else_hit y [] fallback h = cc
or_else_hit y (x ∷ xs) fallback h = refl

or_else_miss :
    (xs fallback : List NodeId)
    → ((x : NodeId) → member x xs ≡ false)
    → or_else xs fallback ≡ fallback
unfolding or_else member
or_else_miss [] fallback h = refl
or_else_miss (x ∷ xs) fallback h = ground (arith, h x, bytes_eq_iff x x)

module _ (table : TimedRouteTable) (crosslinked : List NodeId) (destination : NodeId)
    (range : TimeRange) where
  -- With a usable directed hop, the answer is exactly the usable ones: the hops of routes that
  -- overlap the window and that are candidates of the fallback.
  pub table_next_hops_hit :
      (routes : List TimedRoute) (y : NodeId)
      → lookup destination table ≡ some routes
      → usable crosslinked range routes y ≡ true
      → (x : NodeId)
      → member x (table_next_hops table crosslinked destination range)
        ≡ usable crosslinked range routes x
  unfolding table_next_hops
  table_next_hops_hit routes y h u x =
      rw (table_next_hops, h)
        (rw
          (or_else_hit y (direct_routes crosslinked range [] routes) crosslinked
            (member-directed crosslinked y range routes ∙ u))
          (member-directed crosslinked x range routes))

  -- With no route to the destination, or none that gives a usable hop, the answer is the fallback's.
  pub table_next_hops_miss :
      ((routes : List TimedRoute) (x : NodeId)
        → lookup destination table ≡ some routes
        → usable crosslinked range routes x ≡ false)
      → table_next_hops table crosslinked destination range ≡ crosslinked
  table_next_hops_miss h = at_lookup (lookup destination table) refl
    where
      at_lookup :
          (o : Option (List TimedRoute))
          → lookup destination table ≡ o
          → table_next_hops table crosslinked destination range ≡ crosslinked
      at_lookup none e = unfold table_next_hops in rw (table_next_hops, e)
      at_lookup (some routes) e =
          unfold table_next_hops in
          rw (table_next_hops, e)
            (or_else_miss (direct_routes crosslinked range [] routes) crosslinked
              (λ x. member-directed crosslinked x range routes ∙ h routes x e))
