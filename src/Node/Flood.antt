-- ===== src/Node/Flood.antt =====
-- src/core/node.cpp: where an intermediate node sends the copies of a chain request.
use loti.Base.{◌≡◌, refl, sym, ap, ◌∙◌, arith, true, false, ◌||◌}
use loti.Base.{List, [], ◌∷◌, ◌++◌, All, append-nil, Bool-cases, inl, inr}
use loti.Base.{◌⊎◌, leb, nat_eq}
use loti.Base.Key.{bytes_eq, bytes_key, pair_key}
use loti.Base.Table.{Table, lookup}
use loti.Domain.{NodeId, Neighbor, TimeRange, EventHash}
use loti.Wire.Packets.{ChainRequest, chain_request, encode}
use loti.Routing.{member, is_some}
use loti.Node.State.{
  Node, Env, Effect, send, FloodSeen, DiscoveryRouting, static_shortest_path, flood,
}
use loti.Node.Forwarding.{
  skipped, copies, next_hops, flood_chain_request, count_forward, seen_of, forward_request,
  at_hop_limit,
}

-- The copy that node `id` passes on: its own identity is the last of the breadcrumb.
abbrev pub onward : NodeId → ChainRequest → ChainRequest
onward id m = record m { path = m.path ++ (id ∷ []) }

-- A copy of the request, to a neighbor that is neither the node itself nor on the breadcrumb.
pub record IsCopy (id : NodeId) (incoming : List NodeId) (neighbors : Table NodeId Neighbor)
    (m : ChainRequest) (e : Effect) : Type 0 where
  pub hop : NodeId
  pub sends : e ≡ send hop (encode id (chain_request m))
  pub other : bytes_eq hop id ≡ false
  pub fresh : member hop incoming ≡ false
  pub known : is_some (lookup hop neighbors) ≡ true

copies-IsCopy :
    (id : NodeId) (incoming : List NodeId) (neighbors : Table NodeId Neighbor) (m : ChainRequest)
    (hops : List NodeId)
    → All (IsCopy id incoming neighbors m) (copies id incoming neighbors m hops)
unfolding copies skipped
copies-IsCopy id incoming neighbors m [] = tt
copies-IsCopy id incoming neighbors m (hop ∷ hops) =
    let rest = copies-IsCopy id incoming neighbors m hops in
    elim (Bool-cases (skipped id incoming neighbors hop)) [
      | inl s ↦ rw (copies, s) rest
      | inr s ↦
          rw (copies, s)
            (
              record {
                hop = hop;
                sends = refl;
                other = ground arith;
                fresh = ground arith;
                known = ground arith;
              },
              rest,
            )
    ]

routing_cases : (r : DiscoveryRouting) → (r ≡ static_shortest_path) ⊎ (r ≡ flood)
routing_cases static_shortest_path = inl refl
routing_cases flood = inr refl

module _ (env : Env) where
  next_hops-effects :
      (dest : NodeId) (range : TimeRange) (n : Node)
      → ((next_hops env dest range n).1.effects ≡ n.effects)
        × ((next_hops env dest range n).1.store ≡ n.store)
  unfolding next_hops
  next_hops-effects dest range n = elim (routing_cases n.config.discovery_routing) [
    | inl e ↦ rw (next_hops, e) (refl, refl)
    | inr e ↦ rw (next_hops, e) (refl, refl)
  ]

  -- What the flood policy sends, wherever it goes.
  pub record Forwards (m : ChainRequest) (n n' : Node) : Type 0 where
    pub out : List Effect
    pub sent : n'.effects ≡ n.effects ++ out
    pub each : All (IsCopy n.id m.path n.neighbors (onward n.id m)) out
    pub store : n'.store ≡ n.store
    pub stops : (member n.id m.path || at_hop_limit m) ≡ true → out ≡ []
    pub capped :
        leb n.config.discovery_forward_cap (seen_of (m.originator, m.event.hash) n).forwards ≡ true
        → nat_eq n.config.discovery_forward_cap 0 ≡ false
        → out ≡ []

  silent :
      (m : ChainRequest) (n n' : Node)
      → n'.effects ≡ n.effects
      → n'.store ≡ n.store
      → Forwards m n n'
  silent m n n' e s = record {
    out = [];
    sent = e ∙ sym (append-nil n.effects);
    each = tt;
    store = s;
    stops = λ _. refl;
    capped = λ _ _. refl;
  }

  flooded :
      (m : ChainRequest) (n : Node) (seen : Table (NodeId × EventHash) FloodSeen)
      → (member n.id m.path || at_hop_limit m) ≡ false
      → (leb n.config.discovery_forward_cap (seen_of (m.originator, m.event.hash) n).forwards ≡ true
          → nat_eq n.config.discovery_forward_cap 0 ≡ false
          → ⊥)
      → Forwards m n
          (flood_chain_request env m.event.creator m.range m (record n { flood_seen = seen }))
  unfolding flood_chain_request
  flooded m n seen on room =
      let n1 : Node = record n { flood_seen = seen } in
      let (hops, n2) = next_hops env m.event.creator m.range n1 in
      let (effects, store) = next_hops-effects m.event.creator m.range n1 in
      record {
        out = copies n.id m.path n.neighbors (onward n.id m) hops;
        sent =
            ap (λ (es : List Effect). es ++ copies n.id m.path n.neighbors (onward n.id m) hops)
              effects;
        each = copies-IsCopy n.id m.path n.neighbors (onward n.id m) hops;
        store = store;
        stops = λ stop. cc (stop, on);
        capped = λ full some_cap. absurd (room full some_cap);
      }

  -- A node that is on the breadcrumb, that the hop limit stops, or that has forwarded this request as
  -- often as its cap allows, sends nothing; otherwise it sends only copies of the request with itself
  -- appended to the breadcrumb, each to a neighbor that is neither itself nor on the breadcrumb; and
  -- the store stays as it is.
  pub forward_request-Forwards :
      (m : ChainRequest) (n : Node) → Forwards m n (forward_request env m n)
  unfolding forward_request flood_chain_request count_forward
  forward_request-Forwards m n = elim (Bool-cases (member n.id m.path || at_hop_limit m)) [
    | inl stop ↦ rw (forward_request, stop) (silent m n n refl refl)
    | inr on ↦ elim (Bool-cases (nat_eq n.config.discovery_forward_cap 0)) [
      | inl uncapped ↦
          rw (forward_request, on, uncapped) (flooded m n n.flood_seen on (λ _ c. cc (c, uncapped)))
      | inr cap ↦
          elim (Bool-cases (
            leb n.config.discovery_forward_cap (seen_of (m.originator, m.event.hash) n).forwards)) [
              | inl full ↦ rw (forward_request, on, cap, full) (silent m n _ refl refl)
              | inr room ↦
                  rw (forward_request, on, cap, room) (flooded m n _ on (λ c _. cc (c, room)))
            ]
    ]
  ]
