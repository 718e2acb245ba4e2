-- ===== src/Node/Hydration.antt =====
-- src/core/node.cpp: construction, the overlay, the working state from the store, `load`.
use loti.Base.{ℕ, zero, suc, ◌+◌, Bool, true, false, List, [], ◌∷◌, ◌++◌}
use loti.Base.{none, some, length, nat_eq, if◌then◌else◌}
use loti.Base.Key.{bytes_key}
use loti.Base.Table.{Table, lookup, insert}
use loti.Domain.{NodeId, TimeRange, Timestamp, Event, LocalClockEvent, Neighbor, TimedRoute}
use loti.Store
use loti.Store.{Store}
use loti.Node.Outcome.{Outcome, done, out_of_range, ◌>>=◌, or_fault}
use loti.Node.State.{Node, NodeConfig, static_shortest_path, flood}

-- One of the sequences is a clock event of the chain.
unfoldable pub any_on_chain : Store → ℕ → List ℕ → Outcome Bool
any_on_chain s chain [] = done false
any_on_chain s chain (seq ∷ seqs) =
    let rest = any_on_chain s chain seqs in
    or_fault out_of_range (Store.clock_event_by_seq seq s) >>= λ c.
    if nat_eq c.chain chain then done true else rest

-- The events of index below `k` that come after the last one that the chain references, in publish
-- order: the walk goes from index `k - 1` down, and its results are reversed.
unfoldable pub tail_below : Store → ℕ → ℕ → List Event → Outcome (List Event)
unfolding any_on_chain
tail_below s chain zero later = done later
tail_below s chain (suc k) later = or_fault out_of_range (Store.event_by_seq k s) >>= λ e.
    any_on_chain s chain (Store.clock_events_referencing e.hash s) >>= λ referenced.
    elim referenced [ true ↦ done later | false ↦ tail_below s chain k (e ∷ later) ]

-- The tails of `n` chains, from chain `chain` on.
unfoldable pub tails : Store → ℕ → ℕ → Outcome (List (List Event))
unfolding tail_below
tails s zero chain = done []
tails s (suc n) chain =
    let rest = tails s n (chain + 1) in
    tail_below s chain (Store.event_count s) [] >>= λ es. rest >>= λ ess. done (es ∷ ess)

unfoldable pub hydrate_working_state : Node → Outcome Node
unfolding tails
hydrate_working_state n = tails n.store n.num_chains 0 >>= λ ess. done (record n {
  neighbors = n.store.neighbors;
  destination_to_next_hop = n.store.routes;
  timed_routes = n.store.timed_routes;
  unreferenced_per_chain = ess;
})

-- A cap of the flood policy that is not set becomes a bounded one.
unfoldable pub default_to : ℕ → ℕ → ℕ
default_to d v = if nat_eq v 0 then d else v

unfoldable pub bounded_config : NodeConfig → NodeConfig
unfolding default_to
bounded_config c = elim c.discovery_routing [
  | static_shortest_path ↦ c
  | flood ↦ record c {
    discovery_fanout = default_to 8 c.discovery_fanout;
    discovery_hop_limit = default_to 32 c.discovery_hop_limit;
    discovery_forward_cap = default_to 8 c.discovery_forward_cap;
  }
]

-- `std::max<std::size_t>(1, size)`
unfoldable pub at_least_one : ℕ → ℕ
at_least_one zero = 1
at_least_one (suc n) = suc n

-- The constructor, over a store and at a time.
unfoldable pub make_node : NodeId → NodeConfig → Store → Timestamp → Outcome Node
unfolding bounded_config at_least_one hydrate_working_state
make_node id config s now = hydrate_working_state (record {
  id = id;
  config = bounded_config config;
  num_chains = at_least_one (length config.chains);
  now = now;
  salts_drawn = 0;
  store = s;
  neighbors = [];
  unreferenced_per_chain = [];
  destination_to_next_hop = [];
  timed_routes = [];
  chain_discoveries = [];
  bounds_discoveries = [];
  order_discoveries = [];
  flood_seen = [];
  effects = [];
})

unfoldable pub add_neighbor : NodeId → Node → Node
add_neighbor id n = elim (lookup id n.neighbors) [
  | some nb ↦ n
  | none ↦
      let nb : Neighbor = record { node_id = id; last_clock_event_hashes = [] } in
      record n { neighbors = insert id nb n.neighbors; store = Store.put_neighbor nb n.store }
]

unfoldable pub learn_route : NodeId → NodeId → Node → Node
learn_route destination next_hop n = record n {
  destination_to_next_hop = insert destination next_hop n.destination_to_next_hop;
  store = Store.put_route destination next_hop n.store;
}

-- `timed_routes_[destination]`, which a missing key starts empty.
unfoldable pub routes_to : NodeId → Table NodeId (List TimedRoute) → List TimedRoute
routes_to destination t = elim (lookup destination t) [ none ↦ [] | some rs ↦ rs ]

unfoldable pub learn_route_at : NodeId → NodeId → TimeRange → Node → Node
unfolding routes_to
learn_route_at destination next_hop validity n =
    let route : TimedRoute = record { validity = validity; next_hops = next_hop ∷ [] } in
    let table =
      insert destination (routes_to destination n.timed_routes ++ (route ∷ [])) n.timed_routes in
    record n { timed_routes = table; store = Store.put_timed_routes table n.store }

-- The loops of `load`, one for each kind of record.
unfoldable pub put_all {ℓ} : {A : Type ℓ} → (A → Store → Store) → List A → Store → Store
put_all put [] s = s
put_all put (x ∷ xs) s = put_all put xs (put x s)

unfoldable pub load :
    List Event
    → List LocalClockEvent
    → Table NodeId Neighbor
    → Table NodeId NodeId
    → Node
    → Outcome Node
unfolding put_all hydrate_working_state
load events clock_events neighbors routes n =
    let s0 = Store.clear n.store in
    let s1 = put_all (λ e s. (Store.append_event e s).1) events s0 in
    let s2 = put_all (λ c s. (Store.append_clock_event c s).1) clock_events s1 in
    let s3 = put_all (λ (p : NodeId × Neighbor) s. Store.put_neighbor p.1 s) neighbors s2 in
    let s4 = put_all (λ (p : NodeId × NodeId) s. Store.put_route p.0 p.1 s) routes s3 in
    hydrate_working_state (record n { store = s4 })
