-- ===== src/Node/Reachable.antt =====
-- src/core/node.hpp and node.cpp: the calls of the ports and of the application as steps of a node,
-- and the nodes that any sequence of them reaches.
use loti.Base.{ℕ, ap, ◌+◌, [], ◌∷◌, ℤ, ◌≡◌, refl, arith, List, inl, inr}
use loti.Base.Table.{Table, lookup}
use loti.Base.Key.{bytes_key}
use loti.Domain.{Bytes, NodeId, Event, TimeRange, Timestamp, LocalClockEvent, Neighbor}
use loti.Store.{Store}
use loti.Wire.Result.{Result-cases, ok}
use loti.Node.Outcome.{done}
use loti.Node.State.{Node, NodeConfig, ChainConfig, Env, app}
use loti.Node.Forwarding.{on_packet_received}
use loti.Node.Dag.{publish_event, insert_event, create_clock_event, insert_clock_event, gc}
use loti.Node.Api.{
  discover_event_chain, discover_event_bounds, discover_event_order, start, arm_clocks,
  schedule_purge_timer, on_purge_timer, on_clock_timer,
}
use loti.Node.Hydration.{
  make_node, hydrate_working_state, add_neighbor, learn_route, learn_route_at, load,
}
use loti.Node.Snapshot.{restore, get_image, collect_neighbors, collect_routes}
use loti.Node.Completion.{Same, CompletedSound}
use loti.Node.Completed.{CompletedSound-Same, on_packet_received-CompletedSound}
use loti.Node.Requests.{
  discover_event_chain-CompletedSound, discover_event_bounds-CompletedSound,
  discover_event_order-CompletedSound,
}
use loti.Node.Purge.{on_purge_timer-CompletedSound}

-- One call from outside that comes to its end, or the passing of time.
pub data Step (env : Env) : Node → Node → Type 0 where
  packet :
      (datagram : Bytes) (n n' : Node) → on_packet_received env datagram n ≡ done n' → Step env n n'
  want_chain :
      (event : Event) (range : TimeRange) (callback : ℕ) (n n' : Node)
      → discover_event_chain env event range (app callback) n ≡ done n'
      → Step env n n'
  want_bounds :
      (event : Event) (range : TimeRange) (callback : ℕ) (n n' : Node)
      → discover_event_bounds env event range callback n ≡ done n'
      → Step env n n'
  want_order :
      (event1 event2 : Event) (range : TimeRange) (callback : ℕ) (n n' : Node)
      → discover_event_order env event1 event2 range callback n ≡ done n'
      → Step env n n'
  purge : (n n' : Node) → on_purge_timer n ≡ done n' → Step env n n'
  publish : (content : Bytes) (n : Node) → Step env n (publish_event env content n).1
  tick : (chain : ℕ) (interval : ℤ) (n : Node) → Step env n (on_clock_timer env chain interval n)
  clock : (now : Timestamp) (n : Node) → Step env n (record n { now = now })
  begin : (n : Node) → Step env n (start n)
  collect : (n : Node) → Step env n (gc n)
  meet : (id : NodeId) (n : Node) → Step env n (add_neighbor id n)
  route :
      (destination next_hop : NodeId) (n : Node) → Step env n (learn_route destination next_hop n)
  route_at :
      (destination next_hop : NodeId) (validity : TimeRange) (n : Node)
      → Step env n (learn_route_at destination next_hop validity n)
  reload :
      (events : List Event) (clock_events : List LocalClockEvent)
      (neighbors : Table NodeId Neighbor) (routes : Table NodeId NodeId) (n n' : Node)
      → load events clock_events neighbors routes n ≡ done n'
      → Step env n n'
  back_up : (blob : Bytes) (n n' : Node) → restore blob n ≡ ok (done n') → Step env n n'

-- The nodes that a constructed one becomes.
pub data Reachable (env : Env) : Node → Type 0 where
  built :
      (id : NodeId) (config : NodeConfig) (s : Store) (now : Timestamp) (n : Node)
      → make_node id config s now ≡ done n
      → Reachable env n
  after : (n n' : Node) → Reachable env n → Step env n n' → Reachable env n'

arm_clocks-Same : (chain : ℕ) (cs : List ChainConfig) (n : Node) → Same n (arm_clocks chain cs n)
unfolding arm_clocks
arm_clocks-Same chain [] n = (refl, refl)
arm_clocks-Same chain (c ∷ cs) n = grind (arith, arm_clocks-Same (chain + 1) cs)

start-Same : (n : Node) → Same n (start n)
unfolding start schedule_purge_timer
start-Same n = let same = arm_clocks-Same 0 n.config.chains n in ground (arith, same)

add_neighbor-Same : (id : NodeId) (n : Node) → Same n (add_neighbor id n)
unfolding add_neighbor
add_neighbor-Same id n = ground arith

load-Same :
    (events : List Event) (clock_events : List LocalClockEvent) (neighbors : Table NodeId Neighbor)
    (routes : Table NodeId NodeId) (n n' : Node)
    → load events clock_events neighbors routes n ≡ done n'
    → Same n n'
unfolding load hydrate_working_state
load-Same events clock_events neighbors routes n n' h = ground arith

restore-Same : (blob : Bytes) (n n' : Node) → restore blob n ≡ ok (done n') → Same n n'
unfolding restore
restore-Same blob n n' h = elim (Result-cases (get_image blob)) [
  | inr (x, bad) ↦ cc (rw (restore, bad) at h)
  | inl ((image, rest), good) ↦
      load-Same image.events image.clock_events (collect_neighbors image.neighbors [])
        (collect_routes image.routes []) n n' (cc (rw (restore, good) at h))
]

module _ (env : Env) where
  -- A step keeps it.
  Step-CompletedSound : (n n' : Node) → Step env n n' → CompletedSound env n → CompletedSound env n'
  unfolding publish_event insert_event on_clock_timer create_clock_event insert_clock_event gc
      learn_route learn_route_at
  Step-CompletedSound _ _ (packet d n n' h) s = on_packet_received-CompletedSound env d n n' h s
  Step-CompletedSound _ _ (want_chain e r c n n' h) s =
      discover_event_chain-CompletedSound env e r (app c) n n' h s
  Step-CompletedSound _ _ (want_bounds e r c n n' h) s =
      discover_event_bounds-CompletedSound env e r c n n' h s
  Step-CompletedSound _ _ (want_order e1 e2 r c n n' h) s =
      discover_event_order-CompletedSound env e1 e2 r c n n' h s
  Step-CompletedSound _ _ (purge n n' h) s = on_purge_timer-CompletedSound env n n' h s
  Step-CompletedSound _ _ (publish content n) s = CompletedSound-Same env n _ (refl, refl) s
  Step-CompletedSound _ _ (tick chain interval n) s = CompletedSound-Same env n _ (refl, refl) s
  Step-CompletedSound _ _ (clock now n) s = CompletedSound-Same env n _ (refl, refl) s
  Step-CompletedSound _ _ (begin n) s = CompletedSound-Same env n _ (start-Same n) s
  Step-CompletedSound _ _ (collect n) s = CompletedSound-Same env n _ (refl, refl) s
  Step-CompletedSound _ _ (meet id n) s = CompletedSound-Same env n _ (add_neighbor-Same id n) s
  Step-CompletedSound _ _ (route d h n) s = CompletedSound-Same env n _ (refl, refl) s
  Step-CompletedSound _ _ (route_at d h v n) s = CompletedSound-Same env n _ (refl, refl) s
  Step-CompletedSound _ _ (reload es cs ns rs n n' h) s =
      CompletedSound-Same env n n' (load-Same es cs ns rs n n' h) s
  Step-CompletedSound _ _ (back_up blob n n' h) s =
      CompletedSound-Same env n n' (restore-Same blob n n' h) s

  -- A new node has no discoveries.
  make_node-CompletedSound :
      (id : NodeId) (config : NodeConfig) (s : Store) (now : Timestamp) (n : Node)
      → make_node id config s now ≡ done n
      → CompletedSound env n
  unfolding make_node hydrate_working_state lookup
  make_node-CompletedSound id config s now n h = record {
    at = λ hash e found c.
        let none_yet : n.chain_discoveries ≡ [] = ground arith in
        cc (ap (lookup hash) none_yet, found);
  }

  -- Whatever calls, datagrams and timers a node has lived through, every chain discovery that it
  -- holds as completed holds a chain that the validator accepts for this node.
  pub Reachable-CompletedSound : (n : Node) → Reachable env n → CompletedSound env n
  Reachable-CompletedSound _ (built id config s now n h) =
      make_node-CompletedSound id config s now n h
  Reachable-CompletedSound _ (after n n' r step) =
      Step-CompletedSound n n' step (Reachable-CompletedSound n r)
