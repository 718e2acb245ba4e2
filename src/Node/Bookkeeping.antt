-- ===== src/Node/Bookkeeping.antt =====
-- src/core/node.cpp: the discoveries in flight, their completion and abortion, and how the node
-- itself, as a chain callback, drives its bounds and order discoveries.
use loti.Base.{ℕ, pos, Bool, true, false, not, ◌&&◌, ◌||◌, List, [], ◌∷◌, ◌++◌, Option, none, some}
use loti.Base.{head?, last?, if◌then◌else◌, map}
use loti.Base.Key.{bytes_eq, bytes_key, pair_key}
use loti.Base.Table.{Table, lookup, insert, emplace}
use loti.Domain.{
  NodeId, EventHash, Event, EventChain, Order, EventChainDiscovery, undetermined,
  EventBoundsDiscovery, EventOrderDiscovery, DiscoveryState, in_progress, completed, aborted,
  all_time,
}
use loti.Validate.{verify_chain, timestamp_of}
use loti.Proof.{compare_chains}
use loti.Node.Outcome.{Outcome, done, fault, assertion, ◌>>=◌}
use loti.Node.State.{
  Node, Env, ChainEntry, BoundsEntry, OrderEntry, ChainCallback, node_itself, app, emit,
  chain_completed, chain_aborted, bounds_completed, bounds_aborted, order_completed, order_aborted,
  on_chain_completed, on_chain_aborted, on_bounds_completed, on_bounds_aborted, on_order_completed,
  on_order_aborted,
}

unfoldable pub is_open : DiscoveryState → Bool
is_open in_progress = true
is_open completed = false
is_open aborted = false

unfoldable pub is_completed : DiscoveryState → Bool
is_completed in_progress = false
is_completed completed = true
is_completed aborted = false

-- `it != end()` and `state == in_progress`, as the assertions demand of an entry.
unfoldable pub open_bounds : Option BoundsEntry → Outcome BoundsEntry
unfolding is_open
open_bounds none = fault assertion
open_bounds (some e) = if is_open e.discovery.state then done e else fault assertion

unfoldable pub open_order : Option OrderEntry → Outcome OrderEntry
unfolding is_open
open_order none = fault assertion
open_order (some e) = if is_open e.discovery.state then done e else fault assertion

unfoldable pub open_chain : Option ChainEntry → Outcome ChainEntry
unfolding is_open
open_chain none = fault assertion
open_chain (some e) = if is_open e.discovery.state then done e else fault assertion

unfoldable pub abort_bounds_discovery : EventHash → Node → Outcome Node
unfolding open_bounds
abort_bounds_discovery hash n = open_bounds (lookup hash n.bounds_discoveries) >>= λ e.
    let d : EventBoundsDiscovery = record (e.discovery) { end_time = n.now; state = aborted } in
    done (record n {
      bounds_discoveries = insert hash (record e { discovery = d }) n.bounds_discoveries;
      effects =
          n.effects
          ++ (map (λ cb. on_bounds_aborted cb d.event) e.callbacks ++ (bounds_aborted d ∷ []));
    })

unfoldable pub complete_bounds_discovery : EventHash → Node → Outcome Node
unfolding open_bounds
complete_bounds_discovery hash n = open_bounds (lookup hash n.bounds_discoveries) >>= λ e.
    let d : EventBoundsDiscovery = record (e.discovery) { end_time = n.now; state = completed } in
    done (record n {
      bounds_discoveries = insert hash (record e { discovery = d }) n.bounds_discoveries;
      effects =
          n.effects
          ++ (map (λ cb. on_bounds_completed cb d.event d.lower_bound d.upper_bound) e.callbacks
              ++ (bounds_completed d ∷ []));
    })

abbrev pub OrderKey : Type 0
OrderKey = EventHash × EventHash

unfoldable pub abort_order_discovery : OrderKey → Node → Outcome Node
unfolding open_order
abort_order_discovery key n = open_order (lookup key n.order_discoveries) >>= λ e.
    let d : EventOrderDiscovery = record (e.discovery) { end_time = n.now; state = aborted } in
    done (record n {
      order_discoveries = insert key (record e { discovery = d }) n.order_discoveries;
      effects =
          n.effects
          ++ (map (λ cb. on_order_aborted cb d.event1 d.event2) e.callbacks
              ++ (order_aborted d ∷ []));
    })

unfoldable pub complete_order_discovery : OrderKey → Node → Outcome Node
unfolding open_order
complete_order_discovery key n = open_order (lookup key n.order_discoveries) >>= λ e.
    let d : EventOrderDiscovery = record (e.discovery) { end_time = n.now; state = completed } in
    done (record n {
      order_discoveries = insert key (record e { discovery = d }) n.order_discoveries;
      effects =
          n.effects
          ++ (map (λ cb. on_order_completed cb d.event1 d.event2 d.order) e.callbacks
              ++ (order_completed d ∷ []));
    })

abbrev pub keys {ℓ κ} : {K : Type ℓ} {V : Type κ} → Table K V → List K
keys [] = []
keys ((k, v) ∷ m) = k ∷ keys m

-- The chain of a completed discovery.
unfoldable pub completed_chain : EventHash → Node → Option EventChain
unfolding is_completed
completed_chain hash n = elim (lookup hash n.chain_discoveries) [
  | none ↦ none
  | some e ↦ if is_completed e.discovery.state then some e.discovery.chain else none
]

-- `d.order = order`, and the completion of the order discovery.
unfoldable pub settle_order : OrderKey → OrderEntry → Order → Node → Outcome Node
unfolding complete_order_discovery
settle_order key e order n =
    let d : EventOrderDiscovery = record (e.discovery) { order = order } in
    complete_order_discovery key
      (record n { order_discoveries = insert key (record e { discovery = d }) n.order_discoveries })

-- One round of the loop over the order discoveries, after the chain of `chain.event` is completed.
unfoldable pub advance_order : EventChain → OrderKey → Node → Outcome Node
unfolding completed_chain settle_order is_open
advance_order chain key n = elim (lookup key n.order_discoveries) [
  | none ↦ done n
  | some e ↦
      if not (is_open e.discovery.state)
      then done n
      else if bytes_eq key.0 chain.event.hash
      then (elim (completed_chain key.1 n) [
        | none ↦ done n
        | some other ↦ settle_order key e (compare_chains chain other) n
      ])
      else if bytes_eq key.1 chain.event.hash
      then (elim (completed_chain key.0 n) [
        | none ↦ done n
        | some other ↦ settle_order key e (compare_chains other chain) n
      ])
      else done n
]

-- A loop whose rounds may stop.
unfoldable pub each_key {ℓ} :
    {K : Type ℓ} → (K → Node → Outcome Node) → List K → Node → Outcome Node
each_key round [] n = done n
each_key round (k ∷ ks) n = round k n >>= λ n'. each_key round ks n'

-- The bounds discovery of the event takes the ends of the chain, if it is in progress.
unfoldable pub settle_bounds : EventChain → Node → Outcome Node
unfolding is_open complete_bounds_discovery
settle_bounds chain n = elim (lookup chain.event.hash n.bounds_discoveries) [
  | none ↦ done n
  | some e ↦
      if is_open e.discovery.state
      then (let d : EventBoundsDiscovery = record (e.discovery) {
        lower_bound = timestamp_of (head? chain.lower_bound);
        upper_bound = timestamp_of (last? chain.upper_bound);
      } in
          complete_bounds_discovery chain.event.hash (record n {
            bounds_discoveries =
                insert chain.event.hash (record e { discovery = d }) n.bounds_discoveries;
          }))
      else done n
]

-- Node::on_chain_completed
unfoldable pub node_on_chain_completed : EventChain → Node → Outcome Node
unfolding settle_bounds advance_order each_key
node_on_chain_completed chain n =
    settle_bounds chain n >>= λ n1. each_key (advance_order chain) (keys n1.order_discoveries) n1

-- One round of the loop of `on_chain_aborted`.
unfoldable pub give_up_order : EventHash → OrderKey → Node → Outcome Node
unfolding is_open abort_order_discovery
give_up_order hash key n = elim (lookup key n.order_discoveries) [
  | none ↦ done n
  | some e ↦
      if is_open e.discovery.state && (bytes_eq key.0 hash || bytes_eq key.1 hash)
      then abort_order_discovery key n
      else done n
]

-- `if (bounds_discoveries_.count(hash)) abort_bounds_discovery(hash)`, whatever its state
unfoldable pub give_up_bounds : EventHash → Node → Outcome Node
unfolding abort_bounds_discovery
give_up_bounds hash n = elim (lookup hash n.bounds_discoveries) [
  | none ↦ done n
  | some e ↦ abort_bounds_discovery hash n
]

-- Node::on_chain_aborted
unfoldable pub node_on_chain_aborted : Event → Node → Outcome Node
unfolding give_up_bounds give_up_order each_key
node_on_chain_aborted event n = give_up_bounds event.hash n >>= λ n1.
    each_key (give_up_order event.hash) (keys n1.order_discoveries) n1

-- `cb->on_chain_aborted(event)`
unfoldable pub tell_aborted : Event → ChainCallback → Node → Outcome Node
unfolding node_on_chain_aborted
tell_aborted event node_itself n = node_on_chain_aborted event n
tell_aborted event (app cb) n = done (emit (on_chain_aborted cb event) n)

-- `cb->on_chain_completed(event, chain)`
unfoldable pub tell_completed : Event → EventChain → ChainCallback → Node → Outcome Node
unfolding node_on_chain_completed
tell_completed event chain node_itself n = node_on_chain_completed chain n
tell_completed event chain (app cb) n = done (emit (on_chain_completed cb event chain) n)

unfoldable pub abort_chain_discovery : EventHash → Node → Outcome Node
unfolding open_chain tell_aborted each_key
abort_chain_discovery hash n = open_chain (lookup hash n.chain_discoveries) >>= λ e.
    let d : EventChainDiscovery = record (e.discovery) { end_time = n.now; state = aborted } in
    let n1 : Node = record n {
      chain_discoveries = insert hash (record e { discovery = d }) n.chain_discoveries;
    } in
    each_key (tell_aborted d.event) e.callbacks n1 >>= λ n2. done (emit (chain_aborted d) n2)

module _ (env : Env) where
  -- The chain of the discovery is validated first; one that is not sound is aborted.
  unfoldable pub complete_chain_discovery : EventHash → Node → Outcome Node
  unfolding open_chain each_key
  complete_chain_discovery hash n = open_chain (lookup hash n.chain_discoveries) >>= λ e.
      let d : EventChainDiscovery = record (e.discovery) { end_time = n.now; state = completed } in
      let n1 : Node = record n {
        chain_discoveries = insert hash (record e { discovery = d }) n.chain_discoveries;
      } in
      let told = each_key (tell_completed d.event d.chain) e.callbacks n1 >>= λ n2.
      done (emit (chain_completed d) n2) in
      if (verify_chain env.sha256 env.verify e.discovery.chain n.id).ok
      then told
      else abort_chain_discovery hash n

-- A new entry; `map::insert` keeps one that is there.
unfoldable pub insert_chain_discovery : Event → NodeId → ChainCallback → Node → Node
insert_chain_discovery event originator callback n =
    let d : EventChainDiscovery = record {
      start_time = n.now;
      end_time = pos 0;
      originator = originator;
      event = event;
      range = all_time;
      chain = record { event = event; lower_bound = []; upper_bound = [] };
      state = in_progress;
    } in
    record n {
      chain_discoveries =
          emplace event.hash (record { discovery = d; callbacks = callback ∷ [] })
            n.chain_discoveries;
    }

abbrev pub new_bounds : Event → Node → EventBoundsDiscovery
new_bounds event n = record {
  start_time = n.now;
  end_time = pos 0;
  event = event;
  lower_bound = pos 0;
  upper_bound = pos 0;
  state = in_progress;
}

unfoldable pub insert_bounds_discovery : Event → ℕ → Node → Node
insert_bounds_discovery event callback n = record n {
  bounds_discoveries =
      emplace event.hash (record { discovery = new_bounds event n; callbacks = callback ∷ [] })
        n.bounds_discoveries;
}

abbrev pub new_order : Event → Event → Node → EventOrderDiscovery
new_order event1 event2 n = record {
  start_time = n.now;
  end_time = pos 0;
  event1 = event1;
  event2 = event2;
  order = undetermined;
  state = in_progress;
}

unfoldable pub insert_order_discovery : Event → Event → ℕ → Node → Node
insert_order_discovery event1 event2 callback n = record n {
  order_discoveries =
      emplace (event1.hash, event2.hash)
        (record { discovery = new_order event1 event2 n; callbacks = callback ∷ [] })
        n.order_discoveries;
}
