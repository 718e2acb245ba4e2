-- ===== src/Node/State.antt =====
-- src/core/node.hpp: the state of a Node, its configuration, and what it does to the outside.
-- The effects of a call are a log, in order. Callbacks of applications are named by numbers; their
-- calls back into the node are not modelled. The clock is read once for each call of the node.
use loti.Base.{ℕ, ℤ, Bool, List, [], ◌∷◌, ◌++◌}
use loti.Base.Table.{Table}
use loti.Domain.{
  Bytes, NodeId, EventHash, Signature, Timestamp, Event, ClockEvent, EventChain, Neighbor,
  TimedRouteTable, Order, EventChainDiscovery, EventBoundsDiscovery, EventOrderDiscovery,
}
use loti.Store.{Store}

pub record ChainConfig : Type 0 where
  pub interval : ℤ
  pub keep : ℕ

pub data DiscoveryRouting : Type 0 where
  static_shortest_path flood : DiscoveryRouting

pub record NodeConfig : Type 0 where
  pub chains : List ChainConfig
  pub discovery_expiry : ℤ
  pub discovery_hop_limit : ℕ
  pub discovery_routing : DiscoveryRouting
  pub discovery_fanout : ℕ
  pub discovery_forward_cap : ℕ

-- Who waits for a chain discovery: the node itself, for its bounds and order discoveries, or an
-- application.
pub data ChainCallback : Type 0 where
  node_itself : ChainCallback
  app : ℕ → ChainCallback

pub record ChainEntry : Type 0 where
  pub discovery : EventChainDiscovery
  pub callbacks : List ChainCallback

pub record BoundsEntry : Type 0 where
  pub discovery : EventBoundsDiscovery
  pub callbacks : List ℕ

pub record OrderEntry : Type 0 where
  pub discovery : EventOrderDiscovery
  pub callbacks : List ℕ

pub record FloodSeen : Type 0 where
  pub first_seen : Timestamp
  pub forwards : ℕ

pub data Timer : Type 0 where
  clock_timer : ℕ → Timer
  purge_timer : Timer

-- Calls of the Transport, Scheduler and Telemetry ports, and of the applications' callbacks.
pub data Effect : Type 0 where
  send : NodeId → Bytes → Effect
  arm : Timer → ℤ → Effect
  event_created : Event → Effect
  clock_event_created : ClockEvent → Effect
  chain_started chain_completed chain_aborted : EventChainDiscovery → Effect
  bounds_started bounds_completed bounds_aborted : EventBoundsDiscovery → Effect
  order_started order_completed order_aborted : EventOrderDiscovery → Effect
  on_chain_completed : ℕ → Event → EventChain → Effect
  on_chain_aborted : ℕ → Event → Effect
  on_bounds_completed : ℕ → Event → Timestamp → Timestamp → Effect
  on_bounds_aborted : ℕ → Event → Effect
  on_order_completed : ℕ → Event → Event → Order → Effect
  on_order_aborted : ℕ → Event → Event → Effect

-- `now` is what the Clock port answers, `salts_drawn` how often the Rng port was asked.
pub record Node : Type 0 where
  pub id : NodeId
  pub config : NodeConfig
  pub num_chains : ℕ
  pub now : Timestamp
  pub salts_drawn : ℕ
  pub store : Store
  pub neighbors : Table NodeId Neighbor
  pub unreferenced_per_chain : List (List Event)
  pub destination_to_next_hop : Table NodeId NodeId
  pub timed_routes : TimedRouteTable
  pub chain_discoveries : Table EventHash ChainEntry
  pub bounds_discoveries : Table EventHash BoundsEntry
  pub order_discoveries : Table (EventHash × EventHash) OrderEntry
  pub flood_seen : Table (NodeId × EventHash) FloodSeen
  pub effects : List Effect

-- What the node does not implement: SHA-256, the Signer port, and the salts of the Rng port in the
-- order in which they are drawn.
pub record Env : Type 0 where
  pub sha256 : Bytes → EventHash
  pub sign : Bytes → Signature
  pub verify : Bytes → Signature → NodeId → Bool
  pub draw : ℕ → ℕ

abbrev pub emit : Effect → Node → Node
emit e n = record n { effects = n.effects ++ (e ∷ []) }
