-- ===== src/Examples.antt =====
-- Concrete data for the examples: an identity, a chain of two clock events around an event, and an
-- environment whose hash function is the length of the bytes.
pub mod Chains
pub mod Codecs
pub mod Stores
pub mod Nodes
pub mod Hops
pub mod Keys
pub mod Disks
pub mod Replays
pub mod Lives
pub mod Words
use loti.Base.{
  ℕ, ◌≡◌, refl, Bool, true, ℤ, pos, List, [], ◌∷◌, ◌++◌, length, replicate, Option, none, some,
}
use loti.Base.Key.{bytes_eq}
use loti.Domain.{
  Bytes, NodeId, EventHash, Signature, TimeRange, EventReference, Event, ClockEvent,
  LocalClockEvent, EventChain, Neighbor,
}
use loti.Store
use loti.Store.{Store}
use loti.Node.State.{Node, NodeConfig, Env, flood}

abbrev pub toy_hash : Bytes → EventHash
toy_hash bs = length bs ∷ []

abbrev pub toy_verify : Bytes → Signature → NodeId → Bool
toy_verify h s id = bytes_eq h s

abbrev pub toy_env : Env
toy_env = record { sha256 = toy_hash; sign = λ h. h; verify = toy_verify; draw = λ n. n }

abbrev pub me : NodeId
me = replicate 15 0 ++ (1 ∷ [])

abbrev pub peer : NodeId
peer = replicate 15 0 ++ (2 ∷ [])

abbrev pub far : NodeId
far = replicate 15 0 ++ (3 ∷ [])

-- The first clock event hashes 24 bytes, the event 26, and the second clock event 41.
abbrev pub first_tick : ClockEvent
first_tick = record {
  creator = me;
  hash = 24 ∷ [];
  chain = 0;
  timestamp = pos 5;
  salt = 1;
  referenced_events = [];
  signature = 24 ∷ [];
}

abbrev pub the_event : Event
the_event = record {
  creator = me;
  hash = 26 ∷ [];
  content = 7 ∷ [];
  salt = 2;
  referenced_events = record { creator = me; hash = 24 ∷ [] } ∷ [];
  signature = 26 ∷ [];
}

abbrev pub second_tick : ClockEvent
second_tick = record {
  creator = me;
  hash = 41 ∷ [];
  chain = 0;
  timestamp = pos 9;
  salt = 3;
  referenced_events = record { creator = me; hash = 26 ∷ [] } ∷ [];
  signature = 41 ∷ [];
}

abbrev pub the_chain : EventChain
the_chain = record {
  event = the_event;
  lower_bound = first_tick ∷ [];
  upper_bound = second_tick ∷ [];
}

abbrev pub local : ClockEvent → LocalClockEvent
local c = record { base = c; referencing_events = [] }

abbrev pub one_to_ten : TimeRange
one_to_ten = record { lo = pos 1; hi = pos 10 }

abbrev pub peer_entry : Neighbor
peer_entry = record { node_id = peer; last_clock_event_hashes = [] }

abbrev pub config : NodeConfig
config = record {
  chains = record { interval = pos 10; keep = 2 } ∷ [];
  discovery_expiry = pos 1000;
  discovery_hop_limit = 4;
  discovery_routing = flood;
  discovery_fanout = 2;
  discovery_forward_cap = 3;
}

-- A node with the given store, one neighbor, and no discovery.
abbrev pub node_on : Store → Node
node_on s = record {
  id = me;
  config = config;
  num_chains = 1;
  now = pos 7;
  salts_drawn = 0;
  store = s;
  neighbors = (peer, peer_entry) ∷ [];
  unreferenced_per_chain = [] ∷ [];
  destination_to_next_hop = (far, peer) ∷ [];
  timed_routes = [];
  chain_discoveries = [];
  bounds_discoveries = [];
  order_discoveries = [];
  flood_seen = [];
  effects = [];
}

abbrev pub quiet : Node
quiet = node_on Store.empty

-- The store that holds the first clock event.
abbrev pub ticked_store : Store
ticked_store = record (Store.empty) {
  clock_events = (0, local first_tick) ∷ [];
  next_clock_seq = 1;
  clock_seq = (24 ∷ [], 0) ∷ [];
  chain_tip_seq = (0, 0) ∷ [];
  chain_seqs = (0, 0 ∷ []) ∷ [];
}

abbrev pub ticked : Node
ticked = node_on ticked_store
