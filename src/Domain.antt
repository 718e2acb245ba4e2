-- ===== src/Domain.antt =====
-- src/core/domain/types.hpp: the domain model, with the ranges of its machine integers.
pub mod Ranges
use loti.Base.{ℕ, ◌/◌, ◌%◌, ◌*◌, ◌^◌, zero, suc, ℤ, pos, negsuc, leb_ℤ, ◌-◌}
use loti.Base.{Bool, ◌&&◌, List, [], ◌∷◌, ◌++◌, replicate, length, ◌≡◌, refl, ap}
use loti.Base.Key.{bytes_eq}
use loti.Base.Table.{Table}

abbrev pub Bytes : Type 0
Bytes = List ℕ

-- The 16 bytes of an identity, as the list that it is written as.
abbrev pub NodeId : Type 0
NodeId = Bytes

abbrev pub EventHash : Type 0
EventHash = Bytes

abbrev pub Signature : Type 0
Signature = Bytes

abbrev pub Timestamp : Type 0
Timestamp = ℤ

-- The `k` low bytes of `v`, the highest first: the loops that push `v >> shift`.
unfoldable pub be_bytes : ℕ → ℕ → Bytes
be_bytes zero v = []
be_bytes (suc k) v = v / 2 ^ (8 * k) % 256 ∷ be_bytes k v

pub length-be_bytes : (k v : ℕ) → length (be_bytes k v) ≡ k
unfolding be_bytes
length-be_bytes zero v = refl
length-be_bytes (suc k) v = ap suc (length-be_bytes k v)

-- The implicit constructor from `uint64_t`: eight zero bytes, then `v` big-endian.
unfoldable pub node_id_of : ℕ → NodeId
unfolding be_bytes
node_id_of v = replicate 8 0 ++ be_bytes 8 v

unfoldable pub is_zero : NodeId → Bool
unfolding bytes_eq
is_zero id = bytes_eq id (replicate 16 0)

pub record TimeRange : Type 0 where
  pub lo : Timestamp
  pub hi : Timestamp

abbrev pub all_time : TimeRange
all_time = record { lo = negsuc (2 ^ 63 - 1); hi = pos (2 ^ 63 - 1) }

unfoldable pub contains : TimeRange → Timestamp → Bool
contains r t = leb_ℤ r.lo t && leb_ℤ t r.hi

pub record EventReference : Type 0 where
  pub creator : NodeId
  pub hash : EventHash

pub record Event : Type 0 where
  pub creator : NodeId
  pub hash : EventHash
  pub content : Bytes
  pub salt : ℕ
  pub referenced_events : List EventReference
  pub signature : Signature

pub record ClockEvent : Type 0 where
  pub creator : NodeId
  pub hash : EventHash
  pub chain : ℕ
  pub timestamp : Timestamp
  pub salt : ℕ
  pub referenced_events : List EventReference
  pub signature : Signature

-- `base` is the inherited part: the slice to a `ClockEvent` is `c.base`.
pub record LocalClockEvent : Type 0 where
  pub base : ClockEvent
  pub open base use *
  pub referencing_events : List EventReference

pub record EventChain : Type 0 where
  pub event : Event
  pub lower_bound : List ClockEvent
  pub upper_bound : List ClockEvent

pub record Neighbor : Type 0 where
  pub node_id : NodeId
  pub last_clock_event_hashes : List EventHash

pub record TimedRoute : Type 0 where
  pub validity : TimeRange
  pub next_hops : List NodeId

abbrev pub TimedRouteTable : Type 0
TimedRouteTable = Table NodeId (List TimedRoute)

pub data DiscoveryState : Type 0 where
  in_progress completed aborted : DiscoveryState

pub data Order : Type 0 where
  before undetermined after : Order

pub record EventChainDiscovery : Type 0 where
  pub start_time : Timestamp
  pub end_time : Timestamp
  pub originator : NodeId
  pub event : Event
  pub range : TimeRange
  pub chain : EventChain
  pub state : DiscoveryState

pub record EventBoundsDiscovery : Type 0 where
  pub start_time : Timestamp
  pub end_time : Timestamp
  pub event : Event
  pub lower_bound : Timestamp
  pub upper_bound : Timestamp
  pub state : DiscoveryState

pub record EventOrderDiscovery : Type 0 where
  pub start_time : Timestamp
  pub end_time : Timestamp
  pub event1 : Event
  pub event2 : Event
  pub order : Order
  pub state : DiscoveryState

-- `operator==` of an `EventReference`.
unfoldable pub ref_eq : EventReference → EventReference → Bool
unfolding bytes_eq
ref_eq a b = bytes_eq a.creator b.creator && bytes_eq a.hash b.hash
