-- ===== src/Domain/Ranges.antt =====
-- src/core/domain/types.hpp: what the C++ types of the fields bound.
use loti.Base.{ℕ, ◌<◌, ◌^◌, ◌≡◌, List, length, All, IsInt64}
use loti.Domain.{NodeId, TimeRange, EventReference, Event, ClockEvent, EventChain}

abbrev pub IsU32 : ℕ → Type 0
IsU32 n = n < 2 ^ 32

abbrev pub IsU64 : ℕ → Type 0
IsU64 n = n < 2 ^ 64

abbrev pub IsNodeId : NodeId → Type 0
IsNodeId id = length id ≡ 16

-- A length that its 32-bit prefix can hold.
abbrev pub IsShort {ℓ} : {A : Type ℓ} → List A → Type 0
IsShort xs = IsU32 (length xs)

pub record IsTimeRange (r : TimeRange) : Type 0 where
  pub lo : IsInt64 r.lo
  pub hi : IsInt64 r.hi

pub record IsReference (r : EventReference) : Type 0 where
  pub creator : IsNodeId r.creator
  pub hash : IsShort r.hash

pub record IsReferences (rs : List EventReference) : Type 0 where
  pub short : IsShort rs
  pub each : All IsReference rs

pub record IsEvent (e : Event) : Type 0 where
  pub creator : IsNodeId e.creator
  pub hash : IsShort e.hash
  pub content : IsShort e.content
  pub salt : IsU64 e.salt
  pub referenced_events : IsReferences e.referenced_events
  pub signature : IsShort e.signature

pub record IsClockEvent (c : ClockEvent) : Type 0 where
  pub creator : IsNodeId c.creator
  pub hash : IsShort c.hash
  pub chain : IsU32 c.chain
  pub timestamp : IsInt64 c.timestamp
  pub salt : IsU64 c.salt
  pub referenced_events : IsReferences c.referenced_events
  pub signature : IsShort c.signature

pub record IsClockEvents (cs : List ClockEvent) : Type 0 where
  pub short : IsShort cs
  pub each : All IsClockEvent cs

pub record IsEventChain (ch : EventChain) : Type 0 where
  pub event : IsEvent ch.event
  pub lower_bound : IsClockEvents ch.lower_bound
  pub upper_bound : IsClockEvents ch.upper_bound

pub record IsNodeIds (ids : List NodeId) : Type 0 where
  pub short : IsShort ids
  pub each : All IsNodeId ids
