-- ===== src/Wire/RoundTrip/Objects.antt =====
-- src/core/wire/codec.hpp: references, events, clock events, chains, written and read back.
use native.Mathlib.Nat.{mod-eq_of_lt}
use loti.Base.{ℕ, ◌%◌, ◌^◌, ◌≤◌, ◌<◌, ◌≡◌, refl, ap, arith, List, ◌++◌}
use loti.Base.{length, length-append, to_u64, to_u64-lt, from_u64, from_u64-to_u64, ℤ}
use loti.Domain.{Bytes, NodeId, TimeRange, EventReference, Event, ClockEvent, EventChain}
use loti.Domain.{length-be_bytes}
use loti.Domain.Ranges.{
  IsNodeId, IsTimeRange, IsReference, IsReferences, IsEvent, IsClockEvent, IsClockEvents,
  IsEventChain, IsNodeIds,
}
use loti.Wire.Result.{ok}
use loti.Wire.Writer.{
  count_u32, put_u32, put_u64, put_node_id, put_blob, put_ref, put_refs, put_event, put_clock_event,
  put_clock_events, put_chain, put_time_range, put_node_ids,
}
use loti.Wire.Reader.{
  get_ref, get_refs, get_event, get_clock_event, get_clock_events, get_chain, get_time_range,
  get_node_ids, get_u64,
}
use loti.Wire.RoundTrip.Rules.{Reads, Reads-bind, Reads-last}
use loti.Wire.RoundTrip.Scalars.{
  get_u64-put_u64, get_node_id-put_node_id, get_blob-put_blob, counted,
}

pub get_ref-put_ref : (r : EventReference) → IsReference r → Reads get_ref (put_ref r) r
unfolding get_ref put_ref
get_ref-put_ref r v =
    Reads-bind _ (get_node_id-put_node_id r.creator v.creator)
      (Reads-last _ (get_blob-put_blob r.hash v.hash) (λ rest. refl))

length-put_ref : (r : EventReference) → IsReference r → 20 ≤ length (put_ref r)
unfolding put_ref put_node_id put_blob put_u32
length-put_ref r v = omega (
  arith,
  v.creator,
  length-append r.creator (count_u32 r.hash ++ r.hash),
  length-append (count_u32 r.hash) r.hash,
  length-be_bytes 4 (length r.hash % 2 ^ 32),
)

pub get_refs-put_refs :
    (rs : List EventReference) → IsReferences rs → Reads get_refs (put_refs rs) rs
unfolding get_refs put_refs
get_refs-put_refs rs v =
    counted put_ref get_ref IsReference 20 (omega arith) get_ref-put_ref length-put_ref rs v.short
      v.each

-- An event is read back as it was written.
pub get_event-put_event : (e : Event) → IsEvent e → Reads get_event (put_event e) e
unfolding get_event put_event
get_event-put_event e v = Reads-bind _ (get_node_id-put_node_id e.creator v.creator) (
    Reads-bind _ (get_blob-put_blob e.hash v.hash) (
      Reads-bind _ (get_blob-put_blob e.content v.content) (
        Reads-bind _ (get_u64-put_u64 e.salt v.salt) (
          Reads-bind _ (get_refs-put_refs e.referenced_events v.referenced_events)
            (Reads-last _ (get_blob-put_blob e.signature v.signature) (λ rest. refl))))))

get_time-put_time : (t : ℤ) → Reads get_u64 (put_u64 (to_u64 t)) (to_u64 t)
get_time-put_time t = get_u64-put_u64 (to_u64 t) (to_u64-lt t)

-- The casts of `chain` and `timestamp` undo one another in range.
cast_back :
    (c : ClockEvent)
    → IsClockEvent c
    → ◌≡◌ {A = ClockEvent}
        (record c { chain = c.chain % 2 ^ 32; timestamp = from_u64 (to_u64 c.timestamp) })
        c
cast_back c v =
    cc (mod-eq_of_lt {n = c.chain} {m = 2 ^ 32} v.chain, from_u64-to_u64 c.timestamp v.timestamp)

-- A clock event is read back as it was written, its casts included.
pub get_clock_event-put_clock_event :
    (c : ClockEvent) → IsClockEvent c → Reads get_clock_event (put_clock_event c) c
unfolding get_clock_event put_clock_event
get_clock_event-put_clock_event c v = Reads-bind _ (get_node_id-put_node_id c.creator v.creator) (
    Reads-bind _ (get_blob-put_blob c.hash v.hash) (
      Reads-bind _ (get_u64-put_u64 c.chain (wide c v)) (
        Reads-bind _ (get_time-put_time c.timestamp) (
          Reads-bind _ (get_u64-put_u64 c.salt v.salt) (
            Reads-bind _ (get_refs-put_refs c.referenced_events v.referenced_events) (
              Reads-last _ (get_blob-put_blob c.signature v.signature)
                (λ rest. ap (λ (x : ClockEvent). ok (x, rest)) (cast_back c v))))))))
  where
    wide : (c : ClockEvent) → IsClockEvent c → c.chain < 2 ^ 64
    wide c v = omega (arith, v.chain)

length-put_clock_event : (c : ClockEvent) → IsClockEvent c → 44 ≤ length (put_clock_event c)
unfolding put_clock_event put_node_id put_u64 put_blob put_u32
length-put_clock_event c v =
    omega
      (arith, v.creator, λ (xs ys : Bytes). length-append xs ys, λ (k x : ℕ). length-be_bytes k x)

pub get_clock_events-put_clock_events :
    (cs : List ClockEvent) → IsClockEvents cs → Reads get_clock_events (put_clock_events cs) cs
unfolding get_clock_events put_clock_events
get_clock_events-put_clock_events cs v =
    counted put_clock_event get_clock_event IsClockEvent 44 (omega arith)
      get_clock_event-put_clock_event length-put_clock_event cs v.short v.each

-- A chain whose fields are in the range of their C++ types is read back as it was written, and just its
-- bytes are used up.
pub get_chain-put_chain : (ch : EventChain) → IsEventChain ch → Reads get_chain (put_chain ch) ch
unfolding get_chain put_chain
get_chain-put_chain ch v = Reads-bind _ (get_event-put_event ch.event v.event) (
    Reads-bind _ (get_clock_events-put_clock_events ch.lower_bound v.lower_bound) (
      Reads-last _ (get_clock_events-put_clock_events ch.upper_bound v.upper_bound) (λ rest. refl)))

range_back :
    (t : TimeRange)
    → IsTimeRange t
    → ◌≡◌ {A = TimeRange} (record { lo = from_u64 (to_u64 t.lo); hi = from_u64 (to_u64 t.hi) }) t
range_back t v = cc (from_u64-to_u64 t.lo v.lo, from_u64-to_u64 t.hi v.hi)

pub get_time_range-put_time_range :
    (t : TimeRange) → IsTimeRange t → Reads get_time_range (put_time_range t) t
unfolding get_time_range put_time_range
get_time_range-put_time_range t v = Reads-bind _ (get_time-put_time t.lo) (
    Reads-last _ (get_time-put_time t.hi)
      (λ rest. ap (λ (x : TimeRange). ok (x, rest)) (range_back t v)))

length-put_node_id : (id : NodeId) → IsNodeId id → 16 ≤ length (put_node_id id)
unfolding put_node_id
length-put_node_id id h = omega arith

pub get_node_ids-put_node_ids :
    (ids : List NodeId) → IsNodeIds ids → Reads get_node_ids (put_node_ids ids) ids
unfolding get_node_ids put_node_ids
get_node_ids-put_node_ids ids v =
    counted put_node_id _ IsNodeId 16 (omega arith) get_node_id-put_node_id length-put_node_id ids
      v.short v.each
