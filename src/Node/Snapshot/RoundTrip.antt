-- ===== src/Node/Snapshot/RoundTrip.antt =====
-- src/core/node.cpp: what `restore` reads of a snapshot is what `snapshot` wrote.
use loti.Base.{◌<◌, ◌≡◌, refl, arith, List, ◌++◌, length, All, true}
use loti.Domain.{Bytes, NodeId, LocalClockEvent, Neighbor}
use loti.Domain.Ranges.{IsNodeId, IsShort, IsReferences, IsEvent, IsClockEvent}
use loti.Wire.Result.{Reader, ok, Error}
use loti.Wire.Writer.{put_event, put_blob}
use loti.Wire.Reader.{get_event, get_blob}
use loti.Wire.RoundTrip.Rules.{Reads, Reads-bind, Reads-last, Reads-then}
use loti.Wire.RoundTrip.Scalars.{
  get_u64-put_u64, get_node_id-put_node_id, get_blob-put_blob, read_many-put_each,
}
use loti.Wire.RoundTrip.Objects.{
  get_refs-put_refs, get_event-put_event, get_clock_event-put_clock_event,
}
use loti.Proof.{check}
use loti.Store
use loti.Node.State.{Node}
use loti.Node.Snapshot.{
  snapshot_version, put_list, put_local_clock_event, put_neighbor, put_route, first_tail, entries,
  snapshot, get_list, get_local_clock_event, get_neighbor, get_route, Image, get_image,
}

-- A list that a 64-bit count can hold, each element in range.
pub record IsList {ℓ} {A : Type ℓ} (P : A → Type 0) (xs : List A) : Type ℓ where
  pub short : length xs < 18446744073709551616
  pub each : All P xs

pub record IsLocalClockEvent (c : LocalClockEvent) : Type 0 where
  pub base : IsClockEvent c.base
  pub referencing_events : IsReferences c.referencing_events

pub record IsNeighbor (n : Neighbor) : Type 0 where
  pub node_id : IsNodeId n.node_id
  pub hashes : IsList IsShort n.last_clock_event_hashes

pub record IsRoute (p : NodeId × NodeId) : Type 0 where
  pub dst : IsNodeId p.0
  pub next_hop : IsNodeId p.1

-- Every value that the snapshot writes is in the range of its C++ type.
pub record IsWritable (n : Node) : Type 0 where
  pub events : IsList IsEvent n.store.events
  pub clock_events : IsList IsLocalClockEvent (Store.load_clock_events n.store)
  pub tail : IsList IsEvent (first_tail n)
  pub neighbors : IsList IsNeighbor (entries n.neighbors)
  pub routes : IsList IsRoute n.destination_to_next_hop

get_list-put_list {ℓ} :
    {A : Type ℓ} (w : A → Bytes) (r : Reader A) (P : A → Type 0)
    → ((x : A) → P x → Reads r (w x) x)
    → (xs : List A) → IsList P xs
    → Reads (get_list r) (put_list w xs) xs
unfolding get_list put_list
get_list-put_list w r P each xs h =
    Reads-bind _ (get_u64-put_u64 (length xs) h.short) (read_many-put_each w r P 0 each xs h.each)

pub get_local_clock_event-put :
    (c : LocalClockEvent)
    → IsLocalClockEvent c
    → Reads get_local_clock_event (put_local_clock_event c) c
unfolding get_local_clock_event put_local_clock_event
get_local_clock_event-put c v =
    Reads-bind _ (get_clock_event-put_clock_event c.base v.base)
      (Reads-last _ (get_refs-put_refs c.referencing_events v.referencing_events) (λ rest. refl))

get_neighbor-put : (n : Neighbor) → IsNeighbor n → Reads get_neighbor (put_neighbor n) n
unfolding get_neighbor put_neighbor
get_neighbor-put n v = Reads-bind _ (get_node_id-put_node_id n.node_id v.node_id) (
    Reads-last _
      (get_list-put_list put_blob get_blob IsShort get_blob-put_blob n.last_clock_event_hashes
        v.hashes)
      (λ rest. refl))

get_route-put : (p : NodeId × NodeId) → IsRoute p → Reads get_route (put_route p) p
unfolding get_route put_route
get_route-put p v =
    Reads-bind _ (get_node_id-put_node_id p.0 v.dst)
      (Reads-last _ (get_node_id-put_node_id p.1 v.next_hop) (λ rest. refl))

check_passes : (e : Error) (rest : Bytes) → check true e rest ≡ ok (tt, rest)
unfolding check
check_passes e rest = refl

-- What stands in the node's snapshot.
abbrev pub image_of : Node → Image
image_of n = record {
  events = n.store.events;
  clock_events = Store.load_clock_events n.store;
  neighbors = entries n.neighbors;
  routes = n.destination_to_next_hop;
}

get_image-Reads : (n : Node) → IsWritable n → Reads get_image (snapshot n) (image_of n)
unfolding get_image snapshot
get_image-Reads n v = Reads-bind _ (get_u64-put_u64 snapshot_version (omega arith)) (
    Reads-then _ (check_passes _) (
      Reads-bind _
        (get_list-put_list put_event get_event IsEvent get_event-put_event n.store.events v.events)
        (Reads-bind _
          (get_list-put_list put_local_clock_event get_local_clock_event IsLocalClockEvent
            get_local_clock_event-put (Store.load_clock_events n.store) v.clock_events)
          (Reads-bind _
            (get_list-put_list put_event get_event IsEvent get_event-put_event (first_tail n)
              v.tail)
            (Reads-bind _
              (get_list-put_list put_neighbor get_neighbor IsNeighbor get_neighbor-put
                (entries n.neighbors) v.neighbors)
              (Reads-last _
                (get_list-put_list put_route get_route IsRoute get_route-put
                  n.destination_to_next_hop v.routes)
                (λ rest. refl)))))))

-- `restore` reads from a snapshot the events, the clock events with their back-references, the
-- neighbors and the routes that the node held, in order, where all are in the range of their types.
pub get_image-snapshot :
    (n : Node) (rest : Bytes)
    → IsWritable n
    → get_image (snapshot n ++ rest) ≡ ok (image_of n, rest)
get_image-snapshot n rest v = (get_image-Reads n v).at rest
