-- ===== src/Node/Snapshot.antt =====
-- src/core/node.cpp: `snapshot` and `restore`, the portable backup of a node's state.
pub mod RoundTrip
use loti.Base.{
  ℕ, zero, suc, ◌+◌, Bool, true, false, List, [], ◌∷◌, ◌++◌, Option, none, some, length, nat_eq,
}
use loti.Base.{get_elem?, if◌then◌else◌}
use loti.Base.Key.{bytes_key}
use loti.Base.Table.{Table, insert}
use loti.Domain.{Bytes, NodeId, EventHash, Event, LocalClockEvent, Neighbor}
use loti.Wire.Result.{Result, Reader, ok, err, Error, bad_version, ◌>>=◌, ◌>>◌, pure, read_many}
use loti.Wire.Writer.{
  put_u64, put_node_id, put_blob, put_refs, put_event, put_clock_event, put_each,
}
use loti.Wire.Reader.{get_u64, get_node_id, get_blob, get_refs, get_event, get_clock_event}
use loti.Proof.{check}
use loti.Store
use loti.Store.{Store}
use loti.Node.Outcome.{Outcome}
use loti.Node.State.{Node}
use loti.Node.Hydration.{load}

abbrev pub snapshot_version : ℕ
snapshot_version = 3

-- A count of 64 bits, and the elements.
unfoldable pub put_list {ℓ} : {A : Type ℓ} → (A → Bytes) → List A → Bytes
put_list w xs = put_u64 (length xs) ++ put_each w xs

unfoldable pub put_local_clock_event : LocalClockEvent → Bytes
put_local_clock_event c = put_clock_event c.base ++ put_refs c.referencing_events

unfoldable pub put_neighbor : Neighbor → Bytes
unfolding put_list
put_neighbor n = put_node_id n.node_id ++ put_list put_blob n.last_clock_event_hashes

unfoldable pub put_route : NodeId × NodeId → Bytes
put_route p = put_node_id p.0 ++ put_node_id p.1

-- `unreferenced_per_chain_[0]`
unfoldable pub first_tail : Node → List Event
first_tail n = elim n.unreferenced_per_chain [ [] ↦ [] | es ∷ ess ↦ es ]

-- The entries of a map, in its order.
unfoldable pub entries {ℓ κ} : {K : Type ℓ} {V : Type κ} → Table K V → List V
entries [] = []
entries ((k, v) ∷ m) = v ∷ entries m

-- The events are read by their sequences, which are the positions in the log.
unfoldable pub snapshot : Node → Bytes
unfolding first_tail entries
snapshot n =
    put_u64 snapshot_version
    ++ (put_list put_event n.store.events
        ++ (put_list put_local_clock_event (Store.load_clock_events n.store)
            ++ (put_list put_event (first_tail n)
                ++ (put_list put_neighbor (entries n.neighbors)
                    ++ put_list put_route n.destination_to_next_hop))))

-- `for (auto n = r.u64(); n > 0; --n)`
unfoldable pub get_list {ℓ} : {A : Type ℓ} → Reader A → Reader (List A)
get_list r = do n ← get_u64; read_many n r

unfoldable pub get_local_clock_event : Reader LocalClockEvent
get_local_clock_event = do
  base ← get_clock_event
  referencing_events ← get_refs
  pure (record { base = base; referencing_events = referencing_events })

unfoldable pub get_neighbor : Reader Neighbor
unfolding get_list
get_neighbor = do
  node_id ← get_node_id
  hashes ← get_list get_blob
  pure (record { node_id = node_id; last_clock_event_hashes = hashes })

unfoldable pub get_route : Reader (NodeId × NodeId)
get_route = do dst ← get_node_id; next_hop ← get_node_id; pure (dst, next_hop)

-- What a snapshot holds, as the loops of `restore` read it; the tail is read and dropped.
pub record Image : Type 0 where
  pub events : List Event
  pub clock_events : List LocalClockEvent
  pub neighbors : List Neighbor
  pub routes : List (NodeId × NodeId)

unfoldable pub get_image : Reader Image
get_image = do
  version ← get_u64
  check (nat_eq version snapshot_version) bad_version
  events ← get_list get_event
  clock_events ← get_list get_local_clock_event
  tail ← get_list get_event
  neighbors ← get_list get_neighbor
  routes ← get_list get_route
  pure (record {
    events = events;
    clock_events = clock_events;
    neighbors = neighbors;
    routes = routes;
  })

-- `neighbors[neighbor.node_id] = neighbor` for each one that is read, from `m` on
unfoldable pub collect_neighbors : List Neighbor → Table NodeId Neighbor → Table NodeId Neighbor
collect_neighbors [] m = m
collect_neighbors (n ∷ ns) m = collect_neighbors ns (insert n.node_id n m)

-- `routes[dst] = next_hop`
unfoldable pub collect_routes : List (NodeId × NodeId) → Table NodeId NodeId → Table NodeId NodeId
collect_routes [] m = m
collect_routes ((dst, next_hop) ∷ ps) m = collect_routes ps (insert dst next_hop m)

-- An exception leaves the node as it is: the store is cleared only by `load`.
unfoldable pub restore : Bytes → Node → Result (Outcome Node)
unfolding collect_neighbors collect_routes
restore blob n = elim (get_image blob) [
  | err e ↦ err e
  | ok (image, rest) ↦ ok (
      load image.events image.clock_events (collect_neighbors image.neighbors [])
        (collect_routes image.routes []) n)
]
