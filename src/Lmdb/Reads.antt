-- ===== src/Lmdb/Reads.antt =====
-- src/adapters/os/lmdb_store.cpp: the reads by hash, by sequence number and by chain, and the bulk reads.
use loti.Base.{ℕ, List, [], ◌∷◌, Option, none, some, length, nat_eq, last?, if◌then◌else◌, map}
use loti.Base.Key.{bytes_key, nat_key}
use loti.Base.Table.{Table, lookup, insert}
use loti.Domain.{Bytes, NodeId, EventHash, Event, LocalClockEvent, Neighbor, TimedRouteTable}
use loti.Wire.Result.{Reader}
use loti.Wire.Reader.{get_event}
use loti.Node.Snapshot.{get_local_clock_event}
use loti.Lmdb.Engine.{
  Dbi, events, event_index, clock_events, clock_index, neighbors, routes, timed_routes, Try,
  returned, thrown, ◌>>=◌, found, check, Engine,
}
use loti.Lmdb.Records.{
  put_u64_be, get_u64_be, node_id_of_key, get_tips, get_timed_route_list, read_record,
}
use loti.Lmdb.State.{LmdbStore}

-- Every record's value, read in the order of the keys.
unfoldable pub read_records {ℓ} : {A : Type ℓ} → Reader A → Table Bytes Bytes → Try (List A)
unfolding read_record
read_records r [] = returned []
read_records r ((k, v) ∷ rs) =
    read_record r v >>= λ a. read_records r rs >>= λ rest. returned (a ∷ rest)

-- The rounds of the loops that read maps keyed by an identity: `out[key] = value`.
unfoldable pub collect_records {ℓ κ} :
    {A : Type ℓ} {B : Type κ}
    → Reader A
    → (NodeId → A → B)
    → Table Bytes Bytes
    → Table NodeId B
    → Try (Table NodeId B)
unfolding read_record node_id_of_key
collect_records r build [] out = returned out
collect_records r build ((k, v) ∷ rs) out = read_record r v >>= λ a.
    collect_records r build rs (insert (node_id_of_key k) (build (node_id_of_key k) a) out)

abbrev with_id : NodeId → List EventHash → Neighbor
with_id id hs = record { node_id = id; last_clock_event_hashes = hs }

unfoldable pub collect_next_hops : Table Bytes Bytes → Table NodeId NodeId → Table NodeId NodeId
unfolding node_id_of_key
collect_next_hops [] out = out
collect_next_hops ((k, v) ∷ rs) out =
    collect_next_hops rs (insert (node_id_of_key k) (node_id_of_key v) out)

module _ (l : Engine) where
  unfoldable pub get_bytes : Dbi → Bytes → LmdbStore l → Try (Option Bytes)
  unfolding found
  get_bytes dbi key s = found (l.get dbi key s.db)

  -- The sequence number under a hash; a value of another size is an exception.
  unfoldable pub seq_of : Dbi → EventHash → LmdbStore l → Try (Option ℕ)
  unfolding get_bytes get_u64_be
  seq_of index hash s = get_bytes index hash s >>= λ bytes. elim bytes [
    | none ↦ returned none
    | some b ↦ if nat_eq (length b) 8 then returned (some (get_u64_be b)) else thrown
  ]

  -- The record of a sequence number; there is none: an exception.
  unfoldable pub record_of {ℓ} : {A : Type ℓ} → Dbi → Reader A → ℕ → LmdbStore l → Try A
  unfolding get_bytes put_u64_be read_record
  record_of dbi r seq s = get_bytes dbi (put_u64_be seq) s >>= λ bytes. elim bytes [
    | none ↦ thrown
    | some b ↦ read_record r b
  ]

  unfoldable pub event_by_seq : ℕ → LmdbStore l → Try Event
  unfolding record_of
  event_by_seq seq s = record_of events get_event seq s

  unfoldable pub clock_event_by_seq : ℕ → LmdbStore l → Try LocalClockEvent
  unfolding record_of
  clock_event_by_seq seq s = record_of clock_events get_local_clock_event seq s

  unfoldable pub event_by_hash : EventHash → LmdbStore l → Try (Option Event)
  unfolding seq_of event_by_seq
  event_by_hash hash s = seq_of event_index hash s >>= λ seq. elim seq [
    | none ↦ returned none
    | some q ↦ event_by_seq q s >>= λ e. returned (some e)
  ]

  unfoldable pub clock_event_by_hash : EventHash → LmdbStore l → Try (Option LocalClockEvent)
  unfolding seq_of clock_event_by_seq
  clock_event_by_hash hash s = seq_of clock_index hash s >>= λ seq. elim seq [
    | none ↦ returned none
    | some q ↦ clock_event_by_seq q s >>= λ c. returned (some c)
  ]

  unfoldable pub clock_event_seq : EventHash → LmdbStore l → Try (Option ℕ)
  unfolding seq_of
  clock_event_seq hash s = seq_of clock_index hash s

  unfoldable pub clock_events_referencing : EventHash → LmdbStore l → Try (List ℕ)
  unfolding get_u64_be
  clock_events_referencing hash s =
      check (l.dups_of hash s.db) >>= λ vs. returned (map get_u64_be vs)

  -- The overload with no argument: the record of the greatest key.
  unfoldable pub latest_clock_event : LmdbStore l → Try (Option LocalClockEvent)
  unfolding read_record
  latest_clock_event s = elim (last? (l.records clock_events s.db)) [
    | none ↦ returned none
    | some (k, v) ↦ read_record get_local_clock_event v >>= λ c. returned (some c)
  ]

  -- The overload for one chain, by the tracker.
  unfoldable pub latest_on_chain : ℕ → LmdbStore l → Try (Option LocalClockEvent)
  unfolding clock_event_by_seq
  latest_on_chain chain s = elim (lookup chain s.chain_tip_seq) [
    | none ↦ returned none
    | some seq ↦ clock_event_by_seq seq s >>= λ c. returned (some c)
  ]

  unfoldable pub load_events : LmdbStore l → Try (List Event)
  unfolding read_records
  load_events s = read_records get_event (l.records events s.db)

  unfoldable pub load_clock_events : LmdbStore l → Try (List LocalClockEvent)
  unfolding read_records
  load_clock_events s = read_records get_local_clock_event (l.records clock_events s.db)

  unfoldable pub load_neighbors : LmdbStore l → Try (Table NodeId Neighbor)
  unfolding collect_records
  load_neighbors s = collect_records get_tips with_id (l.records neighbors s.db) []

  unfoldable pub load_routes : LmdbStore l → Table NodeId NodeId
  unfolding collect_next_hops
  load_routes s = collect_next_hops (l.records routes s.db) []

  unfoldable pub load_timed_routes : LmdbStore l → Try TimedRouteTable
  unfolding collect_records
  load_timed_routes s =
      collect_records get_timed_route_list (λ id rs. rs) (l.records timed_routes s.db) []

  unfoldable pub event_count : LmdbStore l → ℕ
  event_count s = length (l.records events s.db)

  unfoldable pub clock_event_count : LmdbStore l → ℕ
  clock_event_count s = length (l.records clock_events s.db)
