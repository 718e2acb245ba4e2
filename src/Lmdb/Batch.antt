-- ===== src/Lmdb/Batch.antt =====
-- src/adapters/os/lmdb_store.cpp: the write path, a transaction of several writes and its commit.
use loti.Base.{ℕ, zero, suc, ◌+◌, ◌%◌, ◌^◌, List, [], ◌∷◌, ◌++◌, none, some}
use loti.Base.{take}
use loti.Domain.{Bytes, NodeId, EventReference, Event, LocalClockEvent, Neighbor, TimedRouteTable}
use loti.Wire.Writer.{put_event}
use loti.Node.Snapshot.{put_local_clock_event}
use loti.Lmdb.Engine.{
  events, event_index, clock_events, clock_index, neighbors, routes, timed_routes, Code, Try,
  returned, map_full, store_full, thrown, out_of_fuel, ◌>>=◌, check_write, found, Engine,
}
use loti.Lmdb.Records.{put_u64_be, node_id_key, put_tips, put_timed_route_list}
use loti.Lmdb.State.{LmdbStore, Trackers, track, grow_map}

-- An open write transaction: its view of the contents, its counters, and what it appended.
pub record Batch (l : Engine) : Type 0 where
  pub txn : l.Db
  pub event_seq : ℕ
  pub clock_seq : ℕ
  pub pending_chain_appends : List (ℕ × ℕ)

-- The trackers after the appends of a transaction.
unfoldable pub track_all : List (ℕ × ℕ) → Trackers → Trackers
unfolding track
track_all [] t = t
track_all ((chain, seq) ∷ ps) t = track_all ps (track chain seq t)

-- `catch (const LmdbMapFull&)`: every other exception goes on.
unfoldable pub on_map_full {ℓ} : {A : Type ℓ} → Try A → Try A → Try A
on_map_full again (returned a) = returned a
on_map_full again map_full = again
on_map_full again store_full = store_full
on_map_full again thrown = thrown
on_map_full again out_of_fuel = out_of_fuel

module _ (l : Engine) where
  unfoldable pub begin : LmdbStore l → Batch l
  begin s = record {
    txn = s.db;
    event_seq = s.next_event_seq;
    clock_seq = s.next_clock_seq;
    pending_chain_appends = [];
  }

  -- The record and its entry in the index.
  unfoldable pub batch_append_event : Event → Batch l → Try (ℕ × Batch l)
  unfolding put_u64_be
  batch_append_event e b =
      let seq = b.event_seq in
      check_write (l.put events (put_u64_be seq) (put_event e) b.txn) >>= λ d1.
      check_write (l.put event_index e.hash (put_u64_be seq) d1) >>= λ d2.
      returned (seq, record b { txn = d2; event_seq = (seq + 1) % 2 ^ 64 })

  -- The reverse index: each hash that the clock event references leads to its sequence number.
  unfoldable pub put_references : List EventReference → Bytes → l.Db → Try l.Db
  put_references [] key db = returned db
  put_references (r ∷ rs) key db = check_write (l.put_dup r.hash key db) >>= put_references rs key

  unfoldable pub batch_append_clock_event : LocalClockEvent → Batch l → Try (ℕ × Batch l)
  unfolding put_u64_be put_references
  batch_append_clock_event c b =
      let seq = b.clock_seq in
      check_write (l.put clock_events (put_u64_be seq) (put_local_clock_event c) b.txn) >>= λ d1.
      check_write (l.put clock_index c.hash (put_u64_be seq) d1) >>= λ d2.
      put_references c.referenced_events (put_u64_be seq) d2 >>= λ d3. returned (
        seq,
        record b {
          txn = d3;
          clock_seq = (seq + 1) % 2 ^ 64;
          pending_chain_appends = b.pending_chain_appends ++ ((c.chain, seq) ∷ []);
        },
      )

  -- A clock event that was never appended is an exception.
  unfoldable pub batch_update_clock_event : LocalClockEvent → Batch l → Try (Unit {0} × Batch l)
  batch_update_clock_event c b = found (l.get clock_index c.hash b.txn) >>= λ key. elim key [
    | none ↦ thrown
    | some k ↦ check_write (l.put clock_events (take 8 k) (put_local_clock_event c) b.txn) >>= λ db.
        returned (tt, record b { txn = db })
  ]

  unfoldable pub batch_put_neighbor : Neighbor → Batch l → Try (Unit {0} × Batch l)
  unfolding put_tips
  batch_put_neighbor n b =
      check_write
        (l.put neighbors (node_id_key n.node_id) (put_tips n.last_clock_event_hashes) b.txn)
      >>= λ db. returned (tt, record b { txn = db })

  unfoldable pub batch_put_route : NodeId → NodeId → Batch l → Try (Unit {0} × Batch l)
  batch_put_route destination next_hop b =
      check_write (l.put routes (node_id_key destination) (node_id_key next_hop) b.txn) >>= λ db.
      returned (tt, record b { txn = db })

  -- The counters and the trackers move on only when the commit is durable.
  unfoldable pub commit_batch : Batch l → LmdbStore l → Try (LmdbStore l)
  unfolding track_all
  commit_batch b s = check_write (l.commit b.txn) >>= λ db.
      let t =
        track_all b.pending_chain_appends
          (record { chain_tip_seq = s.chain_tip_seq; chain_seqs = s.chain_seqs }) in
      returned (record s {
        db = db;
        next_event_seq = b.event_seq;
        next_clock_seq = b.clock_seq;
        chain_tip_seq = t.chain_tip_seq;
        chain_seqs = t.chain_seqs;
      })

  -- One round of `durable`: begin, write, commit. An exception leaves the store as it was.
  unfoldable pub attempt {ℓ} :
      {A : Type ℓ} → (Batch l → Try (A × Batch l)) → LmdbStore l → Try (A × LmdbStore l)
  unfolding begin commit_batch
  attempt op s = op (begin s) >>= λ r. commit_batch r.1 s >>= λ s'. returned (r.0, s')

  -- The loop: a full map is grown and the write is done again, on fuel for the rounds.
  unfoldable pub durable {ℓ} :
      {A : Type ℓ} → ℕ → (Batch l → Try (A × Batch l)) → LmdbStore l → Try (A × LmdbStore l)
  unfolding attempt grow_map on_map_full
  durable zero op s = out_of_fuel
  durable (suc k) op s =
      let again = grow_map l s >>= durable k op in on_map_full again (attempt op s)

  unfoldable pub append_event : ℕ → Event → LmdbStore l → Try (ℕ × LmdbStore l)
  unfolding durable batch_append_event
  append_event fuel e s = durable fuel (batch_append_event e) s

  unfoldable pub append_clock_event : ℕ → LocalClockEvent → LmdbStore l → Try (ℕ × LmdbStore l)
  unfolding durable batch_append_clock_event
  append_clock_event fuel c s = durable fuel (batch_append_clock_event c) s

  unfoldable pub update_clock_event :
      ℕ → LocalClockEvent → LmdbStore l → Try (Unit {0} × LmdbStore l)
  unfolding durable batch_update_clock_event
  update_clock_event fuel c s = durable fuel (batch_update_clock_event c) s

  unfoldable pub put_neighbor : ℕ → Neighbor → LmdbStore l → Try (Unit {0} × LmdbStore l)
  unfolding durable batch_put_neighbor
  put_neighbor fuel n s = durable fuel (batch_put_neighbor n) s

  unfoldable pub put_route : ℕ → NodeId → NodeId → LmdbStore l → Try (Unit {0} × LmdbStore l)
  unfolding durable batch_put_route
  put_route fuel destination next_hop s = durable fuel (batch_put_route destination next_hop) s

  -- Replace: the table is emptied and written again in one transaction, which is not done again when the
  -- map is full. The return code of the drop is not looked at.
  unfoldable pub rewrite_routes : TimedRouteTable → l.Db → Try l.Db
  unfolding put_timed_route_list
  rewrite_routes [] db = returned db
  rewrite_routes ((dest, rs) ∷ t) db =
      check_write (l.put timed_routes (node_id_key dest) (put_timed_route_list rs) db)
      >>= rewrite_routes t

  unfoldable pub ignoring : l.Db → Code l.Db → l.Db
  ignoring old (Code.success db) = db
  ignoring old _ = old

  unfoldable pub put_timed_routes : TimedRouteTable → LmdbStore l → Try (LmdbStore l)
  unfolding rewrite_routes ignoring
  put_timed_routes t s = rewrite_routes t (ignoring s.db (l.drop timed_routes s.db)) >>= λ written.
      check_write (l.commit written) >>= λ db. returned (record s { db = db })
