-- ===== src/Lmdb/Refinement/Overlay.antt =====
-- src/adapters/os/lmdb_store.cpp against src/adapters/sim/in_memory_store.hpp: the writes of one record,
-- of clock events that are there, of neighbors and of routes, with one transaction each.
use mathlib.Core.Path.{subst}
use loti.Base.{ℕ, ◌≡◌, ◌≢◌, refl, sym, ap, ◌∙◌, none, some}
use loti.Base.{if◌then◌else◌, Option-cases, inl, inr}
use loti.Base.Table.{lookup, insert}
use loti.Base.Key.{bytes_key, nat_key, pair_key}
use loti.Domain.{Bytes, NodeId, Neighbor, LocalClockEvent}
use loti.Node.Snapshot.{put_local_clock_event}
use loti.Store
use loti.Store.{Store}
use loti.Lmdb.Engine.{
  Dbi, dbi_eq, Code, success, Try, returned, ◌>>=◌, check_write, found, of_option, IsKey, Engine,
}
use loti.Lmdb.Records.{put_u64_be, node_id_key, put_tips}
use loti.Lmdb.State.{LmdbStore}
use loti.Lmdb.Batch
use loti.Lmdb.Batch.{
  Batch, begin, attempt, commit_batch, track_all, batch_put_neighbor, batch_put_route,
  batch_update_clock_event,
}
use loti.Lmdb.Keys.{encoded-insert, lookup-encoded}
use loti.Lmdb.Refinement.{
  Represents, IsCounted, IsOrdered-put_u64_be, IsOrdered-id, Keyed-Any, IsSeq, Any,
}
use loti.Lmdb.Refinement.Writes.{bind-returned, check_write-returned, durable-round, attempt-parts}

module _ (l : Engine) where
  -- A transaction of one write.
  abbrev one_put : Dbi → Bytes → Bytes → Batch l → Try (Unit {0} × Batch l)
  one_put d k v b = check_write (l.put d k v b.txn) >>= λ db. returned (tt, record b { txn = db })

  record OnePut (d : Dbi) (k v : Bytes) (t t' : LmdbStore l) : Type 0 where
    db : l.Db
    pairs : l.pairs db ≡ l.pairs t.db
    records :
        (d' : Dbi)
        → l.records d' db
          ≡ (if dbi_eq d d' then insert k v (l.records d t.db) else l.records d' t.db)
    left : t' ≡ record t { db = db }

  one_round :
      (d : Dbi) (k v : Bytes) (t t' : LmdbStore l) (b : Batch l) (db : l.Db)
      → one_put d k v (begin l t) ≡ returned (tt, b)
      → l.commit b.txn ≡ success db
      → commit_batch l b t ≡ returned t'
      → OnePut d k v t t'
  unfolding begin commit_batch track_all check_write
  one_round d k v t t' b db wrote kept ends =
      let (d1, put, last) = bind-returned (check_write (l.put d k v t.db)) _ (tt, b) wrote in
      let b' : Batch l = record (begin l t) { txn = d1 } in
      let same : b ≡ b' = cc last in
      let kept' = subst (λ (x : Batch l). l.commit x.txn ≡ success db) same kept in
      let ends' = subst (λ (x : Batch l). commit_batch l x t ≡ returned t') same ends in
      let left' = rw kept' at ends' in
      let law = l.put_law d k v t.db d1 (check_write-returned _ d1 put) in
      let done = l.commit_law d1 db kept' in
      record {
        db = db;
        pairs = done.0 ∙ law.0;
        records = λ d'. done.1 d' ∙ law.1 d';
        left = cc left';
      }

  pub put_neighbor-Represents :
      (fuel : ℕ) (n : Neighbor) (st st' : LmdbStore l) (s : Store)
      → Represents l st s
      → Batch.put_neighbor l fuel n st ≡ returned (tt, st')
      → Represents l st' (Store.put_neighbor n s)
  unfolding Batch.put_neighbor batch_put_neighbor Store.put_neighbor
  put_neighbor-Represents fuel n st st' s p h =
      let (t, r, own) = durable-round l (batch_put_neighbor l n) s fuel st (tt, st') p h in
      let (b, db, wrote, kept, ends) = attempt-parts l (batch_put_neighbor l n) t (tt, st') own in
      let w =
        one_round Dbi.neighbors (node_id_key n.node_id) (put_tips n.last_clock_event_hashes) t st' b
          db wrote kept ends in
      subst (λ x. Represents l x (Store.put_neighbor n s)) (sym w.left)
        (record {
          events = w.records Dbi.events ∙ r.events;
          event_index = w.records Dbi.event_index ∙ r.event_index;
          clock_events = w.records Dbi.clock_events ∙ r.clock_events;
          clock_index = w.records Dbi.clock_index ∙ r.clock_index;
          referencing = λ x q i. rw w.pairs (r.referencing x q i);
          neighbors =
              w.records Dbi.neighbors
              ∙ rw r.neighbors (
                  sym (
                    encoded-insert Any (λ id. id)
                      (λ (x : Neighbor). put_tips x.last_clock_event_hashes) n.node_id n s.neighbors
                      IsOrdered-id tt (Keyed-Any s.neighbors)));
          routes = w.records Dbi.routes ∙ r.routes;
          timed_routes = w.records Dbi.timed_routes ∙ r.timed_routes;
          next_event_seq = r.next_event_seq;
          next_clock_seq = r.next_clock_seq;
          chain_tip_seq = r.chain_tip_seq;
          chain_seqs = r.chain_seqs;
        })

  pub put_route-Represents :
      (fuel : ℕ) (destination next_hop : NodeId) (st st' : LmdbStore l) (s : Store)
      → Represents l st s
      → Batch.put_route l fuel destination next_hop st ≡ returned (tt, st')
      → Represents l st' (Store.put_route destination next_hop s)
  unfolding Batch.put_route batch_put_route Store.put_route
  put_route-Represents fuel destination next_hop st st' s p h =
      let (t, r, own) =
        durable-round l (batch_put_route l destination next_hop) s fuel st (tt, st') p h in
      let (b, db, wrote, kept, ends) =
        attempt-parts l (batch_put_route l destination next_hop) t (tt, st') own in
      let w = one_round Dbi.routes destination next_hop t st' b db wrote kept ends in
      subst (λ x. Represents l x (Store.put_route destination next_hop s)) (sym w.left)
        (record {
          events = w.records Dbi.events ∙ r.events;
          event_index = w.records Dbi.event_index ∙ r.event_index;
          clock_events = w.records Dbi.clock_events ∙ r.clock_events;
          clock_index = w.records Dbi.clock_index ∙ r.clock_index;
          referencing = λ x q i. rw w.pairs (r.referencing x q i);
          neighbors = w.records Dbi.neighbors ∙ r.neighbors;
          routes =
              w.records Dbi.routes
              ∙ rw r.routes (
                  sym (
                    encoded-insert Any (λ id. id) (λ id. id) destination next_hop s.routes
                      IsOrdered-id tt (Keyed-Any s.routes)));
          timed_routes = w.records Dbi.timed_routes ∙ r.timed_routes;
          next_event_seq = r.next_event_seq;
          next_clock_seq = r.next_clock_seq;
          chain_tip_seq = r.chain_tip_seq;
          chain_seqs = r.chain_seqs;
        })

  update-known :
      (c : LocalClockEvent) (q : ℕ) (t : LmdbStore l) (s : Store) (b : Batch l)
      → Represents l t s
      → IsKey c.hash
      → lookup c.hash s.clock_seq ≡ some q
      → batch_update_clock_event l c (begin l t) ≡ returned (tt, b)
      → one_put Dbi.clock_events (put_u64_be q) (put_local_clock_event c) (begin l t)
        ≡ returned (tt, b)
  unfolding batch_update_clock_event begin found put_u64_be
  update-known c q t s b r k e h =
      let got : l.get Dbi.clock_index c.hash t.db ≡ of_option (some (put_u64_be q)) =
        l.get_law Dbi.clock_index c.hash t.db k
        ∙ ap of_option (
            ap (lookup c.hash) r.clock_index
            ∙ lookup-encoded Any (λ x. x) put_u64_be c.hash s.clock_seq IsOrdered-id tt
                (Keyed-Any s.clock_seq))
        ∙ rw e refl in
      rw (batch_update_clock_event, got) at h

  update-unknown :
      (c : LocalClockEvent) (t : LmdbStore l) (s : Store) (b : Batch l)
      → Represents l t s
      → IsKey c.hash
      → lookup c.hash s.clock_seq ≡ none
      → batch_update_clock_event l c (begin l t) ≢ returned (tt, b)
  unfolding batch_update_clock_event begin found
  update-unknown c t s b r k e h =
      let got : l.get Dbi.clock_index c.hash t.db ≡ Code.not_found =
        l.get_law Dbi.clock_index c.hash t.db k
        ∙ ap of_option (
            ap (lookup c.hash) r.clock_index
            ∙ lookup-encoded Any (λ x. x) put_u64_be c.hash s.clock_seq IsOrdered-id tt
                (Keyed-Any s.clock_seq))
        ∙ rw e refl in
      cc (rw (batch_update_clock_event, got) at h)

  -- An update that returns found the clock event; the store in memory passes over an unknown one.
  pub update_clock_event-Represents :
      (fuel : ℕ) (c : LocalClockEvent) (st st' : LmdbStore l) (s : Store)
      → Represents l st s
      → IsCounted s
      → IsKey c.hash
      → ((q : ℕ) → lookup c.hash s.clock_seq ≡ some q → IsSeq q)
      → Batch.update_clock_event l fuel c st ≡ returned (tt, st')
      → Represents l st' (Store.update_clock_event c s)
  unfolding Batch.update_clock_event Store.update_clock_event
  update_clock_event-Represents fuel c st st' s p counted k small h =
      let (t, r, own) = durable-round l (batch_update_clock_event l c) s fuel st (tt, st') p h in
      let (b, db, wrote, kept, ends) =
        attempt-parts l (batch_update_clock_event l c) t (tt, st') own in
      elim (Option-cases (lookup c.hash s.clock_seq)) [
        | inl e ↦ absurd (update-unknown c t s b r k e wrote)
        | inr (q, e) ↦
            let w =
              one_round Dbi.clock_events (put_u64_be q) (put_local_clock_event c) t st' b db
                (update-known c q t s b r k e wrote) kept ends in
            subst (λ x. Represents l x (Store.update_clock_event c s)) (sym w.left)
              (rw (Store.update_clock_event, e)
                (record {
                  events = w.records Dbi.events ∙ r.events;
                  event_index = w.records Dbi.event_index ∙ r.event_index;
                  clock_events =
                      w.records Dbi.clock_events
                      ∙ rw r.clock_events (
                          sym (
                            encoded-insert IsSeq put_u64_be put_local_clock_event q c s.clock_events
                              IsOrdered-put_u64_be (small q e) counted.keys));
                  clock_index = w.records Dbi.clock_index ∙ r.clock_index;
                  referencing = λ x n i. rw w.pairs (r.referencing x n i);
                  neighbors = w.records Dbi.neighbors ∙ r.neighbors;
                  routes = w.records Dbi.routes ∙ r.routes;
                  timed_routes = w.records Dbi.timed_routes ∙ r.timed_routes;
                  next_event_seq = r.next_event_seq;
                  next_clock_seq = r.next_clock_seq;
                  chain_tip_seq = r.chain_tip_seq;
                  chain_seqs = r.chain_seqs;
                }))
      ]
