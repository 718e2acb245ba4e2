-- ===== src/Lmdb/Refinement/Events.antt =====
-- src/adapters/os/lmdb_store.cpp against src/adapters/sim/in_memory_store.hpp: events are appended in
-- the persistent store as in the one in memory.
use loti.Base.{ℕ, ◌+◌, ◌%◌, ◌^◌, ◌<◌, ◌≡◌, sym, ◌∙◌, arith, none, length}
use loti.Base.{◌++◌, [], ◌∷◌, length-append}
use mathlib.Core.Path.{subst}
use native.Mathlib.Nat.{mod-eq_of_lt}
use loti.Base.Table.{lookup, emplace}
use loti.Base.Key.{bytes_key, nat_key}
use loti.Domain.{Event}
use loti.Wire.Writer.{put_event}
use loti.Store
use loti.Store.{Store}
use loti.Lmdb.Engine.{Dbi, success, returned, check_write, Engine}
use loti.Lmdb.Records.{put_u64_be}
use loti.Lmdb.State.{LmdbStore}
use loti.Lmdb.Batch
use loti.Lmdb.Batch.{Batch, begin, attempt, commit_batch, track_all, batch_append_event}
use loti.Lmdb.Refinement.{Represents, encoded-append, encoded-index}
use loti.Lmdb.Refinement.Writes.{bind-returned, check_write-returned, durable-round, attempt-parts}

module _ (l : Engine) where
  -- The writes of one round, and the store that it leaves.
  record Round (e : Event) (t : LmdbStore l) (q : ℕ) (t' : LmdbStore l) : Type 0 where
    logged : l.Db
    indexed : l.Db
    durable : l.Db
    log : l.put Dbi.events (put_u64_be t.next_event_seq) (put_event e) t.db ≡ success logged
    index : l.put Dbi.event_index e.hash (put_u64_be t.next_event_seq) logged ≡ success indexed
    kept : l.commit indexed ≡ success durable
    seq : q ≡ t.next_event_seq
    left : t' ≡ record t { db = durable; next_event_seq = (t.next_event_seq + 1) % 2 ^ 64 }

  round :
      (e : Event) (t t' : LmdbStore l) (q : ℕ)
      → attempt l (batch_append_event l e) t ≡ returned (q, t')
      → Round e t q t'
  unfolding batch_append_event begin commit_batch track_all check_write
  round e t t' q h =
      let (b, db, wrote, kept, ends) = attempt-parts l (batch_append_event l e) t (q, t') h in
      let key = put_u64_be t.next_event_seq in
      let (d1, log, next) =
        bind-returned (check_write (l.put Dbi.events key (put_event e) t.db)) _ (q, b) wrote in
      let (d2, index, last) =
        bind-returned (check_write (l.put Dbi.event_index e.hash key d1)) _ (q, b) next in
      let b' : Batch l = record (begin l t) {
        txn = d2;
        event_seq = (t.next_event_seq + 1) % 2 ^ 64;
      } in
      let same : b ≡ b' = cc last in
      let kept' = subst (λ (x : Batch l). l.commit x.txn ≡ success db) same kept in
      let ends' = subst (λ (x : Batch l). commit_batch l x t ≡ returned t') same ends in
      record {
        logged = d1;
        indexed = d2;
        durable = db;
        log = check_write-returned _ d1 log;
        index = check_write-returned _ d2 index;
        kept = kept';
        seq = cc last;
        left = cc (rw kept' at ends');
      }

  -- An event whose hash is new, appended by a durable write that returns, gets the sequence number that
  -- the store in memory gives it, and leaves the two stores with the same contents.
  pub append_event-Represents :
      (fuel : ℕ) (e : Event) (st st' : LmdbStore l) (s : Store) (q : ℕ)
      → Represents l st s
      → length s.events + 1 < 2 ^ 64
      → lookup e.hash s.event_seq ≡ none
      → Batch.append_event l fuel e st ≡ returned (q, st')
      → (q ≡ (Store.append_event e s).0) × Represents l st' (Store.append_event e s).1
  unfolding Batch.append_event Store.append_event emplace
  append_event-Represents fuel e st st' s q p room new h =
      let (t, r, own) = durable-round l (batch_append_event l e) s fuel st (q, st') p h in
      let w = round e t st' q own in
      let first = l.put_law Dbi.events _ _ t.db w.logged w.log in
      let second = l.put_law Dbi.event_index _ _ w.logged w.indexed w.index in
      let last = l.commit_law w.indexed w.durable w.kept in
      let seq = r.next_event_seq in
      let longer : length s.events + 1 ≡ length (s.events ++ (e ∷ [])) =
        sym (length-append s.events (e ∷ [])) in
      (
        w.seq ∙ seq,
        subst (λ x. Represents l x (Store.append_event e s).1) (sym w.left)
            (record {
              events =
                  last.1 Dbi.events
                  ∙ second.1 Dbi.events
                  ∙ first.1 Dbi.events
                  ∙ rw (seq, r.events) (encoded-append s.events e (omega (arith, room)));
              event_index =
                  last.1 Dbi.event_index
                  ∙ second.1 Dbi.event_index
                  ∙ rw (first.1 Dbi.event_index, r.event_index, seq)
                      (encoded-index e.hash (length s.events) s.event_seq new);
              clock_events =
                  last.1 Dbi.clock_events
                  ∙ second.1 Dbi.clock_events
                  ∙ first.1 Dbi.clock_events
                  ∙ r.clock_events;
              clock_index =
                  last.1 Dbi.clock_index
                  ∙ second.1 Dbi.clock_index
                  ∙ first.1 Dbi.clock_index
                  ∙ r.clock_index;
              referencing = λ h n b. rw (last.0, second.0, first.0) (r.referencing h n b);
              neighbors =
                  last.1 Dbi.neighbors
                  ∙ second.1 Dbi.neighbors
                  ∙ first.1 Dbi.neighbors
                  ∙ r.neighbors;
              routes = last.1 Dbi.routes ∙ second.1 Dbi.routes ∙ first.1 Dbi.routes ∙ r.routes;
              timed_routes =
                  last.1 Dbi.timed_routes
                  ∙ second.1 Dbi.timed_routes
                  ∙ first.1 Dbi.timed_routes
                  ∙ r.timed_routes;
              next_event_seq =
                  rw seq (mod-eq_of_lt {n = length s.events + 1} {m = 2 ^ 64} room ∙ longer);
              next_clock_seq = r.next_clock_seq;
              chain_tip_seq = r.chain_tip_seq;
              chain_seqs = r.chain_seqs;
            }),
      )
