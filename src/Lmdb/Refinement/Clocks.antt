-- ===== src/Lmdb/Refinement/Clocks.antt =====
-- src/adapters/os/lmdb_store.cpp against src/adapters/sim/in_memory_store.hpp: clock events are appended
-- in the persistent store as in the one in memory, the reverse index included.
use loti.Base.{ℕ, ◌+◌, ◌%◌, ◌^◌, ◌<◌, ◌≡◌, refl, sym, ap, ◌∙◌, arith, false, ◌||◌, none}
use loti.Base.{List, ◌++◌, [], ◌∷◌, append_assoc, append-nil}
use mathlib.Core.Path.{subst}
use native.Mathlib.Nat.{mod-eq_of_lt}
use loti.Base.Table.{Table, lookup, insert, emplace, lookup-insert}
use loti.Base.Key.{bytes_key, nat_key, pair_key, pair_eq}
use loti.Domain.{Bytes, EventHash, EventReference, LocalClockEvent}
use loti.Node.Snapshot.{put_local_clock_event}
use loti.Store
use loti.Store.{Store, reference_pairs}
use loti.Store.Lookups.{IsNumbered, fresh-none}
use loti.Lmdb.Engine.{Dbi, dbi_eq, success, returned, check_write, Engine}
use loti.Lmdb.Records.{put_u64_be}
use loti.Lmdb.State.{LmdbStore, track}
use loti.Lmdb.Batch
use loti.Lmdb.Batch.{
  Batch, begin, attempt, commit_batch, track_all, batch_append_clock_event, put_references,
}
use loti.Lmdb.Keys.{encoded-insert, bytes_eq-put_u64_be}
use loti.Lmdb.Refinement.{
  Represents, IsCounted, encoded-index, IsOrdered-put_u64_be, IsSeq, has_pair, present,
}
use loti.Lmdb.Refinement.Writes.{bind-returned, check_write-returned, durable-round, attempt-parts}

-- The pairs of the table are those of the list.
abbrev pub SamePairs : Table (Bytes × Bytes) (Unit {0}) → List (EventHash × ℕ) → Type 0
SamePairs t ps =
    (h : EventHash) (n : ℕ) → IsSeq n → present (lookup (h, put_u64_be n) t) ≡ has_pair h n ps

has_pair-append :
    (h : EventHash) (n : ℕ) (ps qs : List (EventHash × ℕ))
    → has_pair h n (ps ++ qs) ≡ (has_pair h n ps || has_pair h n qs)
unfolding has_pair
has_pair-append h n [] qs = refl
has_pair-append h n ((k, m) ∷ ps) qs = ground (arith, has_pair-append h n ps qs)

SamePairs-insert :
    (t : Table (Bytes × Bytes) (Unit {0})) (ps : List (EventHash × ℕ)) (k : EventHash) (q : ℕ)
    → IsSeq q
    → SamePairs t ps
    → SamePairs (insert (k, put_u64_be q) tt t) (ps ++ ((k, q) ∷ []))
unfolding has_pair pair_eq
SamePairs-insert t ps k q b same h n i =
    let reads = lookup-insert (k, put_u64_be q) (h, put_u64_be n) tt t in
    let more = has_pair-append h n ps ((k, q) ∷ []) in
    ground (arith, reads, more, same h n i, bytes_eq-put_u64_be q n b i)

-- Trackers that answer the same do so after an append.
same_appended :
    (a b q : ℕ) (t u : Table ℕ (List ℕ))
    → ((chain : ℕ) → lookup chain t ≡ lookup chain u)
    → lookup b (insert a (Store.seqs_of a t ++ (q ∷ [])) t)
      ≡ lookup b (insert a (Store.seqs_of a u ++ (q ∷ [])) u)
unfolding Store.seqs_of lookup
same_appended a b q t u same =
    let seqs : Store.seqs_of a t ≡ Store.seqs_of a u = rw (Store.seqs_of, same a) refl in
    lookup-insert a b (Store.seqs_of a t ++ (q ∷ [])) t
    ∙ rw (seqs, same b) (sym (lookup-insert a b (Store.seqs_of a u ++ (q ∷ [])) u))

module _ (l : Engine) where
  references-SamePairs :
      (rs : List EventReference) (q : ℕ) (db db' : l.Db) (ps : List (EventHash × ℕ))
      → IsSeq q
      → put_references l rs (put_u64_be q) db ≡ returned db'
      → SamePairs (l.pairs db) ps
      → SamePairs (l.pairs db') (ps ++ reference_pairs q rs)
        × ((d : Dbi) → l.records d db' ≡ l.records d db)
  unfolding put_references reference_pairs
  references-SamePairs [] q db db' ps b h same =
      let ends : db ≡ db' = cc h in
      (
        subst (λ xs. SamePairs (l.pairs db') xs) (sym (append-nil ps))
            (subst (λ (x : l.Db). SamePairs (l.pairs x) ps) ends same),
        λ d. ap (l.records d) (sym ends),
      )
  references-SamePairs (r ∷ rs) q db db' ps b h same =
      let (d1, put, rest) = bind-returned _ _ db' h in
      let (pairs, kept) =
        l.put_dup_law r.hash (put_u64_be q) db d1 (check_write-returned _ d1 put) in
      let same1 : SamePairs (l.pairs d1) (ps ++ ((r.hash, q) ∷ [])) =
        subst (λ t. SamePairs t (ps ++ ((r.hash, q) ∷ []))) (sym pairs)
          (SamePairs-insert (l.pairs db) ps r.hash q b same) in
      let (same2, kept2) =
        references-SamePairs rs q d1 db' (ps ++ ((r.hash, q) ∷ [])) b rest same1 in
      (
        subst (λ xs. SamePairs (l.pairs db') xs)
            (append_assoc ps ((r.hash, q) ∷ []) (reference_pairs q rs)) same2,
        λ d. kept2 d ∙ kept d,
      )

  -- The writes of one round, and the store that it leaves.
  record Round (c : LocalClockEvent) (t : LmdbStore l) (q : ℕ) (t' : LmdbStore l) : Type 0 where
    logged : l.Db
    indexed : l.Db
    linked : l.Db
    durable : l.Db
    log :
        l.put Dbi.clock_events (put_u64_be t.next_clock_seq) (put_local_clock_event c) t.db
        ≡ success logged
    index : l.put Dbi.clock_index c.hash (put_u64_be t.next_clock_seq) logged ≡ success indexed
    link :
        put_references l c.referenced_events (put_u64_be t.next_clock_seq) indexed ≡ returned linked
    kept : l.commit linked ≡ success durable
    seq : q ≡ t.next_clock_seq
    left : t' ≡ record t {
      db = durable;
      next_clock_seq = (t.next_clock_seq + 1) % 2 ^ 64;
      chain_tip_seq = insert c.chain t.next_clock_seq t.chain_tip_seq;
      chain_seqs =
          insert c.chain
            (Store.seqs_of c.chain t.chain_seqs ++ (t.next_clock_seq ∷ []))
            t.chain_seqs;
    }

  round :
      (c : LocalClockEvent) (t t' : LmdbStore l) (q : ℕ)
      → attempt l (batch_append_clock_event l c) t ≡ returned (q, t')
      → Round c t q t'
  unfolding batch_append_clock_event begin commit_batch track_all track check_write
  round c t t' q h =
      let (b, db, wrote, kept, ends) = attempt-parts l (batch_append_clock_event l c) t (q, t') h in
      let key = put_u64_be t.next_clock_seq in
      let (d1, log, next) =
        bind-returned (check_write (l.put Dbi.clock_events key (put_local_clock_event c) t.db)) _
          (q, b) wrote in
      let (d2, index, more) =
        bind-returned (check_write (l.put Dbi.clock_index c.hash key d1)) _ (q, b) next in
      let (d3, link, last) =
        bind-returned (put_references l c.referenced_events key d2) _ (q, b) more in
      let b' : Batch l = record (begin l t) {
        txn = d3;
        clock_seq = (t.next_clock_seq + 1) % 2 ^ 64;
        pending_chain_appends = (c.chain, t.next_clock_seq) ∷ [];
      } in
      let same : b ≡ b' = cc last in
      let kept' = subst (λ (x : Batch l). l.commit x.txn ≡ success db) same kept in
      let ends' = subst (λ (x : Batch l). commit_batch l x t ≡ returned t') same ends in
      let left' = rw kept' at ends' in
      record {
        logged = d1;
        indexed = d2;
        linked = d3;
        durable = db;
        log = check_write-returned _ d1 log;
        index = check_write-returned _ d2 index;
        link = link;
        kept = kept';
        seq = cc last;
        left = cc left';
      }

  -- A clock event whose hash is new, appended by a durable write that returns, gets the sequence number
  -- that the store in memory gives it, and leaves the two stores with the same contents, the reverse index
  -- and the trackers of the chains included.
  pub append_clock_event-Represents :
      (fuel : ℕ) (c : LocalClockEvent) (st st' : LmdbStore l) (s : Store) (q : ℕ)
      → Represents l st s
      → IsNumbered s
      → IsCounted s
      → s.next_clock_seq + 1 < 2 ^ 64
      → lookup c.hash s.clock_seq ≡ none
      → Batch.append_clock_event l fuel c st ≡ returned (q, st')
      → (q ≡ (Store.append_clock_event c s).0) × Represents l st' (Store.append_clock_event c s).1
  unfolding Batch.append_clock_event Store.append_clock_event emplace
  append_clock_event-Represents fuel c st st' s q p numbered counted room new h =
      let (t, r, own) = durable-round l (batch_append_clock_event l c) s fuel st (q, st') p h in
      let w = round c t st' q own in
      let first = l.put_law Dbi.clock_events _ _ t.db w.logged w.log in
      let second = l.put_law Dbi.clock_index _ _ w.logged w.indexed w.index in
      let last = l.commit_law w.linked w.durable w.kept in
      let seq = r.next_clock_seq in
      let link' =
        subst
          (λ (n : ℕ).
            put_references l c.referenced_events (put_u64_be n) w.indexed ≡ returned w.linked)
          seq w.link in
      let (pairs, kept) =
        references-SamePairs c.referenced_events s.next_clock_seq w.indexed w.linked s.referencing
          counted.next link' (rw (second.0, first.0) r.referencing) in
      let fresh = fresh-none s numbered in
      let stays : (d : Dbi)
          → dbi_eq Dbi.clock_events d ≡ false
          → dbi_eq Dbi.clock_index d ≡ false
          → l.records d w.durable ≡ l.records d t.db =
        λ d n1 n2. last.1 d ∙ kept d ∙ (second.1 d ∙ rw n2 (first.1 d ∙ rw n1 refl)) in
      (
        w.seq ∙ seq,
        subst (λ x. Represents l x (Store.append_clock_event c s).1) (sym w.left)
            (record {
              events = stays Dbi.events refl refl ∙ r.events;
              event_index = stays Dbi.event_index refl refl ∙ r.event_index;
              clock_events =
                  last.1 Dbi.clock_events
                  ∙ kept Dbi.clock_events
                  ∙ second.1 Dbi.clock_events
                  ∙ first.1 Dbi.clock_events
                  ∙ rw (seq, r.clock_events)
                      (rw (emplace, fresh)
                        (sym (
                          encoded-insert IsSeq put_u64_be put_local_clock_event s.next_clock_seq c
                            s.clock_events IsOrdered-put_u64_be counted.next counted.keys)));
              clock_index =
                  last.1 Dbi.clock_index
                  ∙ kept Dbi.clock_index
                  ∙ second.1 Dbi.clock_index
                  ∙ rw (first.1 Dbi.clock_index, r.clock_index, seq)
                      (encoded-index c.hash s.next_clock_seq s.clock_seq new);
              referencing = λ x n b. rw last.0 (pairs x n b);
              neighbors = stays Dbi.neighbors refl refl ∙ r.neighbors;
              routes = stays Dbi.routes refl refl ∙ r.routes;
              timed_routes = stays Dbi.timed_routes refl refl ∙ r.timed_routes;
              next_event_seq = r.next_event_seq;
              next_clock_seq = rw seq (mod-eq_of_lt {n = s.next_clock_seq + 1} {m = 2 ^ 64} room);
              chain_tip_seq = rw (seq, r.chain_tip_seq) refl;
              chain_seqs = λ chain. rw seq (
                  same_appended c.chain chain s.next_clock_seq t.chain_seqs s.chain_seqs
                    r.chain_seqs);
            }),
      )
