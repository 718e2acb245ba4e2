-- ===== src/Lmdb/Refinement/Pruning.antt =====
-- src/adapters/os/lmdb_store.cpp against src/adapters/sim/in_memory_store.hpp: a chain is cut to its size
-- in the persistent store as in the one in memory.
use mathlib.Core.Path.{subst}
use loti.Base.{ℕ, ◌≡◌, refl, sym, ap, ◌∙◌, arith, ◌⊎◌, not, ◌&&◌}
use loti.Base.{List, [], ◌∷◌, none, some, Option-cases, inl, inr, nat_eq}
use loti.Base.{if◌then◌else◌}
use loti.Base.Table.{Table, lookup, erase, lookup-erase}
use loti.Base.Key.{bytes_key, nat_key, pair_key, bytes_eq, bytes_eq_iff, pair_eq}
use loti.Domain.{Bytes, EventHash, EventReference, LocalClockEvent}
use loti.Wire.Writer.{put_refs}
use loti.Wire.Reader.{get_clock_event}
use loti.Wire.RoundTrip.Objects.{get_clock_event-put_clock_event}
use loti.Node.Snapshot.{put_local_clock_event}
use loti.Node.Snapshot.RoundTrip.{IsLocalClockEvent}
use loti.Store.{Store, drop_pair, drop_pairs, prune_seq}
use loti.Lmdb.Engine.{
  Dbi, dbi_eq, Code, success, not_found, full, failed, returned, found, tolerate, of_option, Engine,
}
use loti.Lmdb.Records.{put_u64_be, read_record}
use loti.Lmdb.State.{LmdbStore}
use loti.Lmdb.Prune.{del_references, prune_record}
use loti.Lmdb.Keys.{encoded-erase, lookup-encoded, bytes_eq-put_u64_be}
use loti.Lmdb.Refinement.{
  Represents, IsCounted, IsOrdered-put_u64_be, IsOrdered-id, Keyed-Any, IsSeq, Any, has_pair,
}
use loti.Lmdb.Refinement.Writes.{bind-returned, check-returned}
use loti.Lmdb.Refinement.Clocks.{SamePairs}
use loti.Lmdb.Refinement.Lookups.{seq-IsKey}

-- Every live clock event is in the range of its fields.
pub record InRange (s : Store) : Type 0 where
  pub at : (q : ℕ) (c : LocalClockEvent) → lookup q s.clock_events ≡ some c → IsLocalClockEvent c

has_pair-drop_pair :
    (h k : EventHash) (n q : ℕ) (ps : List (EventHash × ℕ))
    → has_pair h n (drop_pair k q ps) ≡ (has_pair h n ps && not (bytes_eq k h && nat_eq q n))
unfolding has_pair drop_pair
has_pair-drop_pair h k n q [] = refl
has_pair-drop_pair h k n q ((j, m) ∷ ps) =
    ground
      (arith, has_pair-drop_pair h k n q ps, bytes_eq_iff j k, bytes_eq_iff j h, bytes_eq_iff k h)

SamePairs-erase :
    (t : Table (Bytes × Bytes) (Unit {0})) (ps : List (EventHash × ℕ)) (k : EventHash) (q : ℕ)
    → IsSeq q
    → SamePairs t ps
    → SamePairs (erase (k, put_u64_be q) t) (drop_pair k q ps)
unfolding pair_eq
SamePairs-erase t ps k q b same h n i =
    let reads = lookup-erase (k, put_u64_be q) (h, put_u64_be n) t in
    let fewer = has_pair-drop_pair h k n q ps in
    ground (arith, reads, fewer, same h n i, bytes_eq-put_u64_be q n b i)

-- A delete that may find nothing leaves what an erase leaves.
tolerate-returned {ℓ} :
    {A : Type ℓ} (old a : A) (c : Code A)
    → tolerate old c ≡ returned a
    → (c ≡ success a) ⊎ ((c ≡ not_found) × (a ≡ old))
unfolding tolerate
tolerate-returned old a (success b) h = inl (cc h)
tolerate-returned old a not_found h = inr (refl, cc h)
tolerate-returned old a full h = cc h
tolerate-returned old a failed h = cc h

module _ (l : Engine) where
  del_dup-erases :
      (k v : Bytes) (db db' : l.Db)
      → tolerate db (l.del_dup k v db) ≡ returned db'
      → (l.pairs db' ≡ erase (k, v) (l.pairs db)) × ((d : Dbi) → l.records d db' ≡ l.records d db)
  del_dup-erases k v db db' h = elim (tolerate-returned db db' (l.del_dup k v db) h) [
    | inl gone ↦ l.del_dup_law k v db db' gone
    | inr (absent, same) ↦
        (ap l.pairs same ∙ sym (l.del_dup_absent k v db absent), λ d. ap (l.records d) same)
  ]

  absent-erases :
      (k : Bytes) (db : l.Db)
      → l.del Dbi.clock_index k db ≡ not_found
      → (d : Dbi)
      → l.records d db ≡ (
          if dbi_eq Dbi.clock_index d
          then erase k (l.records Dbi.clock_index db)
          else l.records d db)
  absent-erases k db gone Dbi.clock_index = sym (l.del_absent Dbi.clock_index k db gone)
  absent-erases k db gone Dbi.meta = refl
  absent-erases k db gone Dbi.events = refl
  absent-erases k db gone Dbi.event_index = refl
  absent-erases k db gone Dbi.clock_events = refl
  absent-erases k db gone Dbi.neighbors = refl
  absent-erases k db gone Dbi.routes = refl
  absent-erases k db gone Dbi.timed_routes = refl

  del_index-erases :
      (k : Bytes) (db db' : l.Db)
      → tolerate db (l.del Dbi.clock_index k db) ≡ returned db'
      → (l.pairs db' ≡ l.pairs db)
        × ((d : Dbi)
            → l.records d db' ≡ (
                if dbi_eq Dbi.clock_index d
                then erase k (l.records Dbi.clock_index db)
                else l.records d db))
  del_index-erases k db db' h = elim (tolerate-returned db db' (l.del Dbi.clock_index k db) h) [
    | inl gone ↦ l.del_law Dbi.clock_index k db db' gone
    | inr (absent, same) ↦
        (ap l.pairs same, λ d. ap (l.records d) same ∙ absent-erases k db absent d)
  ]

  references-dropped :
      (rs : List EventReference) (q : ℕ) (db db' : l.Db) (ps : List (EventHash × ℕ))
      → IsSeq q
      → del_references l rs (put_u64_be q) db ≡ returned db'
      → SamePairs (l.pairs db) ps
      → SamePairs (l.pairs db') (drop_pairs rs q ps)
        × ((d : Dbi) → l.records d db' ≡ l.records d db)
  unfolding del_references drop_pairs
  references-dropped [] q db db' ps b h same =
      let ends : db ≡ db' = cc h in
      (subst (λ (x : l.Db). SamePairs (l.pairs x) ps) ends same, λ d. ap (l.records d) (sym ends))
  references-dropped (r ∷ rs) q db db' ps b h same =
      let (d1, gone, rest) =
        bind-returned (tolerate db (l.del_dup r.hash (put_u64_be q) db)) _ db' h in
      let (pairs, kept) = del_dup-erases r.hash (put_u64_be q) db d1 gone in
      let same1 =
        subst (λ t. SamePairs t (drop_pair r.hash q ps)) (sym pairs)
          (SamePairs-erase (l.pairs db) ps r.hash q b same) in
      let (same2, kept2) = references-dropped rs q d1 db' (drop_pair r.hash q ps) b rest same1 in
      (same2, λ d. kept2 d ∙ kept d)

  read_record-stored :
      (c : LocalClockEvent)
      → IsLocalClockEvent c
      → read_record get_clock_event (put_local_clock_event c) ≡ returned c.base
  unfolding read_record put_local_clock_event
  read_record-stored c v =
      rw
        (
          read_record,
          (get_clock_event-put_clock_event c.base v.base).at (put_refs c.referencing_events),
        )
        refl

  -- The contents with one clock event less.
  pub prune_record-Represents :
      (q : ℕ) (st : LmdbStore l) (s : Store) (db db' : l.Db)
      → Represents l (record st { db = db }) s
      → IsSeq q
      → IsCounted s
      → InRange s
      → prune_record l q db ≡ returned db'
      → Represents l (record st { db = db' }) (prune_seq q s)
  unfolding prune_record prune_seq found
  prune_record-Represents q st s db db' r small counted ranges h =
      let got : l.get Dbi.clock_events (put_u64_be q) db
          ≡ of_option (elim (lookup q s.clock_events) [
            | none ↦ none
            | some c ↦ some (put_local_clock_event c)
          ]) =
        l.get_law Dbi.clock_events (put_u64_be q) db (seq-IsKey q)
        ∙ ap of_option (
            ap (lookup (put_u64_be q)) r.clock_events
            ∙ lookup-encoded IsSeq put_u64_be put_local_clock_event q s.clock_events
                IsOrdered-put_u64_be small counted.keys) in
      elim (Option-cases (lookup q s.clock_events)) [
        | inl e ↦
            let same : db ≡ db' = cc (rw (prune_record, got, e) at h) in
            rw (prune_seq, e) (subst (λ (x : l.Db). Represents l (record st { db = x }) s) same r)
        | inr (c, e) ↦
            let v = ranges.at q c e in
            let h0 = rw (prune_record, got, e, read_record-stored c v) at h in
            let (d1, gone, h1) =
              bind-returned (del_references l c.referenced_events (put_u64_be q) db) _ db' h0 in
            let (d2, unnamed, h2) =
              bind-returned (tolerate d1 (l.del Dbi.clock_index c.hash d1)) _ db' h1 in
            let (pairs, kept) =
              references-dropped c.referenced_events q db d1 s.referencing small gone
                r.referencing in
            let (pairs2, named) = del_index-erases c.hash d1 d2 unnamed in
            let (pairs3, dropped) =
              l.del_law Dbi.clock_events (put_u64_be q) d2 db' (check-returned _ db' h2) in
            rw (prune_seq, e)
              (record {
                events = dropped Dbi.events ∙ named Dbi.events ∙ kept Dbi.events ∙ r.events;
                event_index =
                    dropped Dbi.event_index
                    ∙ named Dbi.event_index
                    ∙ kept Dbi.event_index
                    ∙ r.event_index;
                clock_events =
                    dropped Dbi.clock_events
                    ∙ rw (named Dbi.clock_events, kept Dbi.clock_events, r.clock_events)
                        (sym (
                          encoded-erase IsSeq put_u64_be put_local_clock_event q s.clock_events
                            IsOrdered-put_u64_be small counted.keys));
                clock_index =
                    dropped Dbi.clock_index
                    ∙ named Dbi.clock_index
                    ∙ rw (kept Dbi.clock_index, r.clock_index)
                        (sym (
                          encoded-erase Any (λ x. x) put_u64_be c.hash s.clock_seq IsOrdered-id tt
                            (Keyed-Any s.clock_seq)));
                referencing = λ x n i. rw (pairs3, pairs2) (pairs x n i);
                neighbors =
                    dropped Dbi.neighbors ∙ named Dbi.neighbors ∙ kept Dbi.neighbors ∙ r.neighbors;
                routes = dropped Dbi.routes ∙ named Dbi.routes ∙ kept Dbi.routes ∙ r.routes;
                timed_routes =
                    dropped Dbi.timed_routes
                    ∙ named Dbi.timed_routes
                    ∙ kept Dbi.timed_routes
                    ∙ r.timed_routes;
                next_event_seq = r.next_event_seq;
                next_clock_seq = r.next_clock_seq;
                chain_tip_seq = r.chain_tip_seq;
                chain_seqs = r.chain_seqs;
              })
      ]
