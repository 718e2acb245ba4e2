-- ===== src/Lmdb/Prune.antt =====
-- src/adapters/os/lmdb_store.cpp: `prune_chain`, one transaction that deletes the oldest clock events.
use loti.Base.{ℕ, ◌-◌, ◌||◌, List, [], ◌∷◌, none, some, length, leb, nat_eq, if◌then◌else◌}
use loti.Base.{take, drop}
use loti.Base.Key.{nat_key}
use loti.Base.Table.{lookup, insert}
use loti.Domain.{Bytes, EventReference}
use loti.Wire.Reader.{get_clock_event}
use loti.Lmdb.Engine.{
  clock_events, clock_index, Try, returned, ◌>>=◌, found, check, tolerate, Engine,
}
use loti.Lmdb.Records.{put_u64_be, read_record}
use loti.Lmdb.State.{LmdbStore}

module _ (l : Engine) where
  unfoldable pub del_references : List EventReference → Bytes → l.Db → Try l.Db
  unfolding tolerate
  del_references [] key db = returned db
  del_references (r ∷ rs) key db = tolerate db (l.del_dup r.hash key db) >>= del_references rs key

  -- The body of the loop; what is gone already is passed over.
  unfoldable pub prune_record : ℕ → l.Db → Try l.Db
  unfolding del_references found read_record put_u64_be
  prune_record seq db = found (l.get clock_events (put_u64_be seq) db) >>= λ bytes. elim bytes [
    | none ↦ returned db
    | some b ↦ read_record get_clock_event b >>= λ c.
        del_references c.referenced_events (put_u64_be seq) db >>= λ d1.
        tolerate d1 (l.del clock_index c.hash d1) >>= λ d2.
        check (l.del clock_events (put_u64_be seq) d2)
  ]

  unfoldable pub prune_records : List ℕ → l.Db → Try l.Db
  unfolding prune_record
  prune_records [] db = returned db
  prune_records (seq ∷ seqs) db = prune_record seq db >>= prune_records seqs

  -- The tracker is cut only after the commit.
  unfoldable pub prune_chain : ℕ → ℕ → LmdbStore l → Try (LmdbStore l)
  unfolding prune_records
  prune_chain chain keep s = elim (lookup chain s.chain_seqs) [
    | none ↦ returned s
    | some seqs ↦
        if nat_eq keep 0 || leb (length seqs) keep
        then returned s
        else (let to_prune = length seqs - keep in
            prune_records (take to_prune seqs) s.db >>= λ pruned. check (l.commit pruned) >>= λ db.
            returned
              (record s { db = db; chain_seqs = insert chain (drop to_prune seqs) s.chain_seqs }))
  ]
