-- ===== src/Lmdb/State.antt =====
-- src/adapters/os/lmdb_store.hpp: the store's members; opening it, growing its map, emptying it.
use loti.Base.{ℕ, ◌+◌, ◌*◌, ◌%◌, ◌^◌, ◌||◌, List, [], ◌∷◌, ◌++◌, Option, none, some}
use loti.Base.{length, last?, leb, ltb, nat_eq, not, if◌then◌else◌}
use loti.Base.Key.{nat_key}
use loti.Base.Table.{Table, insert}
use loti.Domain.{Bytes, EventReference}
use loti.Wire.Reader.{get_clock_event}
use loti.Store.{seqs_of}
use loti.Lmdb.Engine.{
  meta, events, event_index, clock_events, clock_index, neighbors, routes, timed_routes, Try,
  returned, store_full, thrown, ◌>>=◌, check, found, Engine,
}
use loti.Lmdb.Records.{put_u64_be, get_u64_be, read_record}

abbrev pub format_version : ℕ
format_version = 4

-- `kVersionKey`, the letters of "version"
abbrev pub version_key : Bytes
version_key = 118 ∷ 101 ∷ 114 ∷ 115 ∷ 105 ∷ 111 ∷ 110 ∷ []

-- `kMaxMapSize` and `kDefaultMapSize`, by the bytes of a `size_t`; 0 is no ceiling.
unfoldable pub max_map_size : ℕ → ℕ
max_map_size word = if leb 8 word then 0 else 3 * 2 ^ 29

unfoldable pub default_map_size : ℕ → ℕ
default_map_size word = if leb 8 word then 16 * 2 ^ 30 else 2 ^ 30

-- The members. `word` is `sizeof(std::size_t)`; the handles of the sub-databases are their names.
pub record LmdbStore (l : Engine) : Type 0 where
  pub word : ℕ
  pub map_size : ℕ
  pub db : l.Db
  pub next_event_seq : ℕ
  pub next_clock_seq : ℕ
  pub chain_tip_seq : Table ℕ ℕ
  pub chain_seqs : Table ℕ (List ℕ)

-- One past the key of the last record, 0 where there is none.
unfoldable pub next_seq : Table Bytes Bytes → ℕ
next_seq t = elim (last? t) [ none ↦ 0 | some (k, v) ↦ (get_u64_be k + 1) % 2 ^ 64 ]

-- The trackers of the chains, from the clock events in the order of their keys.
pub record Trackers : Type 0 where
  pub chain_tip_seq : Table ℕ ℕ
  pub chain_seqs : Table ℕ (List ℕ)

unfoldable pub track : ℕ → ℕ → Trackers → Trackers
track chain seq t = record {
  chain_tip_seq = insert chain seq t.chain_tip_seq;
  chain_seqs = insert chain (seqs_of chain t.chain_seqs ++ (seq ∷ [])) t.chain_seqs;
}

unfoldable pub seed_from : Table Bytes Bytes → Trackers → Try Trackers
unfolding track
seed_from [] t = returned t
seed_from ((k, v) ∷ rs) t =
    read_record get_clock_event v >>= λ c. seed_from rs (track c.chain (get_u64_be k) t)

unfoldable pub seed_chain_tips : Table Bytes Bytes → Try Trackers
unfolding seed_from
seed_chain_tips rs = seed_from rs (record { chain_tip_seq = []; chain_seqs = [] })

-- The next size of the map, none at the ceiling of a 32-bit machine.
unfoldable pub grown_size : ℕ → ℕ → Option ℕ
unfolding max_map_size
grown_size word size =
    let next = size * 2 % 2 ^ (8 * word) in
    let top = max_map_size word in
    if nat_eq top 0
    then some next
    else if leb top size || ltb next size
    then none
    else some (if ltb top next then top else next)

module _ (l : Engine) where
  -- One pair for each reference of a clock event.
  unfoldable pub rebuild_refs : List EventReference → Bytes → l.Db → Try l.Db
  rebuild_refs [] key db = returned db
  rebuild_refs (r ∷ rs) key db = check (l.put_dup r.hash key db) >>= rebuild_refs rs key

  unfoldable pub rebuild_from : Table Bytes Bytes → l.Db → Try l.Db
  unfolding rebuild_refs
  rebuild_from [] db = returned db
  rebuild_from ((k, v) ∷ rs) db = read_record get_clock_event v >>= λ c.
      rebuild_refs c.referenced_events k db >>= rebuild_from rs

  unfoldable pub stamp_version : l.Db → Try l.Db
  stamp_version db = check (l.put meta version_key (put_u64_be format_version) db)

  -- A fresh store is stamped, one of the first version is migrated, any other version is refused.
  unfoldable pub check_version : l.Db → Try l.Db
  unfolding rebuild_from stamp_version
  check_version db = found (l.get meta version_key db) >>= λ version. elim version [
    | none ↦ stamp_version db
    | some v ↦
        if not (nat_eq (length v) 8)
        then thrown
        else if nat_eq (get_u64_be v) 1
        then (rebuild_from (l.records clock_events db) db >>= stamp_version)
        else if nat_eq (get_u64_be v) format_version
        then returned db
        else thrown
  ]

  -- The constructor, on the contents of the file that it opens.
  unfoldable pub open_store : ℕ → ℕ → l.Db → Try (LmdbStore l)
  unfolding check_version next_seq seed_chain_tips
  open_store word map_size disk = check (l.set_mapsize map_size disk) >>= λ sized.
      check_version sized >>= λ stamped. check (l.commit stamped) >>= λ db.
      seed_chain_tips (l.records clock_events db) >>= λ t. returned (record {
        word = word;
        map_size = map_size;
        db = db;
        next_event_seq = next_seq (l.records events stamped);
        next_clock_seq = next_seq (l.records clock_events stamped);
        chain_tip_seq = t.chain_tip_seq;
        chain_seqs = t.chain_seqs;
      })

  unfoldable pub grow_map : LmdbStore l → Try (LmdbStore l)
  unfolding grown_size
  grow_map s = elim (grown_size s.word s.map_size) [
    | none ↦ store_full
    | some size ↦
        check (l.set_mapsize size s.db) >>= λ db. returned (record s { map_size = size; db = db })
  ]

  -- Every sub-database but `meta` is emptied, and the counters and trackers with them.
  unfoldable pub reset : LmdbStore l → Try (LmdbStore l)
  reset s = check (l.drop events s.db) >>= λ d1. check (l.drop event_index d1) >>= λ d2.
      check (l.drop clock_events d2) >>= λ d3. check (l.drop clock_index d3) >>= λ d4.
      check (l.drop_dups d4) >>= λ d5. check (l.drop neighbors d5) >>= λ d6.
      check (l.drop routes d6) >>= λ d7. check (l.drop timed_routes d7) >>= λ d8.
      check (l.commit d8) >>= λ db. returned (record s {
        db = db;
        next_event_seq = 0;
        next_clock_seq = 0;
        chain_tip_seq = [];
        chain_seqs = [];
      })
