-- ===== src/Lmdb/Refinement/Writes.antt =====
-- src/adapters/os/lmdb_store.cpp against src/adapters/sim/in_memory_store.hpp: a durable write does to
-- the persistent store what the write does to the one in memory.
use mathlib.Core.Path.{subst}
use loti.Base.{ℕ, zero, suc, ◌≡◌, refl, ap, ◌∙◌}
use loti.Base.{Option-cases, inl, inr, ◌⊎◌}
use loti.Base.Key.{bytes_key, pair_key, nat_key}
use loti.Store.{Store}
use loti.Lmdb.Engine.{
  Dbi, Code, success, not_found, full, failed, Try, returned, map_full, store_full, thrown,
  out_of_fuel, ◌>>=◌, check, check_write, Engine,
}
use loti.Lmdb.State.{LmdbStore, grow_map, grown_size}
use loti.Lmdb.Batch.{Batch, begin, attempt, durable, on_map_full, commit_batch}
use loti.Lmdb.Refinement.{Represents}

pub bind-returned {ℓ κ} :
    {A : Type ℓ} {B : Type κ} (m : Try A) (f : A → Try B) (b : B)
    → (m >>= f) ≡ returned b
    → (a : A) × (m ≡ returned a) × (f a ≡ returned b)
bind-returned (returned a) f b h = (a, refl, h)
bind-returned map_full f b h = cc h
bind-returned store_full f b h = cc h
bind-returned thrown f b h = cc h
bind-returned out_of_fuel f b h = cc h

pub check_write-returned {ℓ} :
    {A : Type ℓ} (c : Code A) (a : A) → check_write c ≡ returned a → c ≡ success a
unfolding check_write
check_write-returned (success b) a h = cc h
check_write-returned not_found a h = cc h
check_write-returned full a h = cc h
check_write-returned failed a h = cc h

pub check-returned {ℓ} : {A : Type ℓ} (c : Code A) (a : A) → check c ≡ returned a → c ≡ success a
unfolding check
check-returned (success b) a h = cc h
check-returned not_found a h = cc h
check-returned full a h = cc h
check-returned failed a h = cc h

caught {ℓ} :
    {A : Type ℓ} (again m : Try A) (a : A)
    → on_map_full again m ≡ returned a
    → (m ≡ returned a) ⊎ (again ≡ returned a)
unfolding on_map_full
caught again (returned b) a h = inl h
caught again map_full a h = inr h
caught again store_full a h = cc h
caught again thrown a h = cc h
caught again out_of_fuel a h = cc h

module _ (l : Engine) where
  -- The contents are the same.
  abbrev pub SameContents : l.Db → l.Db → Type 0
  SameContents db db' = (l.pairs db' ≡ l.pairs db) × ((d : Dbi) → l.records d db' ≡ l.records d db)

  pub Represents-moved :
      (st : LmdbStore l) (s : Store) (size : ℕ) (db : l.Db)
      → SameContents st.db db
      → Represents l st s
      → Represents l (record st { map_size = size; db = db }) s
  Represents-moved st s size db (pairs, same) r = record {
    events = same Dbi.events ∙ r.events;
    event_index = same Dbi.event_index ∙ r.event_index;
    clock_events = same Dbi.clock_events ∙ r.clock_events;
    clock_index = same Dbi.clock_index ∙ r.clock_index;
    referencing = λ h q b. rw pairs (r.referencing h q b);
    neighbors = same Dbi.neighbors ∙ r.neighbors;
    routes = same Dbi.routes ∙ r.routes;
    timed_routes = same Dbi.timed_routes ∙ r.timed_routes;
    next_event_seq = r.next_event_seq;
    next_clock_seq = r.next_clock_seq;
    chain_tip_seq = r.chain_tip_seq;
    chain_seqs = r.chain_seqs;
  }

  grow_map-Represents :
      (st st' : LmdbStore l) (s : Store)
      → grow_map l st ≡ returned st'
      → Represents l st s
      → Represents l st' s
  unfolding grow_map
  grow_map-Represents st st' s h r = elim (Option-cases (grown_size st.word st.map_size)) [
    | inl top ↦ cc (rw (grow_map, top) at h)
    | inr (size, next) ↦
        let (db, set, ends) = bind-returned _ _ st' (rw (grow_map, next) at h) in
        let moved = l.set_mapsize_law size st.db db (check-returned _ db set) in
        let same : record st { map_size = size; db = db } ≡ st' = cc ends in
        subst (λ t. Represents l t s) same (Represents-moved st s size db moved r)
  ]

  -- What a durable write returns is what one of its rounds returned, from a store that holds the same.
  pub durable-round {ℓ} :
      {A : Type ℓ} (op : Batch l → Try (A × Batch l)) (s : Store) (fuel : ℕ) (st : LmdbStore l)
      (r : A × LmdbStore l)
      → Represents l st s
      → durable l fuel op st ≡ returned r
      → (t : LmdbStore l) × (Represents l t s) × (attempt l op t ≡ returned r)
  unfolding durable
  durable-round op s zero st r p h = cc h
  durable-round op s (suc k) st r p h =
      elim (caught (grow_map l st >>= durable l k op) (attempt l op st) r h) [
        | inl own ↦ (st, p, own)
        | inr later ↦
            let (t, grew, rest) = bind-returned (grow_map l st) (durable l k op) r later in
            durable-round op s k t r (grow_map-Represents st t s grew p) rest
      ]

  -- The parts of a round that returned.
  pub attempt-parts {ℓ} :
      {A : Type ℓ} (op : Batch l → Try (A × Batch l)) (st : LmdbStore l) (r : A × LmdbStore l)
      → attempt l op st ≡ returned r
      → (b : Batch l) × (db : l.Db) × (op (begin l st) ≡ returned (r.0, b))
        × (l.commit b.txn ≡ success db)
        × (commit_batch l b st ≡ returned r.1)
  unfolding attempt commit_batch
  attempt-parts {A = A} op st r h =
      let ((a, b), wrote, rest) = bind-returned (op (begin l st)) _ r h in
      let (st', done, ends) = bind-returned (commit_batch l b st) _ r rest in
      let (db, kept, more) = bind-returned (check_write (l.commit b.txn)) _ st' done in
      let same : ◌≡◌ {A = A × LmdbStore l} (a, st') r = cc ends in
      (
        b,
        db,
        wrote ∙ ap (λ (x : A × LmdbStore l). returned (x.0, b)) same,
        check_write-returned (l.commit b.txn) db kept,
        done ∙ ap (λ (x : A × LmdbStore l). returned x.1) same,
      )
