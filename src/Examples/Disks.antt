-- ===== src/Examples/Disks.antt =====
-- The persistent store at concrete data, over an engine that keeps its tables in memory and finds its map
-- full while the map has less than four bytes.
use mathlib.Core.Path.{subst}
use loti.Base.{ℕ, ◌≡◌, ◌≢◌, ◌≤◌, refl, sym, ap, arith, false, [], ltb, if◌then◌else◌}
use loti.Base.{Bool-cases, Option-cases, inl, inr, ◌⊎◌}
use loti.Base.Key.{bytes_key, pair_key, nat_key}
use loti.Base.Table.{Table, lookup, insert, erase}
use loti.Domain.{Bytes}
use loti.Lmdb.Engine.{
  Dbi, dbi_eq, Code, success, not_found, full, Try, returned, map_full, out_of_fuel, check,
  check_write, of_option, under, Engine,
}
use loti.Lmdb.State.{LmdbStore, grow_map, grown_size}
use loti.Lmdb.Batch.{Batch, begin, attempt, durable, commit_batch, track_all, batch_put_route}
use loti.Lmdb.Growth.{Writes, Grown, unchanged, grew_to, durable-ends, durable-returns}
use loti.Examples.{me, peer}

pub record Disk : Type 0 where
  pub tables : Dbi → Table Bytes Bytes
  pub dups : Table (Bytes × Bytes) (Unit {0})
  pub size : ℕ

abbrev pub with_table : Dbi → Table Bytes Bytes → Disk → Disk
with_table d t x = record x { tables = λ d'. if dbi_eq d d' then t else x.tables d' }

abbrev pub roomy : Disk → Disk → Code Disk
roomy x y = if ltb x.size 4 then full else success y

pub roomy-success : (x y z : Disk) → roomy x y ≡ success z → y ≡ z
roomy-success x y z h = elim (Bool-cases (ltb x.size 4)) [
  | inl small ↦ cc (rw small at h)
  | inr room ↦ cc (rw room at h)
]

pub put_table-law :
    (d : Dbi) (t : Table Bytes Bytes) (x y : Disk)
    → with_table d t x ≡ y
    → (y.dups ≡ x.dups) × ((d' : Dbi) → y.tables d' ≡ (if dbi_eq d d' then t else x.tables d'))
put_table-law d t x y h =
    subst
      (λ (z : Disk).
        (z.dups ≡ x.dups) × ((d' : Dbi) → z.tables d' ≡ (if dbi_eq d d' then t else x.tables d')))
      h (refl, λ d'. refl)

pub put_pairs-law :
    (t : Table (Bytes × Bytes) (Unit {0})) (x y : Disk)
    → ◌≡◌ {A = Disk} (record x { dups = t }) y
    → (y.dups ≡ t) × ((d : Dbi) → y.tables d ≡ x.tables d)
put_pairs-law t x y h =
    subst (λ (z : Disk). (z.dups ≡ t) × ((d : Dbi) → z.tables d ≡ x.tables d)) h (refl, λ d. refl)

pub same_contents : (x y : Disk) → x ≡ y → (y.dups ≡ x.dups) × ((d : Dbi) → y.tables d ≡ x.tables d)
same_contents x y e =
    (ap (λ (z : Disk). z.dups) (sym e), λ d. ap (λ (z : Disk). z.tables d) (sym e))

pub same_success : {x y : Disk} → success x ≡ success y → x ≡ y
same_success h = cc h

pub not_absent : {x : Disk} → success x ≢ not_found
not_absent h = cc h

abbrev pub toy : Engine
toy = record {
  Db = Disk;
  get = λ d k x. of_option (lookup k (x.tables d));
  put = λ d k v x. roomy x (with_table d (insert k v (x.tables d)) x);
  del = λ d k x. success (with_table d (erase k (x.tables d)) x);
  drop = λ d x. success (with_table d [] x);
  put_dup = λ k v x. roomy x (record x { dups = insert (k, v) tt x.dups });
  del_dup = λ k v x. success (record x { dups = erase (k, v) x.dups });
  drop_dups = λ x. success (record x { dups = [] });
  commit = λ x. success x;
  set_mapsize = λ n x. success (record x { size = n });
  records = λ d x. x.tables d;
  pairs = λ x. x.dups;
  dups_of = λ k x. success (under k x.dups);
  get_law = λ d k x i. refl;
  put_law = λ d k v x y h. put_table-law d _ x y (roomy-success x _ y h);
  del_law = λ d k x y h. put_table-law d _ x y (same_success h);
  del_absent = λ d k x h. absurd (not_absent h);
  drop_law = λ d x y h. put_table-law d _ x y (same_success h);
  put_dup_law = λ k v x y h. put_pairs-law _ x y (roomy-success x _ y h);
  del_dup_law = λ k v x y h. put_pairs-law _ x y (same_success h);
  del_dup_absent = λ k v x h. absurd (not_absent h);
  drop_dups_law = λ x y h. put_pairs-law _ x y (same_success h);
  dups_law = λ k x i. refl;
  commit_law = λ x y h. same_contents x y (same_success h);
  set_mapsize_law = λ n x y h. same_contents (record x { size = n }) y (same_success h);
}

-- An empty store of a 64-bit machine, and one of a 32-bit machine, with a map of `size` bytes.
abbrev pub fresh : ℕ → ℕ → LmdbStore toy
fresh word size = record {
  word = word;
  map_size = size;
  db = record { tables = λ d. []; dups = []; size = size };
  next_event_seq = 0;
  next_clock_seq = 0;
  chain_tip_seq = [];
  chain_seqs = [];
}

abbrev route : Batch toy → Try (Unit {0} × Batch toy)
route = batch_put_route toy peer me

abbrev routed : LmdbStore toy → LmdbStore toy
routed t = record t { db = with_table Dbi.routes (insert peer me (t.db.tables Dbi.routes)) t.db }

-- A write finds the map full, or it is done.
route-either : (t : LmdbStore toy) → (attempt toy route t ≡ map_full) ⊎ Writes toy route t
unfolding attempt batch_put_route begin commit_batch track_all check_write
route-either t = elim (Bool-cases (ltb t.db.size 4)) [
  | inl small ↦ inl (rw (attempt, batch_put_route, small) refl)
  | inr room ↦ inr ((tt, routed t), rw (attempt, batch_put_route, room) refl)
]

durable-ends_example : durable toy 32 route (fresh 4 1) ≢ out_of_fuel
durable-ends_example = durable-ends toy route (fresh 4 1) not_out refl (omega arith)
  where
    not_out : (t : LmdbStore toy) → attempt toy route t ≢ out_of_fuel
    not_out t h = elim (route-either t) [
      | inl small ↦ cc (small, h)
      | inr (r, wrote) ↦ cc (wrote, h)
    ]

not_full : (t : LmdbStore toy) → 4 ≤ t.db.size → attempt toy route t ≢ map_full
unfolding attempt batch_put_route begin commit_batch track_all check_write
not_full t room small =
    let roomy_now : ltb t.db.size 4 ≡ false = ground (arith, room) in
    cc (rw (attempt, batch_put_route, roomy_now) at small)

-- The size of the map is the one that the store notes, in whatever the store becomes as it grows.
noted : (s t : LmdbStore toy) → Grown toy s t → s.db.size ≡ s.map_size → t.db.size ≡ t.map_size
unfolding grow_map grown_size check
noted s _ (unchanged _) e = e
noted s x (grew_to _ t _ h g) e = noted t x g (elim (Option-cases (grown_size s.word s.map_size)) [
  | inl top ↦ cc (rw (grow_map, top) at h)
  | inr (n, next) ↦
      let h' = rw (grow_map, next) at h in
      let grown : LmdbStore toy = record s { map_size = n; db = record (s.db) { size = n } } in
      let same : grown ≡ t = cc h' in
      subst (λ (z : LmdbStore toy). z.db.size ≡ z.map_size) same refl
])

durable-returns_example :
    (r : Unit {0} × LmdbStore toy) × (durable toy 3 route (fresh 8 1) ≡ returned r)
durable-returns_example =
    durable-returns toy route 4 2 (fresh 8 1) (λ t g. route-either t) fits
      (λ n x. (record x { size = n }, refl)) refl (omega arith) (omega arith)
  where
    fits : (t : LmdbStore toy) → Grown toy (fresh 8 1) t → 4 ≤ t.map_size → Writes toy route t
    fits t g room = elim (route-either t) [
      | inr done ↦ done
      | inl small ↦ absurd (not_full t (omega (arith, noted (fresh 8 1) t g refl, room)) small)
    ]
