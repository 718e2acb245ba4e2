-- ===== src/Lmdb/Engine.antt =====
-- What src/adapters/os/lmdb_store.cpp uses of LMDB: transactions on named sub-databases, as functions
-- on their contents. A cursor that fails half way, and a transaction that cannot be begun, are not
-- modelled. The exceptions of the store are values of `Try`.
use loti.Base.{ℕ, ◌≤◌, ◌≡◌, Bool, true, false, List, [], ◌∷◌, Option, none, some, length}
use loti.Base.{if◌then◌else◌}
use loti.Base.Key.{bytes_eq, bytes_key, pair_key}
use loti.Base.Table.{Table, lookup, insert, erase}
use loti.Domain.{Bytes}

-- The named sub-databases; `referencing` (DUPSORT) has its own operations.
pub data Dbi : Type 0 where
  meta events event_index clock_events clock_index neighbors routes timed_routes : Dbi

abbrev pub dbi_eq : Dbi → Dbi → Bool
dbi_eq meta meta = true
dbi_eq events events = true
dbi_eq event_index event_index = true
dbi_eq clock_events clock_events = true
dbi_eq clock_index clock_index = true
dbi_eq neighbors neighbors = true
dbi_eq routes routes = true
dbi_eq timed_routes timed_routes = true
dbi_eq _ _ = false

-- MDB_SUCCESS, MDB_NOTFOUND, MDB_MAP_FULL, and every other code.
pub data Code {ℓ} (A : Type ℓ) : Type ℓ where
  success : A → Code A
  not_found full failed : Code A

-- LmdbMapFull, LmdbStoreFull, std::runtime_error; and a loop that the model has not followed to its end.
pub data Try {ℓ} (A : Type ℓ) : Type ℓ where
  returned : A → Try A
  map_full store_full thrown out_of_fuel : Try A

infixl 5 ◌>>=◌
abbrev pub ◌>>=◌ {ℓ κ} : {A : Type ℓ} {B : Type κ} → Try A → (A → Try B) → Try B
returned a >>= f = f a
map_full >>= f = map_full
store_full >>= f = store_full
thrown >>= f = thrown
out_of_fuel >>= f = out_of_fuel

-- `check`: every code but success throws.
unfoldable pub check {ℓ} : {A : Type ℓ} → Code A → Try A
check (success a) = returned a
check not_found = thrown
check full = thrown
check failed = thrown

-- `check_write`: a full map is an exception of its own.
unfoldable pub check_write {ℓ} : {A : Type ℓ} → Code A → Try A
check_write (success a) = returned a
check_write not_found = thrown
check_write full = map_full
check_write failed = thrown

-- `mdb_get`: what is there, or that there is none, or an exception.
unfoldable pub found {ℓ} : {A : Type ℓ} → Code A → Try (Option A)
found (success a) = returned (some a)
found not_found = returned none
found full = thrown
found failed = thrown

-- A delete of what may be gone already: MDB_NOTFOUND leaves the contents as they are.
unfoldable pub tolerate {ℓ} : {A : Type ℓ} → A → Code A → Try A
tolerate old (success a) = returned a
tolerate old not_found = returned old
tolerate old full = thrown
tolerate old failed = thrown

abbrev pub of_option {ℓ} : {A : Type ℓ} → Option A → Code A
of_option none = not_found
of_option (some a) = success a

-- A key of LMDB has at least one byte and at most 511.
pub record IsKey (k : Bytes) : Type 0 where
  pub some_byte : 1 ≤ length k
  pub short : length k ≤ 511

-- The values under a key, in their order.
unfoldable pub under : Bytes → Table (Bytes × Bytes) (Unit {0}) → List Bytes
under k [] = []
under k (((a, v), u) ∷ ps) = let rest = under k ps in if bytes_eq a k then v ∷ rest else rest

-- `Db` is the contents that a transaction sees. The laws are LMDB's documented behaviour: a sub-database
-- is a map in the order of its keys' bytes, a DUPSORT one an ordered set of pairs; a commit and a change
-- of the map's size keep the contents; only a write can find the map full.
pub record Engine : Type 1 where
  pub Db : Type 0
  pub get : Dbi → Bytes → Db → Code Bytes
  pub put : Dbi → Bytes → Bytes → Db → Code Db
  pub del : Dbi → Bytes → Db → Code Db
  pub drop : Dbi → Db → Code Db
  pub put_dup : Bytes → Bytes → Db → Code Db
  pub del_dup : Bytes → Bytes → Db → Code Db
  pub drop_dups : Db → Code Db
  pub commit : Db → Code Db
  pub set_mapsize : ℕ → Db → Code Db
  pub records : Dbi → Db → Table Bytes Bytes
  pub pairs : Db → Table (Bytes × Bytes) (Unit {0})
  pub dups_of : Bytes → Db → Code (List Bytes)
  pub get_law :
      (d : Dbi) (k : Bytes) (db : Db) → IsKey k → get d k db ≡ of_option (lookup k (records d db))
  pub put_law :
      (d : Dbi) (k v : Bytes) (db db' : Db)
      → put d k v db ≡ success db'
      → (pairs db' ≡ pairs db)
        × ((d' : Dbi)
            → records d' db' ≡ (if dbi_eq d d' then insert k v (records d db) else records d' db))
  pub del_law :
      (d : Dbi) (k : Bytes) (db db' : Db)
      → del d k db ≡ success db'
      → (pairs db' ≡ pairs db)
        × ((d' : Dbi)
            → records d' db' ≡ (if dbi_eq d d' then erase k (records d db) else records d' db))
  pub del_absent :
      (d : Dbi) (k : Bytes) (db : Db)
      → del d k db ≡ not_found
      → erase k (records d db) ≡ records d db
  pub drop_law :
      (d : Dbi) (db db' : Db)
      → drop d db ≡ success db'
      → (pairs db' ≡ pairs db)
        × ((d' : Dbi) → records d' db' ≡ (if dbi_eq d d' then [] else records d' db))
  pub put_dup_law :
      (k v : Bytes) (db db' : Db)
      → put_dup k v db ≡ success db'
      → (pairs db' ≡ insert (k, v) tt (pairs db)) × ((d : Dbi) → records d db' ≡ records d db)
  pub del_dup_law :
      (k v : Bytes) (db db' : Db)
      → del_dup k v db ≡ success db'
      → (pairs db' ≡ erase (k, v) (pairs db)) × ((d : Dbi) → records d db' ≡ records d db)
  pub del_dup_absent :
      (k v : Bytes) (db : Db) → del_dup k v db ≡ not_found → erase (k, v) (pairs db) ≡ pairs db
  pub drop_dups_law :
      (db db' : Db)
      → drop_dups db ≡ success db'
      → (pairs db' ≡ []) × ((d : Dbi) → records d db' ≡ records d db)
  pub dups_law : (k : Bytes) (db : Db) → IsKey k → dups_of k db ≡ success (under k (pairs db))
  pub commit_law :
      (db db' : Db)
      → commit db ≡ success db'
      → (pairs db' ≡ pairs db) × ((d : Dbi) → records d db' ≡ records d db)
  pub set_mapsize_law :
      (size : ℕ) (db db' : Db)
      → set_mapsize size db ≡ success db'
      → (pairs db' ≡ pairs db) × ((d : Dbi) → records d db' ≡ records d db)
