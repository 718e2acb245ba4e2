-- ===== src/Lmdb/Refinement/Timed.antt =====
-- src/adapters/os/lmdb_store.cpp against src/adapters/sim/in_memory_store.hpp: the table of timed routes,
-- which a write replaces as a whole.
use mathlib.Core.Path.{subst}
use loti.Base.{ℕ, ◌≡◌, refl, sym, ap, ◌∙◌, [], ◌∷◌, ◌++◌, append_assoc, append-nil, false, List}
use loti.Base.Table.{Table, insert}
use loti.Base.Key.{bytes_key}
use loti.Base.Ordered.{IsIncreasing, insert_last, IsIncreasing-before}
use loti.Domain.{TimedRouteTable}
use loti.Store
use loti.Store.{Store}
use loti.Lmdb.Engine.{Dbi, dbi_eq, success, returned, check_write, Engine}
use loti.Lmdb.Records.{put_timed_route_list}
use loti.Lmdb.State.{LmdbStore}
use loti.Lmdb.Batch
use loti.Lmdb.Batch.{rewrite_routes, ignoring}
use loti.Lmdb.Keys.{encoded, encoded-insert}
use loti.Lmdb.Refinement.{Represents, IsOrdered-id, Keyed-Any, Any}
use loti.Lmdb.Refinement.Writes.{bind-returned, check_write-returned}

-- The records of a table of timed routes.
abbrev route_records : TimedRouteTable → Table (List ℕ) (List ℕ)
route_records = encoded (λ id. id) put_timed_route_list

module _ (l : Engine) where
  -- From `db` to `db'` only the table of timed routes changed, to `t`.
  record OnlyRoutes (t : TimedRouteTable) (db db' : l.Db) : Type 0 where
    pairs : l.pairs db' ≡ l.pairs db
    others : (d : Dbi) → dbi_eq Dbi.timed_routes d ≡ false → l.records d db' ≡ l.records d db
    routes : l.records Dbi.timed_routes db' ≡ route_records t

  -- Destinations that increase are added one behind the other.
  rewrite_routes-OnlyRoutes :
      (done t : TimedRouteTable) (db db' : l.Db)
      → l.records Dbi.timed_routes db ≡ route_records done
      → IsIncreasing (done ++ t)
      → rewrite_routes l t db ≡ returned db'
      → OnlyRoutes (done ++ t) db db'
  unfolding rewrite_routes
  rewrite_routes-OnlyRoutes done [] db db' r i h =
      let same : db ≡ db' = cc h in
      subst (λ x. OnlyRoutes (done ++ []) db x) same
        (record {
          pairs = refl;
          others = λ d o. refl;
          routes = r ∙ ap route_records (sym (append-nil done));
        })
  rewrite_routes-OnlyRoutes done ((dest, rs) ∷ t) db db' r i h =
      let (d1, h1, rest) =
        bind-returned (check_write (l.put Dbi.timed_routes dest (put_timed_route_list rs) db)) _ db'
          h in
      let law =
        l.put_law Dbi.timed_routes dest (put_timed_route_list rs) db d1
          (check_write-returned _ d1 h1) in
      let longer = append_assoc done ((dest, rs) ∷ []) t in
      let after : l.records Dbi.timed_routes d1 ≡ route_records (done ++ ((dest, rs) ∷ [])) =
        law.1 Dbi.timed_routes
        ∙ ap (insert dest (put_timed_route_list rs)) r
        ∙ sym (
            encoded-insert Any (λ id. id) put_timed_route_list dest rs done IsOrdered-id tt
              (Keyed-Any done))
        ∙ ap route_records (insert_last dest rs done (IsIncreasing-before done dest rs t i)) in
      let w =
        rewrite_routes-OnlyRoutes (done ++ ((dest, rs) ∷ [])) t d1 db' after
          (subst IsIncreasing (sym longer) i) rest in
      record {
        pairs = w.pairs ∙ law.0;
        others = λ d o. w.others d o ∙ law.1 d ∙ rw o refl;
        routes = w.routes ∙ ap route_records longer;
      }

  Represents-rerouted :
      (st : LmdbStore l) (s : Store) (t : TimedRouteTable) (db : l.Db)
      → Represents l st s
      → OnlyRoutes t st.db db
      → Represents l (record st { db = db }) (record s { timed_routes = t })
  Represents-rerouted st s t db r w = record {
    events = w.others Dbi.events refl ∙ r.events;
    event_index = w.others Dbi.event_index refl ∙ r.event_index;
    clock_events = w.others Dbi.clock_events refl ∙ r.clock_events;
    clock_index = w.others Dbi.clock_index refl ∙ r.clock_index;
    referencing = λ h q b. rw (w.pairs) (r.referencing h q b);
    neighbors = w.others Dbi.neighbors refl ∙ r.neighbors;
    routes = w.others Dbi.routes refl ∙ r.routes;
    timed_routes = w.routes;
    next_event_seq = r.next_event_seq;
    next_clock_seq = r.next_clock_seq;
    chain_tip_seq = r.chain_tip_seq;
    chain_seqs = r.chain_seqs;
  }

  -- A table that replaces the one that was there, where emptying that one succeeds.
  pub put_timed_routes-Represents :
      (t : TimedRouteTable) (st st' : LmdbStore l) (s : Store)
      → Represents l st s
      → IsIncreasing t
      → (db : l.Db) × (l.drop Dbi.timed_routes st.db ≡ success db)
      → Batch.put_timed_routes l t st ≡ returned st'
      → Represents l st' (Store.put_timed_routes t s)
  unfolding Batch.put_timed_routes Store.put_timed_routes ignoring encoded
  put_timed_routes-Represents t st st' s r i (db, emptied) h =
      let (d1, h1, rest) = bind-returned (rewrite_routes l t db) _ st' (rw emptied at h) in
      let (d2, h2, ends) = bind-returned (check_write (l.commit d1)) _ st' rest in
      let left : record st { db = d2 } ≡ st' = cc ends in
      let gone = l.drop_law Dbi.timed_routes st.db db emptied in
      let w = rewrite_routes-OnlyRoutes [] t db d1 (gone.1 Dbi.timed_routes) i h1 in
      let kept = l.commit_law d1 d2 (check_write-returned _ d2 h2) in
      subst (λ x. Represents l x (Store.put_timed_routes t s)) left
        (Represents-rerouted st s t d2 r (record {
          pairs = kept.0 ∙ w.pairs ∙ gone.0;
          others = λ d o. kept.1 d ∙ w.others d o ∙ gone.1 d ∙ rw o refl;
          routes = kept.1 Dbi.timed_routes ∙ w.routes;
        }))
