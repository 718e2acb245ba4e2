-- ===== src/Lmdb/Refinement/Reset.antt =====
-- src/adapters/os/lmdb_store.cpp against src/adapters/sim/in_memory_store.hpp: the emptying of the
-- store.
use mathlib.Core.Path.{subst}
use loti.Base.{◌≡◌, refl, ◌∙◌}
use loti.Base.{[]}
use loti.Base.Table.{lookup}
use loti.Base.Key.{bytes_key, nat_key, pair_key}
use loti.Store
use loti.Store.{Store}
use loti.Lmdb.Engine.{Dbi, returned, check, Engine}
use loti.Lmdb.State.{LmdbStore, reset}
use loti.Lmdb.Keys.{encoded}
use loti.Lmdb.Refinement.{Represents, number, has_pair}
use loti.Lmdb.Refinement.Writes.{bind-returned, check-returned}

module _ (l : Engine) where
  -- An emptied store holds what the cleared one in memory holds.
  pub reset-Represents :
      (st st' : LmdbStore l) (s : Store)
      → reset l st ≡ returned st'
      → Represents l st' (Store.clear s)
  unfolding reset Store.clear has_pair encoded number lookup
  reset-Represents st st' s h =
      let (d1, h1, k1) = bind-returned (check (l.drop Dbi.events st.db)) _ st' h in
      let (d2, h2, k2) = bind-returned (check (l.drop Dbi.event_index d1)) _ st' k1 in
      let (d3, h3, k3) = bind-returned (check (l.drop Dbi.clock_events d2)) _ st' k2 in
      let (d4, h4, k4) = bind-returned (check (l.drop Dbi.clock_index d3)) _ st' k3 in
      let (d5, h5, k5) = bind-returned (check (l.drop_dups d4)) _ st' k4 in
      let (d6, h6, k6) = bind-returned (check (l.drop Dbi.neighbors d5)) _ st' k5 in
      let (d7, h7, k7) = bind-returned (check (l.drop Dbi.routes d6)) _ st' k6 in
      let (d8, h8, k8) = bind-returned (check (l.drop Dbi.timed_routes d7)) _ st' k7 in
      let (d9, h9, k9) = bind-returned (check (l.commit d8)) _ st' k8 in
      let w1 = (l.drop_law Dbi.events st.db d1 (check-returned _ d1 h1)).1 in
      let w2 = (l.drop_law Dbi.event_index d1 d2 (check-returned _ d2 h2)).1 in
      let w3 = (l.drop_law Dbi.clock_events d2 d3 (check-returned _ d3 h3)).1 in
      let w4 = (l.drop_law Dbi.clock_index d3 d4 (check-returned _ d4 h4)).1 in
      let w5 = l.drop_dups_law d4 d5 (check-returned _ d5 h5) in
      let w6 = l.drop_law Dbi.neighbors d5 d6 (check-returned _ d6 h6) in
      let w7 = l.drop_law Dbi.routes d6 d7 (check-returned _ d7 h7) in
      let w8 = l.drop_law Dbi.timed_routes d7 d8 (check-returned _ d8 h8) in
      let w9 = l.commit_law d8 d9 (check-returned _ d9 h9) in
      let pairs : l.pairs d9 ≡ [] = w9.0 ∙ w8.0 ∙ w7.0 ∙ w6.0 ∙ w5.0 in
      let st9 : LmdbStore l = record st {
        db = d9;
        next_event_seq = 0;
        next_clock_seq = 0;
        chain_tip_seq = [];
        chain_seqs = [];
      } in
      let left : st9 ≡ st' = cc k9 in
      subst (λ x. Represents l x (Store.clear s)) left
        (record {
          events =
              w9.1 Dbi.events
              ∙ w8.1 Dbi.events
              ∙ w7.1 Dbi.events
              ∙ w6.1 Dbi.events
              ∙ w5.1 Dbi.events
              ∙ w4 Dbi.events
              ∙ w3 Dbi.events
              ∙ w2 Dbi.events
              ∙ w1 Dbi.events;
          event_index =
              w9.1 Dbi.event_index
              ∙ w8.1 Dbi.event_index
              ∙ w7.1 Dbi.event_index
              ∙ w6.1 Dbi.event_index
              ∙ w5.1 Dbi.event_index
              ∙ w4 Dbi.event_index
              ∙ w3 Dbi.event_index
              ∙ w2 Dbi.event_index;
          clock_events =
              w9.1 Dbi.clock_events
              ∙ w8.1 Dbi.clock_events
              ∙ w7.1 Dbi.clock_events
              ∙ w6.1 Dbi.clock_events
              ∙ w5.1 Dbi.clock_events
              ∙ w4 Dbi.clock_events
              ∙ w3 Dbi.clock_events;
          clock_index =
              w9.1 Dbi.clock_index
              ∙ w8.1 Dbi.clock_index
              ∙ w7.1 Dbi.clock_index
              ∙ w6.1 Dbi.clock_index
              ∙ w5.1 Dbi.clock_index
              ∙ w4 Dbi.clock_index;
          referencing = λ x n i. rw pairs refl;
          neighbors =
              w9.1 Dbi.neighbors ∙ w8.1 Dbi.neighbors ∙ w7.1 Dbi.neighbors ∙ w6.1 Dbi.neighbors;
          routes = w9.1 Dbi.routes ∙ w8.1 Dbi.routes ∙ w7.1 Dbi.routes;
          timed_routes = w9.1 Dbi.timed_routes ∙ w8.1 Dbi.timed_routes;
          next_event_seq = refl;
          next_clock_seq = refl;
          chain_tip_seq = refl;
          chain_seqs = λ chain. refl;
        })
