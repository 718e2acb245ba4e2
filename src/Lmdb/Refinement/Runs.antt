-- ===== src/Lmdb/Refinement/Runs.antt =====
-- src/core/ports/store.hpp: the writes of the port, as the node makes them, on both stores.
use mathlib.Core.Path.{subst}
use loti.Base.{ℕ, ◌+◌, ◌^◌, ◌<◌, ◌≡◌, ap, List, [], ◌∷◌, none, some, length, All}
use loti.Base.Table.{lookup}
use loti.Base.Key.{bytes_key, nat_key}
use loti.Domain.{NodeId, Event, LocalClockEvent, Neighbor, TimedRouteTable}
use loti.Base.Ordered.{IsIncreasing}
use loti.Store
use loti.Store.{Store}
use loti.Store.Lookups.{IsNumbered}
use loti.Lmdb.Engine.{
  Dbi, success, Try, returned, map_full, store_full, thrown, out_of_fuel, ◌>>=◌, IsKey, Engine,
}
use loti.Lmdb.State
use loti.Lmdb.State.{LmdbStore}
use loti.Lmdb.Batch
use loti.Lmdb.Prune
use loti.Lmdb.Refinement.{Represents, IsCounted, IsSeq}
use loti.Lmdb.Refinement.Writes.{bind-returned}
use loti.Lmdb.Refinement.Events.{append_event-Represents}
use loti.Lmdb.Refinement.Clocks.{append_clock_event-Represents}
use loti.Lmdb.Refinement.Overlay.{
  put_neighbor-Represents, put_route-Represents, update_clock_event-Represents,
}
use loti.Lmdb.Refinement.Timed.{put_timed_routes-Represents}
use loti.Lmdb.Refinement.Pruning.{InRange}
use loti.Lmdb.Refinement.Chains.{prune_chain-Represents}
use loti.Lmdb.Refinement.Reset.{reset-Represents}

-- The writes of the Store port, and clear, which empties the store.
pub data Write : Type 0 where
  append_event : Event → Write
  append_clock_event : LocalClockEvent → Write
  update_clock_event : LocalClockEvent → Write
  put_neighbor : Neighbor → Write
  put_route : NodeId → NodeId → Write
  put_timed_routes : TimedRouteTable → Write
  prune_chain : ℕ → ℕ → Write
  clear : Write

-- On the store in memory.
unfoldable pub in_memory : Write → Store → Store
in_memory (append_event e) s = (Store.append_event e s).1
in_memory (append_clock_event c) s = (Store.append_clock_event c s).1
in_memory (update_clock_event c) s = Store.update_clock_event c s
in_memory (put_neighbor n) s = Store.put_neighbor n s
in_memory (put_route destination next_hop) s = Store.put_route destination next_hop s
in_memory (put_timed_routes t) s = Store.put_timed_routes t s
in_memory (prune_chain chain keep) s = Store.prune_chain chain keep s
in_memory clear s = Store.clear s

-- What a write needs of the store in memory: hashes that are new where they are appended, and a key of LMDB
-- where they are looked up; numbers that fit eight bytes, and were all handed out where a clock event is
-- appended; the fields of what is pruned in their ranges; and destinations in the order of a std::map.
unfoldable pub Fits : Write → Store → Type 0
Fits (append_event e) s = (length s.events + 1 < 2 ^ 64) × (lookup e.hash s.event_seq ≡ none)
Fits (append_clock_event c) s =
    IsNumbered s
    × IsCounted s
    × (s.next_clock_seq + 1 < 2 ^ 64)
    × (lookup c.hash s.clock_seq ≡ none)
Fits (update_clock_event c) s =
    IsCounted s × IsKey c.hash × ((q : ℕ) → lookup c.hash s.clock_seq ≡ some q → IsSeq q)
Fits (put_neighbor n) s = Unit {0}
Fits (put_route destination next_hop) s = Unit {0}
Fits (put_timed_routes t) s = IsIncreasing t
Fits (prune_chain chain keep) s =
    IsCounted s
    × InRange s
    × ((seqs : List ℕ) → lookup chain s.chain_seqs ≡ some seqs → All IsSeq seqs)
Fits clear s = Unit {0}

unfoldable pub run_in_memory : List Write → Store → Store
unfolding in_memory
run_in_memory [] s = s
run_in_memory (w ∷ ws) s = run_in_memory ws (in_memory w s)

-- Every write of the run has what it needs, in the store in memory that it finds.
unfoldable pub AllFit : List Write → Store → Type 0
unfolding Fits in_memory
AllFit [] s = Unit {0}
AllFit (w ∷ ws) s = Fits w s × AllFit ws (in_memory w s)

-- What a write returns besides the store is dropped.
kept_store {ℓ κ} :
    {A : Type ℓ} {S : Type κ} (m : Try (A × S)) (s : S)
    → (m >>= λ r. returned r.1) ≡ returned s
    → (a : A) × (m ≡ returned (a, s))
kept_store (returned (a, t)) s h = let same : t ≡ s = cc h in (a, ap (λ x. returned (a, x)) same)
kept_store map_full s h = cc h
kept_store store_full s h = cc h
kept_store thrown s h = cc h
kept_store out_of_fuel s h = cc h

module _ (l : Engine) where
  -- On the persistent store, with fuel for the rounds of each write; sequence numbers are dropped.
  unfoldable pub on_disk : ℕ → Write → LmdbStore l → Try (LmdbStore l)
  on_disk fuel (append_event e) st = Batch.append_event l fuel e st >>= λ r. returned r.1
  on_disk fuel (append_clock_event c) st =
      Batch.append_clock_event l fuel c st >>= λ r. returned r.1
  on_disk fuel (update_clock_event c) st =
      Batch.update_clock_event l fuel c st >>= λ r. returned r.1
  on_disk fuel (put_neighbor n) st = Batch.put_neighbor l fuel n st >>= λ r. returned r.1
  on_disk fuel (put_route destination next_hop) st =
      Batch.put_route l fuel destination next_hop st >>= λ r. returned r.1
  on_disk fuel (put_timed_routes t) st = Batch.put_timed_routes l t st
  on_disk fuel (prune_chain chain keep) st = Prune.prune_chain l chain keep st
  on_disk fuel clear st = State.reset l st

  unfoldable pub run_on_disk : ℕ → List Write → LmdbStore l → Try (LmdbStore l)
  unfolding on_disk
  run_on_disk fuel [] st = returned st
  run_on_disk fuel (w ∷ ws) st = on_disk fuel w st >>= run_on_disk fuel ws

  -- A write that replaces the table of timed routes does not look at whether emptying it succeeds: here it
  -- does.
  unfoldable pub Empties : Write → LmdbStore l → Type 0
  Empties (put_timed_routes t) st = (db : l.Db) × (l.drop Dbi.timed_routes st.db ≡ success db)
  Empties _ st = Unit {0}

  -- At each write of the run, on the persistent store that it finds.
  unfoldable pub AllEmpty : ℕ → List Write → LmdbStore l → Type 0
  unfolding Empties on_disk
  AllEmpty fuel [] st = Unit {0}
  AllEmpty fuel (w ∷ ws) st =
      Empties w st × ((st' : LmdbStore l) → on_disk fuel w st ≡ returned st' → AllEmpty fuel ws st')

  on_disk-Represents :
      (fuel : ℕ) (w : Write) (st st' : LmdbStore l) (s : Store)
      → Represents l st s
      → Fits w s
      → Empties w st
      → on_disk fuel w st ≡ returned st'
      → Represents l st' (in_memory w s)
  unfolding on_disk in_memory Fits Empties
  on_disk-Represents fuel (append_event e) st st' s r fits em h =
      let (q, wrote) = kept_store (Batch.append_event l fuel e st) st' h in
      (append_event-Represents l fuel e st st' s q r fits.0 fits.1 wrote).1
  on_disk-Represents fuel (append_clock_event c) st st' s r fits em h =
      let (q, wrote) = kept_store (Batch.append_clock_event l fuel c st) st' h in
      (append_clock_event-Represents l fuel c st st' s q r fits.0 fits.1 fits.2 fits.3 wrote).1
  on_disk-Represents fuel (update_clock_event c) st st' s r fits em h =
      let (u, wrote) = kept_store (Batch.update_clock_event l fuel c st) st' h in
      update_clock_event-Represents l fuel c st st' s r fits.0 fits.1 fits.2 wrote
  on_disk-Represents fuel (put_neighbor n) st st' s r fits em h =
      let (u, wrote) = kept_store (Batch.put_neighbor l fuel n st) st' h in
      put_neighbor-Represents l fuel n st st' s r wrote
  on_disk-Represents fuel (put_route destination next_hop) st st' s r fits em h =
      let (u, wrote) = kept_store (Batch.put_route l fuel destination next_hop st) st' h in
      put_route-Represents l fuel destination next_hop st st' s r wrote
  on_disk-Represents fuel (put_timed_routes t) st st' s r fits em h =
      put_timed_routes-Represents l t st st' s r fits em h
  on_disk-Represents fuel (prune_chain chain keep) st st' s r fits em h =
      prune_chain-Represents l chain keep st st' s r fits.0 fits.1 fits.2 h
  on_disk-Represents fuel clear st st' s r fits em h = reset-Represents l st st' s h

  -- A persistent store and one in memory that hold the same hold the same after any run of the port's writes
  -- and of `clear`, if the persistent one comes to its end without an exception and each write has what it
  -- needs where it is made: a hash that is new where something is appended, sequence numbers that were all
  -- handed out where a clock event is, numbers that fit eight bytes, a hash that LMDB takes as a key where a
  -- clock event is updated, the clock events in range where a chain is pruned, and, where the timed routes
  -- are replaced, destinations in increasing order and an LMDB that can empty the old ones.
  pub run-Represents :
      (fuel : ℕ) (ws : List Write) (st st' : LmdbStore l) (s : Store)
      → Represents l st s
      → AllFit ws s
      → AllEmpty fuel ws st
      → run_on_disk fuel ws st ≡ returned st'
      → Represents l st' (run_in_memory ws s)
  unfolding run_on_disk run_in_memory AllFit AllEmpty
  run-Represents fuel [] st st' s r fits em h =
      let same : st ≡ st' = cc h in subst (λ (x : LmdbStore l). Represents l x s) same r
  run-Represents fuel (w ∷ ws) st st' s r fits em h =
      let (t, first, rest) = bind-returned (on_disk fuel w st) _ st' h in
      run-Represents fuel ws t st' (in_memory w s)
        (on_disk-Represents fuel w st t s r fits.0 em.0 first) fits.1 (em.1 t first) rest
