-- ===== src/Examples/Replays.antt =====
-- A run of writes on an empty persistent store and on an empty one in memory.
use mathlib.Core.Path.{subst}
use loti.Base.{
  ℕ, zero, suc, Bool, true, false, Option, get_elem?, ap, sym, ◌∙◌, ◌≡◌, refl, arith, List, [], ◌∷◌,
  none, some, All, Bool-cases, inl, inr, nat_eq, if◌then◌else◌,
}
use loti.Base.Key.{bytes_key, nat_key, bytes_eq, bytes_lt}
use loti.Base.Ordered.{IsIncreasing}
use loti.Base.Table.{lookup, insert, emplace}
use loti.Domain.{Event, LocalClockEvent, TimedRouteTable}
use loti.Examples.Codecs.{the_event-IsEvent}
use loti.Domain.Ranges.{IsEvent}
use loti.Node.Snapshot.RoundTrip.{IsLocalClockEvent}
use loti.Store
use loti.Store.{Store}
use loti.Store.Lookups.{IsNumbered}
use loti.Lmdb.Engine.{Try, returned, IsKey, check_write, found}
use loti.Lmdb.Batch
use loti.Lmdb.Prune
use loti.Lmdb.State.{LmdbStore}
use loti.Lmdb.Keys.{encoded}
use loti.Lmdb.Refinement.{Represents, IsCounted, number, has_pair, IsSeq}
use loti.Lmdb.Refinement.Pruning.{InRange}
use loti.Lmdb.Refinement.Lookups.{Agrees, IsLinked, Represents-Agrees}
use loti.Lmdb.Refinement.Runs
use loti.Lmdb.Refinement.Runs.{
  Write, Fits, AllFit, Empties, AllEmpty, in_memory, run_in_memory, on_disk, run_on_disk,
  run-Represents,
}
use loti.Examples.{the_event, first_tick, local, peer_entry, peer, far}
use loti.Examples.Hops.{by_peer}
use loti.Examples.Disks.{toy, fresh}

abbrev the_routes : TimedRouteTable
the_routes = (peer, by_peer ∷ []) ∷ (far, by_peer ∷ []) ∷ []

abbrev writes : List Write
writes =
    Runs.append_event the_event
    ∷ Runs.append_clock_event (local first_tick)
    ∷ Runs.update_clock_event (local first_tick)
    ∷ Runs.put_neighbor peer_entry
    ∷ Runs.put_route far peer
    ∷ Runs.put_timed_routes the_routes
    ∷ Runs.prune_chain 0 2
    ∷ []

fresh-Represents : Represents toy (fresh 8 4) Store.empty
unfolding encoded number has_pair lookup
fresh-Represents = record {
  events = refl;
  event_index = refl;
  clock_events = refl;
  clock_index = refl;
  referencing = λ h q i. refl;
  neighbors = refl;
  routes = refl;
  timed_routes = refl;
  next_event_seq = refl;
  next_clock_seq = refl;
  chain_tip_seq = refl;
  chain_seqs = λ chain. refl;
}

-- The store in memory after the event, and after all writes.
abbrev logged : Store
logged = record (Store.empty) { events = the_event ∷ []; event_seq = (26 ∷ [], 0) ∷ [] }

abbrev clocked : Store
clocked = record logged {
  clock_events = (0, local first_tick) ∷ [];
  next_clock_seq = 1;
  clock_seq = (24 ∷ [], 0) ∷ [];
  chain_tip_seq = (0, 0) ∷ [];
  chain_seqs = (0, 0 ∷ []) ∷ [];
}

abbrev replayed : Store
replayed = record clocked {
  neighbors = (peer, peer_entry) ∷ [];
  routes = (far, peer) ∷ [];
  timed_routes = the_routes;
}

ticked-IsLocalClockEvent : IsLocalClockEvent (local first_tick)
ticked-IsLocalClockEvent = record {
  base = record {
    creator = refl;
    hash = omega arith;
    chain = omega arith;
    timestamp = ground arith;
    salt = omega arith;
    referenced_events = record { short = omega arith; each = tt };
    signature = omega arith;
  };
  referencing_events = record { short = omega arith; each = tt };
}

logged-IsNumbered : IsNumbered logged
unfolding lookup
logged-IsNumbered = record {
  live = λ seq c h. cc h;
  named = λ x seq h. cc h;
  tips = λ chain seq h. cc h;
}

clocked-IsCounted : IsCounted clocked
clocked-IsCounted = record { events = omega arith; next = omega arith; keys = (omega arith, tt) }

replayed-IsCounted : IsCounted replayed
replayed-IsCounted = record { events = omega arith; next = omega arith; keys = (omega arith, tt) }

replayed-InRange : InRange replayed
unfolding lookup
replayed-InRange = record {
  at = λ q c h. elim (Bool-cases (nat_eq 0 q)) [
    | inl same ↦
        let e : local first_tick ≡ c = cc (rw same at h) in
        subst (λ (x : LocalClockEvent). IsLocalClockEvent x) e ticked-IsLocalClockEvent
    | inr other ↦ cc (rw other at h)
  ];
}

tick_hash-IsKey : IsKey (24 ∷ [])
tick_hash-IsKey = record { some_byte = omega arith; short = omega arith }

only_zero : (seqs : List ℕ) → 0 ∷ [] ≡ seqs → All IsSeq seqs
only_zero seqs e = subst (λ (x : List ℕ). All IsSeq x) e (omega arith, tt)

the_routes-IsIncreasing : IsIncreasing the_routes
unfolding bytes_lt
the_routes-IsIncreasing = ((refl, tt), (tt, tt))

writes-AllFit : AllFit writes Store.empty
unfolding AllFit Fits in_memory lookup insert emplace bytes_eq Store.append_event
    Store.append_clock_event Store.update_clock_event Store.put_neighbor Store.put_route
    Store.put_timed_routes bytes_lt Store.reference_pairs Store.seqs_of
writes-AllFit = (
  (omega arith, refl),
  (
    (
      logged-IsNumbered,
      record { events = omega arith; next = omega arith; keys = tt },
      omega arith,
      refl,
    ),
    (
      (clocked-IsCounted, tick_hash-IsKey, λ q h. ground (arith, h)),
      (
        tt,
        (
          tt,
          (
            the_routes-IsIncreasing,
            ((replayed-IsCounted, replayed-InRange, λ seqs h. only_zero seqs (cc h)), tt),
          ),
        ),
      ),
    ),
  ),
)

-- The tables of the toy engine can always be emptied.
toy-Empties : (w : Write) (st : LmdbStore toy) → Empties toy w st
unfolding Empties
toy-Empties (Runs.put_timed_routes t) st = (_, refl)
toy-Empties (Runs.append_event e) st = tt
toy-Empties (Runs.append_clock_event c) st = tt
toy-Empties (Runs.update_clock_event c) st = tt
toy-Empties (Runs.put_neighbor n) st = tt
toy-Empties (Runs.put_route destination next_hop) st = tt
toy-Empties (Runs.prune_chain chain keep) st = tt
toy-Empties Runs.clear st = tt

writes-AllEmpty : (fuel : ℕ) (ws : List Write) (st : LmdbStore toy) → AllEmpty toy fuel ws st
unfolding AllEmpty
writes-AllEmpty fuel [] st = tt
writes-AllEmpty fuel (w ∷ ws) st = (toy-Empties w st, λ st' h. writes-AllEmpty fuel ws st')

abbrev the_store : Try (LmdbStore toy) → LmdbStore toy
the_store (returned s) = s
the_store _ = fresh 8 4

abbrev disk : LmdbStore toy
disk = the_store (run_on_disk toy 1 writes (fresh 8 4))

replayed-Represents : Represents toy disk replayed
unfolding run_on_disk run_in_memory on_disk in_memory lookup insert emplace bytes_eq
    Store.append_event Store.append_clock_event Store.update_clock_event Store.put_neighbor
    Store.put_route Store.put_timed_routes Store.prune_chain Store.prune_loop Store.reference_pairs
    Store.seqs_of Batch.append_event Batch.append_clock_event Batch.update_clock_event
    Batch.put_neighbor Batch.put_route Batch.put_timed_routes Prune.prune_chain check_write found
replayed-Represents =
    run-Represents toy 1 writes (fresh 8 4) disk Store.empty fresh-Represents writes-AllFit
      (writes-AllEmpty 1 writes (fresh 8 4)) refl

run-Represents_example : Represents toy disk (run_in_memory writes Store.empty)
unfolding run_on_disk on_disk lookup insert bytes_eq Batch.append_event Batch.append_clock_event
    Batch.update_clock_event Batch.put_neighbor Batch.put_route Batch.put_timed_routes
    Prune.prune_chain check_write found Store.seqs_of
run-Represents_example =
    run-Represents toy 1 writes (fresh 8 4) disk Store.empty fresh-Represents writes-AllFit
      (writes-AllEmpty 1 writes (fresh 8 4)) refl

only_event : (q : ℕ) (e : Event) → get_elem? (the_event ∷ []) q ≡ some e → IsEvent e
only_event zero e h =
    let same : the_event ≡ e = cc h in subst (λ (x : Event). IsEvent x) same the_event-IsEvent
only_event (suc q) e h = cc h

zero_if : (b : Bool) (q : ℕ) → (if b then some 0 else none) ≡ some q → 0 ≡ q
zero_if true q h = cc h
zero_if false q h = cc h

-- The sequence number 0, the only one that is named, leads to the event and to the clock event.
leads_to {ℓ} :
    {A : Type ℓ} (b : Bool) (q : ℕ) (f : ℕ → Option A) (a : A)
    → f 0 ≡ some a
    → (if b then some 0 else none) ≡ some q
    → IsSeq q × ((x : A) × (f q ≡ some x))
leads_to b q f a there h =
    let zero_is = zero_if b q h in
    (subst IsSeq zero_is (omega arith), (a, ap f (sym zero_is) ∙ there))

replayed-IsLinked : IsLinked replayed
unfolding lookup bytes_eq
replayed-IsLinked = record {
  events = only_event;
  clock_events = replayed-InRange.at;
  named = λ h q e. leads_to (bytes_eq (26 ∷ []) h) q (get_elem? (the_event ∷ [])) the_event refl e;
  clock_named = λ h q e.
      leads_to (bytes_eq (24 ∷ []) h) q (λ n. lookup n replayed.clock_events) (local first_tick)
        refl e;
  tips = λ chain q e.
      leads_to (nat_eq 0 chain) q (λ n. lookup n replayed.clock_events) (local first_tick) refl e;
}

Represents-Agrees_example : Agrees toy disk replayed
Represents-Agrees_example =
    Represents-Agrees toy disk replayed replayed-Represents replayed-IsCounted replayed-IsLinked
