-- ===== src/Store.antt =====
-- src/core/ports/store.hpp, as src/adapters/sim/in_memory_store.hpp implements it.
-- `std::map::at` and `std::vector::at` throw on a missing key: `none`.
pub mod Lookups
pub mod Pruning
use loti.Base.{
  ℕ, zero, suc, ◌+◌, Bool, true, false, not, ◌&&◌, List, [], ◌∷◌, ◌++◌, Option, none, some,
}
use loti.Base.{length, get_elem?, leb, ltb, nat_eq, if◌then◌else◌, last?, map}
use loti.Base.Key.{bytes_eq, bytes_key, nat_key}
use loti.Base.Table.{Table, lookup, insert, erase, emplace}
use loti.Domain.{
  NodeId, EventHash, EventReference, Event, LocalClockEvent, Neighbor, TimedRouteTable,
}

-- `referencing` is a multimap that is read only through `equal_range` and sorted: a list of its pairs.
pub record Store : Type 0 where
  pub events : List Event
  pub clock_events : Table ℕ LocalClockEvent
  pub next_clock_seq : ℕ
  pub event_seq : Table EventHash ℕ
  pub clock_seq : Table EventHash ℕ
  pub referencing : List (EventHash × ℕ)
  pub chain_tip_seq : Table ℕ ℕ
  pub chain_seqs : Table ℕ (List ℕ)
  pub neighbors : Table NodeId Neighbor
  pub routes : Table NodeId NodeId
  pub timed_routes : TimedRouteTable

abbrev pub empty : Store
empty = record {
  events = [];
  clock_events = [];
  next_clock_seq = 0;
  event_seq = [];
  clock_seq = [];
  referencing = [];
  chain_tip_seq = [];
  chain_seqs = [];
  neighbors = [];
  routes = [];
  timed_routes = [];
}

unfoldable pub append_event : Event → Store → ℕ × Store
append_event e s =
    let seq = length s.events in
    (seq, record s { event_seq = emplace e.hash seq s.event_seq; events = s.events ++ (e ∷ []) })

-- `for (const auto& ref : c.referenced_events) referencing_.emplace(ref.hash, seq)`
unfoldable pub reference_pairs : ℕ → List EventReference → List (EventHash × ℕ)
reference_pairs seq [] = []
reference_pairs seq (r ∷ rs) = (r.hash, seq) ∷ reference_pairs seq rs

-- `chain_seqs_[chain]`, which a missing chain starts empty.
unfoldable pub seqs_of : ℕ → Table ℕ (List ℕ) → List ℕ
seqs_of chain t = elim (lookup chain t) [ none ↦ [] | some seqs ↦ seqs ]

unfoldable pub append_clock_event : LocalClockEvent → Store → ℕ × Store
unfolding reference_pairs seqs_of
append_clock_event c s =
    let seq = s.next_clock_seq in
    (
      seq,
      record s {
        next_clock_seq = seq + 1;
        clock_seq = emplace c.hash seq s.clock_seq;
        referencing = s.referencing ++ reference_pairs seq c.referenced_events;
        chain_tip_seq = insert c.chain seq s.chain_tip_seq;
        chain_seqs = insert c.chain (seqs_of c.chain s.chain_seqs ++ (seq ∷ [])) s.chain_seqs;
        clock_events = emplace seq c s.clock_events;
      },
    )

unfoldable pub update_clock_event : LocalClockEvent → Store → Store
update_clock_event c s = elim (lookup c.hash s.clock_seq) [
  | none ↦ s
  | some seq ↦ record s { clock_events = insert seq c s.clock_events }
]

unfoldable pub put_neighbor : Neighbor → Store → Store
put_neighbor n s = record s { neighbors = insert n.node_id n s.neighbors }

unfoldable pub put_route : NodeId → NodeId → Store → Store
put_route dst next_hop s = record s { routes = insert dst next_hop s.routes }

unfoldable pub put_timed_routes : TimedRouteTable → Store → Store
put_timed_routes t s = record s { timed_routes = t }

-- Every pair of the hash `h` and the sequence `seq` is erased.
unfoldable pub drop_pair : EventHash → ℕ → List (EventHash × ℕ) → List (EventHash × ℕ)
drop_pair h seq [] = []
drop_pair h seq ((k, n) ∷ ps) =
    let rest = drop_pair h seq ps in if bytes_eq k h && nat_eq n seq then rest else (k, n) ∷ rest

-- The loop over the references of a clock event that is pruned.
unfoldable pub drop_pairs : List EventReference → ℕ → List (EventHash × ℕ) → List (EventHash × ℕ)
unfolding drop_pair
drop_pairs [] seq ps = ps
drop_pairs (r ∷ rs) seq ps = drop_pairs rs seq (drop_pair r.hash seq ps)

-- The body of the pruning loop for one sequence number.
unfoldable pub prune_seq : ℕ → Store → Store
unfolding drop_pairs
prune_seq seq s = elim (lookup seq s.clock_events) [
  | none ↦ s
  | some ce ↦ record s {
    clock_seq = erase ce.hash s.clock_seq;
    referencing = drop_pairs ce.referenced_events seq s.referencing;
    clock_events = erase seq s.clock_events;
  }
]

-- `while (seqs.size() > keep)`: the sequences that stay, and the store without the others.
unfoldable pub prune_loop : ℕ → List ℕ → Store → List ℕ × Store
unfolding prune_seq
prune_loop keep [] s = ([], s)
prune_loop keep (seq ∷ seqs) s =
    let rest = prune_loop keep seqs (prune_seq seq s) in
    if ltb keep (length (seq ∷ seqs)) then rest else (seq ∷ seqs, s)

unfoldable pub prune_chain : ℕ → ℕ → Store → Store
unfolding prune_loop
prune_chain chain keep s = elim (lookup chain s.chain_seqs) [
  | none ↦ s
  | some seqs ↦
      if nat_eq keep 0
      then s
      else (let (kept, s') = prune_loop keep seqs s in
          record s' { chain_seqs = insert chain kept s'.chain_seqs })
]

unfoldable pub event_by_seq : ℕ → Store → Option Event
event_by_seq seq s = get_elem? s.events seq

unfoldable pub event_by_hash : EventHash → Store → Option Event
event_by_hash h s = elim (lookup h s.event_seq) [ none ↦ none | some seq ↦ get_elem? s.events seq ]

unfoldable pub clock_event_by_seq : ℕ → Store → Option LocalClockEvent
clock_event_by_seq seq s = lookup seq s.clock_events

unfoldable pub clock_event_seq : EventHash → Store → Option ℕ
clock_event_seq h s = lookup h s.clock_seq

unfoldable pub clock_event_by_hash : EventHash → Store → Option LocalClockEvent
clock_event_by_hash h s = elim (lookup h s.clock_seq) [
  | none ↦ none
  | some seq ↦ lookup seq s.clock_events
]

-- std::sort of the sequence numbers
unfoldable pub insert_sorted : ℕ → List ℕ → List ℕ
insert_sorted n [] = n ∷ []
insert_sorted n (m ∷ ms) = if leb n m then n ∷ m ∷ ms else m ∷ insert_sorted n ms

unfoldable pub sort : List ℕ → List ℕ
unfolding insert_sorted
sort [] = []
sort (n ∷ ns) = insert_sorted n (sort ns)

-- `equal_range(h)`
unfoldable pub seqs_with : EventHash → List (EventHash × ℕ) → List ℕ
seqs_with h [] = []
seqs_with h ((k, n) ∷ ps) = let rest = seqs_with h ps in if bytes_eq k h then n ∷ rest else rest

unfoldable pub clock_events_referencing : EventHash → Store → List ℕ
unfolding sort seqs_with
clock_events_referencing h s = sort (seqs_with h s.referencing)

unfoldable pub values {ℓ} : {V : Type ℓ} → Table ℕ V → List V
values [] = []
values ((k, v) ∷ m) = v ∷ values m

-- The overload with no argument: the highest live sequence.
unfoldable pub latest_clock_event : Store → Option LocalClockEvent
unfolding values
latest_clock_event s = last? (values s.clock_events)

-- The overload for one chain: its tip.
unfoldable pub latest_on_chain : ℕ → Store → Option LocalClockEvent
latest_on_chain chain s = elim (lookup chain s.chain_tip_seq) [
  | none ↦ none
  | some seq ↦ lookup seq s.clock_events
]

unfoldable pub event_count : Store → ℕ
event_count s = length s.events

unfoldable pub clock_event_count : Store → ℕ
clock_event_count s = length s.clock_events

unfoldable pub load_clock_events : Store → List LocalClockEvent
unfolding values
load_clock_events s = values s.clock_events

unfoldable pub clear : Store → Store
clear s = empty
