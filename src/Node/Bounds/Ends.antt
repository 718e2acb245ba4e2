-- ===== src/Node/Bounds/Ends.antt =====
-- src/core/node.cpp: the walk to the predecessors of a chain's first clock event comes to its end.
use loti.Base.{ℕ, zero, suc, ◌<◌, ◌≡◌, refl, arith, true}
use loti.Base.{List, ◌∷◌, Option, none, some, head?, Option-cases, Bool-cases, inl, inr}
use loti.Base.Key.{nat_key, bytes_eq, bytes_key}
use loti.Base.Table.{lookup}
use loti.Domain.{NodeId, ClockEvent, LocalClockEvent, EventChain}
use loti.Store.{Store, clock_event_by_hash}
use loti.Store.Lookups.{IsNumbered}
use loti.Node.Outcome.{done}
use loti.Node.Bounds.{
  find_own, has_creator, lower_loop, rounds, stored_own, extend_lower_bound_for_neighbor,
}

-- A clock event of the node that a live one references is live under a lower sequence number: it was
-- made earlier.
pub record Descends (id : NodeId) (s : Store) : Type 0 where
  pub below :
      (q : ℕ) (c prev : LocalClockEvent)
      → lookup q s.clock_events ≡ some c
      → find_own id s c.referenced_events ≡ some prev
      → (p : ℕ) × (lookup p s.clock_events ≡ some prev) × (p < q)

lower_loop-ends :
    (fuel : ℕ) (id : NodeId) (s : Store) (neighbor : NodeId) (q : ℕ) (current : LocalClockEvent)
    (lower : List ClockEvent)
    → Descends id s
    → lookup q s.clock_events ≡ some current
    → q < fuel
    → (r : Option (List ClockEvent)) × (lower_loop fuel id s neighbor current lower ≡ done r)
unfolding lower_loop
lower_loop-ends zero id s neighbor q current lower d here b = absurd (omega arith)
lower_loop-ends (suc fuel) id s neighbor q current lower d here b =
    elim (Bool-cases (has_creator neighbor current.referenced_events)) [
      | inl found ↦ (some lower, rw (lower_loop, found) refl)
      | inr on ↦ elim (Option-cases (find_own id s current.referenced_events)) [
        | inl last ↦ (none, rw (lower_loop, on, last) refl)
        | inr (prev, next) ↦
            let (p, there, less) = d.below q current prev here next in
            let (r, ends) =
              lower_loop-ends fuel id s neighbor p prev (prev.base ∷ lower) d there (omega arith) in
            (r, rw (lower_loop, on, next) ends)
      ]
    ]

by_hash-live :
    (h : List ℕ) (s : Store) (c : LocalClockEvent)
    → clock_event_by_hash h s ≡ some c
    → (q : ℕ) × (lookup q s.clock_events ≡ some c)
unfolding clock_event_by_hash
by_hash-live h s c e = elim (Option-cases (lookup h s.clock_seq)) [
  | inl miss ↦ cc (rw (clock_event_by_hash, miss) at e)
  | inr (q, at_q) ↦ (q, rw (clock_event_by_hash, at_q) at e)
]

-- The fuel is enough: the walk down from a live clock event of the node at the front of the chain
-- comes to its end, with or without a bound, in a store whose sequence numbers are in order and whose
-- clock events reference only earlier ones of the node.
pub extend_lower_bound_for_neighbor-ends :
    (id : NodeId) (s : Store) (neighbor : NodeId) (ch : EventChain) (front : ClockEvent)
    (current : LocalClockEvent)
    → IsNumbered s
    → Descends id s
    → head? ch.lower_bound ≡ some front
    → bytes_eq front.creator id ≡ true
    → clock_event_by_hash front.hash s ≡ some current
    → (r : Option EventChain) × (extend_lower_bound_for_neighbor id s neighbor ch ≡ done r)
unfolding extend_lower_bound_for_neighbor stored_own
extend_lower_bound_for_neighbor-ends id s neighbor ch front current w d first own stored =
    let (q, live) = by_hash-live front.hash s current stored in
    let (r, ends) =
      lower_loop-ends (rounds s) id s neighbor q current ch.lower_bound d live
        (omega (arith, w.live q current live)) in
    let closed : Option EventChain = elim r [
      | none ↦ none
      | some lower ↦ some (record ch { lower_bound = lower })
    ] in
    (closed, rw (extend_lower_bound_for_neighbor, first, own, stored, ends) refl)
