-- ===== src/Node/Bounds.antt =====
-- src/core/node.cpp: the four primitives that build an enclosing chain from the node's own clock
-- events. `none` is the result `false`; what it leaves of the chain is not used.
pub mod Ends
use loti.Base.{
  ℕ, zero, suc, ◌+◌, Bool, true, false, not, ◌&&◌, ◌||◌, List, [], ◌∷◌, ◌++◌, Option, none, some,
}
use loti.Base.{length, nat_eq, head?, last?, if◌then◌else◌}
use loti.Base.Key.{bytes_eq}
use loti.Domain.{
  NodeId, EventHash, EventReference, ClockEvent, LocalClockEvent, EventChain, Neighbor,
}
use loti.Store
use loti.Store.{Store}
use loti.Node.Outcome.{
  Fault, Outcome, done, fault, assertion, no_value, out_of_range, out_of_fuel, ◌>>=◌, or_fault,
}

-- The first of the references that is to a clock event of this node.
unfoldable pub find_own : NodeId → Store → List EventReference → Option LocalClockEvent
find_own id s [] = none
find_own id s (r ∷ rs) =
    let rest = find_own id s rs in
    if bytes_eq r.creator id
    then (elim (Store.clock_event_by_hash r.hash s) [ none ↦ rest | some ce ↦ some ce ])
    else rest

-- The references that the next lower clock event is taken from.
unfoldable pub lower_refs : EventChain → List EventReference
lower_refs ch = elim (head? ch.lower_bound) [
  | none ↦ ch.event.referenced_events
  | some front ↦ front.referenced_events
]

unfoldable pub add_local_lower_bound : NodeId → Store → EventChain → Option EventChain
unfolding find_own lower_refs
add_local_lower_bound id s ch = elim (find_own id s (lower_refs ch)) [
  | none ↦ none
  | some ce ↦ some (record ch { lower_bound = ce.base ∷ ch.lower_bound })
]

unfoldable pub upper_hash : EventChain → EventHash
upper_hash ch = elim (last? ch.upper_bound) [ none ↦ ch.event.hash | some back ↦ back.hash ]

-- The clock event of the lowest sequence that references the end of the chain.
unfoldable pub add_local_upper_bound : Store → EventChain → Outcome (Option EventChain)
unfolding upper_hash
add_local_upper_bound s ch = elim (Store.clock_events_referencing (upper_hash ch) s) [
  | [] ↦ done none
  | seq ∷ seqs ↦ or_fault out_of_range (Store.clock_event_by_seq seq s) >>= λ ce.
      done (some (record ch { upper_bound = ch.upper_bound ++ (ce.base ∷ []) }))
]

unfoldable pub has_creator : NodeId → List EventReference → Bool
has_creator id [] = false
has_creator id (r ∷ rs) = bytes_eq r.creator id || has_creator id rs

-- The loop that walks to predecessors, with `current` at the front of `lower`.
unfoldable pub lower_loop :
    ℕ
    → NodeId
    → Store
    → NodeId
    → LocalClockEvent
    → List ClockEvent
    → Outcome (Option (List ClockEvent))
unfolding has_creator find_own
lower_loop zero id s neighbor current lower = fault out_of_fuel
lower_loop (suc fuel) id s neighbor current lower =
    if has_creator neighbor current.referenced_events
    then done (some lower)
    else (elim (find_own id s current.referenced_events) [
      | none ↦ done none
      | some prev ↦ lower_loop fuel id s neighbor prev (prev.base ∷ lower)
    ])

-- `assert(front().creator == id_)`, and the stored clock event of that hash.
unfoldable pub stored_own : NodeId → Store → Option ClockEvent → Outcome LocalClockEvent
stored_own id s none = fault out_of_range
stored_own id s (some c) =
    if bytes_eq c.creator id
    then or_fault no_value (Store.clock_event_by_hash c.hash s)
    else fault assertion

-- As many rounds as there are clock events, and one.
abbrev pub rounds : Store → ℕ
rounds s = s.next_clock_seq + 1

unfoldable pub extend_lower_bound_for_neighbor :
    NodeId → Store → NodeId → EventChain → Outcome (Option EventChain)
unfolding lower_loop stored_own
extend_lower_bound_for_neighbor id s neighbor ch =
    stored_own id s (head? ch.lower_bound)
    >>= (λ current. lower_loop (rounds s) id s neighbor current ch.lower_bound)
    >>= λ r. done (elim r [ none ↦ none | some lower ↦ some (record ch { lower_bound = lower }) ])

-- The first of the sequences whose clock event is this node's, on the chain of `current`.
unfoldable pub find_successor : NodeId → Store → ℕ → List ℕ → Outcome (Option LocalClockEvent)
find_successor id s chain [] = done none
find_successor id s chain (seq ∷ seqs) =
    let rest = find_successor id s chain seqs in
    or_fault out_of_range (Store.clock_event_by_seq seq s) >>= λ ce.
    if bytes_eq ce.creator id && nat_eq ce.chain chain then done (some ce) else rest

-- The loop that walks to successors, with `current` at the back of `upper`.
unfoldable pub upper_loop :
    ℕ
    → NodeId
    → Store
    → NodeId
    → LocalClockEvent
    → List ClockEvent
    → Outcome (Option (List ClockEvent))
unfolding has_creator find_successor
upper_loop zero id s neighbor current upper = fault out_of_fuel
upper_loop (suc fuel) id s neighbor current upper =
    if has_creator neighbor current.referencing_events
    then done (some upper)
    else (find_successor id s current.chain (Store.clock_events_referencing current.hash s)
        >>= λ found. elim found [
          | none ↦ done none
          | some next ↦ upper_loop fuel id s neighbor next (upper ++ (next.base ∷ []))
        ])

unfoldable pub extend_upper_bound_for_neighbor :
    NodeId → Store → NodeId → EventChain → Outcome (Option EventChain)
unfolding upper_loop stored_own
extend_upper_bound_for_neighbor id s neighbor ch =
    stored_own id s (last? ch.upper_bound)
    >>= (λ current. upper_loop (rounds s) id s neighbor current ch.upper_bound)
    >>= λ r. done (elim r [ none ↦ none | some upper ↦ some (record ch { upper_bound = upper }) ])

-- A step of a chain of guards, `if (!step(chain)) return;`
abbrev pub and_then :
    Outcome (Option EventChain)
    → (EventChain → Outcome (Option EventChain))
    → Outcome (Option EventChain)
and_then m f = m >>= λ r. elim r [ none ↦ done none | some ch ↦ f ch ]

-- Both local ends, as the originator adds them.
unfoldable pub add_local_bounds : NodeId → Store → EventChain → Outcome (Option EventChain)
unfolding add_local_lower_bound add_local_upper_bound
add_local_bounds id s ch =
    and_then (done (add_local_lower_bound id s ch)) λ ch1. add_local_upper_bound s ch1

-- The four steps by which the creator and each intermediate splice their clock events.
unfoldable pub splice : NodeId → Store → NodeId → EventChain → Outcome (Option EventChain)
unfolding add_local_bounds extend_lower_bound_for_neighbor extend_upper_bound_for_neighbor
splice id s neighbor ch = and_then (add_local_bounds id s ch) λ ch1.
    and_then (extend_lower_bound_for_neighbor id s neighbor ch1)
      λ ch2. extend_upper_bound_for_neighbor id s neighbor ch2
