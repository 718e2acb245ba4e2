-- ===== src/Routing/History.antt =====
-- src/core/routing/discovery_router.hpp, NeighborHistoryRouter: which next hops it answers.
use loti.Base.{◌≡◌, ◌∙◌, arith, Bool, false, not, ◌&&◌, ◌||◌, List, [], ◌∷◌}
use loti.Base.Key.{bytes_eq, bytes_key, bytes_eq_iff}
use loti.Base.Table.{Table, lookup}
use loti.Domain.{NodeId, TimeRange, EventReference, LocalClockEvent, Neighbor, contains}
use loti.Routing.{
  member, is_some, collect_one, collect, history_step, history_loop, history_next_hops,
}
use loti.Routing.Members.{Distinct, member-snoc, Distinct-snoc}

-- One of the references is to a clock event or event of `x`.
abbrev pub mentions : NodeId → List EventReference → Bool
mentions x [] = false
mentions x (r ∷ rs) = bytes_eq r.creator x || mentions x rs

-- One of the clock events in the window references `x`, or is referenced by it.
abbrev pub linked_within : TimeRange → NodeId → List LocalClockEvent → Bool
linked_within range x [] = false
linked_within range x (c ∷ cs) =
    (contains range c.timestamp
      && (mentions x c.referenced_events || mentions x c.referencing_events))
    || linked_within range x cs

module _ (self : NodeId) (neighbors : Table NodeId Neighbor) where
  -- Another node that is a known neighbor.
  abbrev pub eligible : NodeId → Bool
  eligible x = not (bytes_eq x self) && is_some (lookup x neighbors)

  member-collect_one :
      (x : NodeId) (out : List NodeId) (r : EventReference)
      → member x (collect_one self neighbors out r)
        ≡ (member x out || (eligible x && bytes_eq r.creator x))
  unfolding collect_one
  member-collect_one x out r = ground (arith, member-snoc x r.creator out, bytes_eq_iff r.creator x)

  member-collect :
      (x : NodeId) (out : List NodeId) (rs : List EventReference)
      → member x (collect self neighbors out rs) ≡ (member x out || (eligible x && mentions x rs))
  unfolding collect
  member-collect x out [] = ground arith
  member-collect x out (r ∷ rs) =
      member-collect x (collect_one self neighbors out r) rs
      ∙ ground (arith, member-collect_one x out r)

  member-history_step :
      (x : NodeId) (range : TimeRange) (out : List NodeId) (c : LocalClockEvent)
      → member x (history_step self neighbors range out c)
        ≡ (member x out || (eligible x && linked_within range x (c ∷ [])))
  unfolding history_step
  member-history_step x range out c = ground (
    arith,
    member-collect x out c.referenced_events,
    member-collect x (collect self neighbors out c.referenced_events) c.referencing_events,
  )

  member-history_loop :
      (x : NodeId) (range : TimeRange) (out : List NodeId) (cs : List LocalClockEvent)
      → member x (history_loop self neighbors range out cs)
        ≡ (member x out || (eligible x && linked_within range x cs))
  unfolding history_loop
  member-history_loop x range out [] = ground arith
  member-history_loop x range out (c ∷ cs) =
      member-history_loop x range (history_step self neighbors range out c) cs
      ∙ ground (arith, member-history_step x range out c)

  -- The candidates are exactly the known neighbors, other than the node itself, with which a clock
  -- event in the window has a cross-link in either direction.
  pub member-history_next_hops :
      (x : NodeId) (range : TimeRange) (cs : List LocalClockEvent)
      → member x (history_next_hops self neighbors cs range)
        ≡ (eligible x && linked_within range x cs)
  unfolding history_next_hops member
  member-history_next_hops x range cs = member-history_loop x range [] cs

  collect_one-Distinct :
      (out : List NodeId) (r : EventReference)
      → Distinct out
      → Distinct (collect_one self neighbors out r)
  unfolding collect_one
  collect_one-Distinct out r d = ground (arith, Distinct-snoc r.creator out)

  collect-Distinct :
      (out : List NodeId) (rs : List EventReference)
      → Distinct out
      → Distinct (collect self neighbors out rs)
  unfolding collect
  collect-Distinct out [] d = d
  collect-Distinct out (r ∷ rs) d =
      collect-Distinct (collect_one self neighbors out r) rs (collect_one-Distinct out r d)

  history_step-Distinct :
      (range : TimeRange) (out : List NodeId) (c : LocalClockEvent)
      → Distinct out
      → Distinct (history_step self neighbors range out c)
  unfolding history_step
  history_step-Distinct range out c d = ground (
    arith,
    collect-Distinct out c.referenced_events,
    collect-Distinct (collect self neighbors out c.referenced_events) c.referencing_events,
  )

  history_loop-Distinct :
      (range : TimeRange) (out : List NodeId) (cs : List LocalClockEvent)
      → Distinct out
      → Distinct (history_loop self neighbors range out cs)
  unfolding history_loop
  history_loop-Distinct range out [] d = d
  history_loop-Distinct range out (c ∷ cs) d =
      history_loop-Distinct range (history_step self neighbors range out c) cs
        (history_step-Distinct range out c d)

  -- No candidate is answered twice.
  pub history_next_hops-Distinct :
      (range : TimeRange) (cs : List LocalClockEvent)
      → Distinct (history_next_hops self neighbors cs range)
  unfolding history_next_hops
  history_next_hops-Distinct range cs = history_loop-Distinct range [] cs tt
