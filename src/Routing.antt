-- ===== src/Routing.antt =====
-- src/core/routing/discovery_router.hpp: the forwarding policies of a discovery.
pub mod Members
pub mod History
pub mod Directed
pub mod Sampling
use loti.Base.{ℕ, zero, suc, ◌+◌, ◌-◌, ◌%◌, Bool, true, false, not, ◌&&◌, ◌||◌, List, [], ◌∷◌, ◌++◌}
use loti.Base.{Option, none, some, length, get_elem?, set, take, leb, nat_eq, leb_ℤ, if◌then◌else◌}
use loti.Base.Key.{bytes_eq, bytes_key}
use loti.Base.Table.{Table, lookup}
use loti.Domain.{
  NodeId, TimeRange, EventReference, LocalClockEvent, Neighbor, TimedRoute, TimedRouteTable,
  contains,
}

-- std::find(xs.begin(), xs.end(), id) != xs.end()
unfoldable pub member : NodeId → List NodeId → Bool
member id [] = false
member id (x ∷ xs) = bytes_eq x id || member id xs

unfoldable pub is_some {ℓ} : {A : Type ℓ} → Option A → Bool
is_some none = false
is_some (some a) = true

-- StaticShortestPathRouter::next_hops
unfoldable pub static_next_hops : Table NodeId Neighbor → Table NodeId NodeId → NodeId → List NodeId
unfolding is_some
static_next_hops neighbors routes destination = elim (lookup destination routes) [
  | none ↦ []
  | some hop ↦ if is_some (lookup hop neighbors) then hop ∷ [] else []
]

-- `r.creator` is pushed on `out`, if it is another node, a neighbor, and not seen before; `seen` holds
-- just what `out` holds.
unfoldable pub collect_one :
    NodeId → Table NodeId Neighbor → List NodeId → EventReference → List NodeId
unfolding member is_some
collect_one self neighbors out r =
    if not (bytes_eq r.creator self)
      && (is_some (lookup r.creator neighbors) && not (member r.creator out))
    then out ++ (r.creator ∷ [])
    else out

-- The lambda `collect`.
unfoldable pub collect :
    NodeId → Table NodeId Neighbor → List NodeId → List EventReference → List NodeId
collect self neighbors out [] = out
collect self neighbors out (r ∷ rs) = collect self neighbors (collect_one self neighbors out r) rs

-- One round of the loop over `load_clock_events()`.
unfoldable pub history_step :
    NodeId → Table NodeId Neighbor → TimeRange → List NodeId → LocalClockEvent → List NodeId
history_step self neighbors range out c =
    if contains range c.timestamp
    then collect self neighbors (collect self neighbors out c.referenced_events)
        c.referencing_events
    else out

unfoldable pub history_loop :
    NodeId → Table NodeId Neighbor → TimeRange → List NodeId → List LocalClockEvent → List NodeId
history_loop self neighbors range out [] = out
history_loop self neighbors range out (c ∷ cs) =
    history_loop self neighbors range (history_step self neighbors range out c) cs

-- NeighborHistoryRouter::next_hops; the clock events are those of the store.
unfoldable pub history_next_hops :
    NodeId → Table NodeId Neighbor → List LocalClockEvent → TimeRange → List NodeId
unfolding history_loop history_step collect collect_one
history_next_hops self neighbors clock_events range =
    history_loop self neighbors range [] clock_events

unfoldable pub overlaps : TimeRange → TimeRange → Bool
overlaps a b = leb_ℤ a.lo b.hi && leb_ℤ b.lo a.hi

-- One hop of a route; `added` holds just what `directed` holds.
unfoldable pub direct_hop : List NodeId → List NodeId → NodeId → List NodeId
direct_hop crosslinked directed hop =
    if member hop crosslinked && not (member hop directed) then directed ++ (hop ∷ []) else directed

unfoldable pub direct_hops : List NodeId → List NodeId → List NodeId → List NodeId
direct_hops crosslinked directed [] = directed
direct_hops crosslinked directed (hop ∷ hops) =
    direct_hops crosslinked (direct_hop crosslinked directed hop) hops

-- One route: skipped unless its validity overlaps the window.
unfoldable pub direct_route : List NodeId → TimeRange → List NodeId → TimedRoute → List NodeId
direct_route crosslinked range directed route =
    if not (overlaps route.validity range)
    then directed
    else direct_hops crosslinked directed route.next_hops

unfoldable pub direct_routes : List NodeId → TimeRange → List NodeId → List TimedRoute → List NodeId
direct_routes crosslinked range directed [] = directed
direct_routes crosslinked range directed (route ∷ routes) =
    direct_routes crosslinked range (direct_route crosslinked range directed route) routes

unfoldable pub or_else : List NodeId → List NodeId → List NodeId
or_else [] fallback = fallback
or_else (hop ∷ hops) fallback = hop ∷ hops

-- RoutingTableRouter::next_hops; `crosslinked` is what the fallback answers.
unfoldable pub table_next_hops : TimedRouteTable → List NodeId → NodeId → TimeRange → List NodeId
unfolding direct_routes direct_route direct_hops direct_hop or_else
table_next_hops table crosslinked destination range = elim (lookup destination table) [
  | none ↦ crosslinked
  | some routes ↦ or_else (direct_routes crosslinked range [] routes) crosslinked
]

module _ {ℓ} {A : Type ℓ} where
  -- std::swap(cand[i], cand[j])
  unfoldable pub swap : ℕ → ℕ → List A → List A
  swap i j xs = elim (get_elem? xs i) [
    | none ↦ xs
    | some a ↦ elim (get_elem? xs j) [ none ↦ xs | some b ↦ set (set xs i b) j a ]
  ]

-- The Rng port: a state, and `next_salt`, which draws a salt and moves the state on.
module _ {R : Type 0} (next_salt : R → ℕ × R) where
  -- The partial Fisher–Yates loop, from index `i` with `k` rounds left.
  unfoldable pub shuffle : ℕ → ℕ → List NodeId → R → List NodeId × R
  shuffle zero i cand rng = (cand, rng)
  shuffle (suc k) i cand rng =
      let (salt, rng') = next_salt rng in
      shuffle k (i + 1) (swap i (i + salt % (length cand - i)) cand) rng'

  -- ProbabilisticRouter::next_hops; `cand` is what the inner router answers.
  unfoldable pub sample_next_hops : ℕ → List NodeId → R → List NodeId × R
  unfolding shuffle swap
  sample_next_hops k cand rng =
      if nat_eq k 0 || leb (length cand) k
      then (cand, rng)
      else (let (shuffled, rng') = shuffle k 0 cand rng in (take k shuffled, rng'))
