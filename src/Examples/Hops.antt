-- ===== src/Examples/Hops.antt =====
-- Examples of the routers.
use loti.Base.{
  ℕ, ◌+◌, ◌≡◌, ◌≤◌, refl, arith, true, false, not, ◌&&◌, ◌||◌, List, [], ◌∷◌, some, none, Option,
  pos, if◌then◌else◌,
}
use loti.Base.{length, nat_eq, leb}
use loti.Base.Key.{bytes_key}
use loti.Base.Table.{lookup}
use loti.Domain.{NodeId, TimedRoute, TimedRouteTable, LocalClockEvent}
use loti.Routing.{member, history_next_hops, table_next_hops, sample_next_hops}
use loti.Routing.Members.{occurs}
use loti.Routing.History.{eligible, linked_within, member-history_next_hops}
use loti.Routing.Directed.{usable, table_next_hops_hit, table_next_hops_miss}
use loti.Routing.Sampling.{sample_next_hops_lem}
use loti.Examples.{me, peer, far, peer_entry, one_to_ten, first_tick}

-- A clock event that the peer references.
abbrev seen_tick : LocalClockEvent
seen_tick = record {
  base = first_tick;
  referencing_events = record { creator = peer; hash = 1 ∷ [] } ∷ [];
}

member-history_next_hops_example :
    member peer (history_next_hops me ((peer, peer_entry) ∷ []) (seen_tick ∷ []) one_to_ten)
    ≡ (eligible me ((peer, peer_entry) ∷ []) peer && linked_within one_to_ten peer (seen_tick ∷ []))
member-history_next_hops_example =
    member-history_next_hops me ((peer, peer_entry) ∷ []) peer one_to_ten (seen_tick ∷ [])

abbrev pub by_peer : TimedRoute
by_peer = record { validity = one_to_ten; next_hops = peer ∷ [] }

abbrev table : TimedRouteTable
table = (far, by_peer ∷ []) ∷ []

far_routed : lookup far table ≡ some (by_peer ∷ [])
unfolding lookup loti.Base.Key.bytes_eq
far_routed = refl

peer-usable : usable (peer ∷ me ∷ []) one_to_ten (by_peer ∷ []) peer ≡ true
unfolding member loti.Base.Key.bytes_eq loti.Routing.overlaps
peer-usable = refl

table_next_hops_hit_example :
    member me (table_next_hops table (peer ∷ me ∷ []) far one_to_ten)
    ≡ usable (peer ∷ me ∷ []) one_to_ten (by_peer ∷ []) me
table_next_hops_hit_example =
    table_next_hops_hit table (peer ∷ me ∷ []) far one_to_ten (by_peer ∷ []) peer far_routed
      peer-usable me

not_routed :
    (routes : List TimedRoute) (x : NodeId)
    → lookup peer table ≡ some routes
    → usable (me ∷ []) one_to_ten routes x ≡ false
unfolding lookup loti.Base.Key.bytes_eq
not_routed routes x h = cc

table_next_hops_miss_example : table_next_hops table (me ∷ []) peer one_to_ten ≡ me ∷ []
table_next_hops_miss_example = table_next_hops_miss table (me ∷ []) peer one_to_ten not_routed

sample_next_hops_lem_example :
    (length (sample_next_hops (λ (r : ℕ). (r, r + 1)) 2 (me ∷ peer ∷ far ∷ []) 7).0 ≡ (
      if nat_eq 2 0 || leb (length (me ∷ peer ∷ far ∷ [])) 2
      then length (me ∷ peer ∷ far ∷ [])
      else 2))
    × ((x : NodeId)
        → occurs x (sample_next_hops (λ (r : ℕ). (r, r + 1)) 2 (me ∷ peer ∷ far ∷ []) 7).0
          ≤ occurs x (me ∷ peer ∷ far ∷ []))
sample_next_hops_lem_example =
    sample_next_hops_lem (λ (r : ℕ). (r, r + 1)) 2 (me ∷ peer ∷ far ∷ []) 7
