-- ===== src/Node/Api.antt =====
-- src/core/node.cpp: the application's requests, the timers and the purge of stale discoveries.
use loti.Base.{ℕ, ◌+◌, ℤ, pos, negsuc, ◌&&◌, List, [], ◌∷◌, ◌++◌}
use loti.Base.{none, some, ltb_ℤ, sub_ℤ, if◌then◌else◌, ◌/◌}
use loti.Base.Key.{bytes_eq, bytes_key, pair_key}
use loti.Base.Table.{Table, lookup, insert, erase}
use loti.Domain.{NodeId, EventHash, Timestamp, TimeRange, Event, in_progress, completed, aborted}
use loti.Wire.Packets.{ChainRequest}
use loti.Node.Outcome.{Outcome, done, assertion, ◌>>=◌, or_fault}
use loti.Node.State.{
  Node, Env, emit, ChainConfig, ChainEntry, FloodSeen, ChainCallback, node_itself, chain_started,
  bounds_started, order_started, arm, clock_timer, purge_timer, on_bounds_completed,
  on_bounds_aborted, on_order_completed, on_order_aborted,
}
use loti.Node.Dag.{create_clock_event}
use loti.Node.Forwarding.{flood_chain_request, close_discovery}
use loti.Node.Bookkeeping.{
  is_open, OrderKey, tell_aborted, tell_completed, abort_chain_discovery, abort_bounds_discovery,
  abort_order_discovery, insert_chain_discovery, insert_bounds_discovery, insert_order_discovery,
  new_bounds, new_order, keys, each_key,
}

-- A discovery of the event that is there: wait for it, or be told its result at once.
unfoldable pub join_chain : Event → ChainCallback → ChainEntry → Node → Outcome Node
join_chain event callback e n = elim e.discovery.state [
  | in_progress ↦ done (record n {
    chain_discoveries =
        insert event.hash (record e { callbacks = e.callbacks ++ (callback ∷ []) })
          n.chain_discoveries;
  })
  | aborted ↦ tell_aborted event callback n
  | completed ↦ tell_completed event e.discovery.chain callback n
]

-- `discovery.range = range` on the entry of the event.
unfoldable pub set_range : EventHash → TimeRange → ChainEntry → Node → Node
set_range hash range e n = record n {
  chain_discoveries =
      insert hash (record e { discovery = record (e.discovery) { range = range } })
        n.chain_discoveries;
}

module _ (env : Env) where
  -- The request that goes out for an event of another node.
  abbrev pub request_for : Event → TimeRange → Node → ChainRequest
  request_for event range n = record {
    originator = n.id;
    event = record { creator = event.creator; hash = event.hash };
    range = range;
    hop_limit = n.config.discovery_hop_limit;
    path = [];
  }

  unfoldable pub start_chain : Event → TimeRange → ChainEntry → Node → Outcome Node
  unfolding set_range
  start_chain event range e n =
      let e' : ChainEntry = record e { discovery = record (e.discovery) { range = range } } in
      let n1 : Node = emit (chain_started e'.discovery) (set_range event.hash range e n) in
      if bytes_eq event.creator n.id
      then close_discovery env event.hash e'.discovery.chain e' n1
      else done (flood_chain_request env event.creator range (request_for event range n1) n1)

  unfoldable pub discover_event_chain : Event → TimeRange → ChainCallback → Node → Outcome Node
  unfolding join_chain start_chain
  discover_event_chain event range callback n = elim (lookup event.hash n.chain_discoveries) [
    | some e ↦ join_chain event callback e n
    | none ↦
        let n1 = insert_chain_discovery event n.id callback n in
        or_fault assertion (lookup event.hash n1.chain_discoveries) >>= λ e.
        start_chain event range e n1
  ]

  unfoldable pub discover_event_bounds : Event → TimeRange → ℕ → Node → Outcome Node
  discover_event_bounds event range callback n = elim (lookup event.hash n.bounds_discoveries) [
    | some e ↦ elim e.discovery.state [
      | in_progress ↦ done (record n {
        bounds_discoveries =
            insert event.hash (record e { callbacks = e.callbacks ++ (callback ∷ []) })
              n.bounds_discoveries;
      })
      | aborted ↦ done (emit (on_bounds_aborted callback event) n)
      | completed ↦ done (
          emit (on_bounds_completed callback event e.discovery.lower_bound e.discovery.upper_bound)
            n)
    ]
    | none ↦
        discover_event_chain event range node_itself
          (emit (bounds_started (new_bounds event n)) (insert_bounds_discovery event callback n))
  ]

  unfoldable pub discover_event_order : Event → Event → TimeRange → ℕ → Node → Outcome Node
  discover_event_order event1 event2 range callback n =
      let key : OrderKey = (event1.hash, event2.hash) in
      elim (lookup key n.order_discoveries) [
        | some e ↦ elim e.discovery.state [
          | in_progress ↦ done (record n {
            order_discoveries =
                insert key (record e { callbacks = e.callbacks ++ (callback ∷ []) })
                  n.order_discoveries;
          })
          | aborted ↦ done (emit (on_order_aborted callback event1 event2) n)
          | completed ↦ done (emit (on_order_completed callback event1 event2 e.discovery.order) n)
        ]
        | none ↦
            discover_event_chain event1 range node_itself (
              emit (order_started (new_order event1 event2 n))
                (insert_order_discovery event1 event2 callback n))
            >>= λ n1. discover_event_chain event2 range node_itself n1
      ]

-- `interval / 100` of a positive duration; a division of integers rounds towards zero.
unfoldable pub hundredth : ℤ → ℤ
hundredth (pos n) = pos (n / 100)
hundredth (negsuc n) = sub_ℤ (pos 0) (pos ((n + 1) / 100))

unfoldable pub schedule_purge_timer : Node → Node
unfolding hundredth
schedule_purge_timer n = emit (arm purge_timer (hundredth n.config.discovery_expiry)) n

-- `if (config_.chains[chain].interval > 0) schedule_clock_timer(chain);` for each chain
unfoldable pub arm_clocks : ℕ → List ChainConfig → Node → Node
arm_clocks chain [] n = n
arm_clocks chain (c ∷ cs) n =
    arm_clocks (chain + 1) cs
      (if ltb_ℤ (pos 0) c.interval then emit (arm (clock_timer chain) c.interval) n else n)

unfoldable pub start : Node → Node
unfolding arm_clocks schedule_purge_timer
start n =
    let n1 = arm_clocks 0 n.config.chains n in
    if ltb_ℤ (pos 0) n.config.discovery_expiry then schedule_purge_timer n1 else n1

-- An entry that started before the limit; the three loops of the purge, and the flood's entries.
unfoldable pub purge_chain : Timestamp → EventHash → Node → Outcome Node
unfolding is_open
purge_chain limit hash n =
    let drop = λ (m : Node). record m { chain_discoveries = erase hash m.chain_discoveries } in
    elim (lookup hash n.chain_discoveries) [
      | none ↦ done n
      | some e ↦
          if ltb_ℤ e.discovery.start_time limit
          then (if bytes_eq e.discovery.originator n.id && is_open e.discovery.state
              then abort_chain_discovery e.discovery.event.hash n >>= (λ m. done (drop m))
              else done (drop n))
          else done n
    ]

unfoldable pub purge_bounds : Timestamp → EventHash → Node → Outcome Node
unfolding is_open
purge_bounds limit hash n =
    let drop = λ (m : Node). record m { bounds_discoveries = erase hash m.bounds_discoveries } in
    elim (lookup hash n.bounds_discoveries) [
      | none ↦ done n
      | some e ↦
          if ltb_ℤ e.discovery.start_time limit
          then (if is_open e.discovery.state
              then abort_bounds_discovery e.discovery.event.hash n >>= (λ m. done (drop m))
              else done (drop n))
          else done n
    ]

unfoldable pub purge_order : Timestamp → OrderKey → Node → Outcome Node
unfolding is_open
purge_order limit key n =
    let drop = λ (m : Node). record m { order_discoveries = erase key m.order_discoveries } in
    elim (lookup key n.order_discoveries) [
      | none ↦ done n
      | some e ↦
          if ltb_ℤ e.discovery.start_time limit
          then (if is_open e.discovery.state
              then abort_order_discovery (e.discovery.event1.hash, e.discovery.event2.hash) n
                >>= (λ m. done (drop m))
              else done (drop n))
          else done n
    ]

unfoldable pub purge_seen :
    Timestamp → Table (NodeId × EventHash) FloodSeen → Table (NodeId × EventHash) FloodSeen
purge_seen limit [] = []
purge_seen limit ((k, seen) ∷ m) =
    let rest = purge_seen limit m in if ltb_ℤ seen.first_seen limit then rest else (k, seen) ∷ rest

unfoldable pub purge_discoveries : Node → Outcome Node
unfolding purge_chain purge_bounds purge_order purge_seen each_key
purge_discoveries n =
    let limit = sub_ℤ n.now n.config.discovery_expiry in
    each_key (purge_chain limit) (keys n.chain_discoveries) n >>= λ n1.
    each_key (purge_bounds limit) (keys n1.bounds_discoveries) n1 >>= λ n2.
    each_key (purge_order limit) (keys n2.order_discoveries) n2 >>= λ n3.
    done (record n3 { flood_seen = purge_seen limit n3.flood_seen })

-- The purge timer fires: purge, and arm it again.
unfoldable pub on_purge_timer : Node → Outcome Node
unfolding purge_discoveries schedule_purge_timer
on_purge_timer n = purge_discoveries n >>= λ n1. done (schedule_purge_timer n1)

-- The timer of a chain fires: a clock event, and the timer again.
unfoldable pub on_clock_timer : Env → ℕ → ℤ → Node → Node
on_clock_timer env chain interval n =
    emit (arm (clock_timer chain) interval) (create_clock_event env chain n)
