-- ===== src/Node/Forwarding.antt =====
-- src/core/node.cpp: sending, forwarding and answering chain requests and responses, and the clock
-- notifications.
use loti.Base.{ℕ, ◌+◌, ◌-◌, ◌%◌, ◌^◌, Bool, true, false, not, ◌&&◌, ◌||◌, List, [], ◌∷◌, ◌++◌}
use loti.Base.{
  Option, none, some, length, get_elem?, set, take, replicate, leb, ltb, nat_eq, last?, init,
}
use loti.Base.{if◌then◌else◌, pos}
use loti.Base.Key.{bytes_eq, bytes_key, pair_key}
use loti.Base.Table.{Table, lookup, insert}
use loti.Domain.{Bytes, NodeId, EventHash, TimeRange, EventReference, Event, EventChain, Neighbor}
use loti.Wire.Result.{ok, err}
use loti.Wire.Packets.{
  ClockNotification, ChainRequest, ChainResponse, clock_notification, chain_request, chain_response,
  encode, decode, Payload,
}
use loti.Validate.{references}
use loti.Routing.{
  member, is_some, static_next_hops, history_next_hops, table_next_hops, sample_next_hops,
}
use loti.Store
use loti.Store.{Store}
use loti.Node.Outcome.{Outcome, done, fault, out_of_range, ◌>>=◌}
use loti.Node.State.{
  Node, Env, Effect, send, emit, FloodSeen, static_shortest_path, flood, ChainEntry,
}
use loti.Node.Bounds.{add_local_lower_bound, add_local_upper_bound, splice}
use loti.Node.Bookkeeping.{is_open, abort_chain_discovery, complete_chain_discovery}

-- `resize(size)`: new slots are empty hashes.
unfoldable pub resize : ℕ → List EventHash → List EventHash
resize size hs =
    if ltb (length hs) size then hs ++ replicate (size - length hs) [] else take size hs

-- The slot of the chain is made where it is missing; `chain + 1` is a `uint32_t`.
unfoldable pub grow : ℕ → List EventHash → List EventHash
unfolding resize
grow chain hs = if leb (length hs) chain then resize ((chain + 1) % 2 ^ 32) hs else hs

-- The neighbor's entry with the advertised tip, and whether that is news.
unfoldable pub learn_tip : Neighbor → ℕ → EventHash → Outcome (Neighbor × Bool)
unfolding grow
learn_tip nb chain tip =
    let slots = grow chain nb.last_clock_event_hashes in
    elim (get_elem? slots chain) [
      | none ↦ fault out_of_range
      | some old ↦
          done (record nb { last_clock_event_hashes = set slots chain tip }, not (bytes_eq old tip))
    ]

-- The learned reverse edge, on the clock event that the neighbor says it references.
unfoldable pub learn_edge : EventReference → EventHash → Store → Store
learn_edge edge ours s = elim (Store.clock_event_by_hash ours s) [
  | none ↦ s
  | some local ↦
      if references local.referencing_events edge
      then s
      else Store.update_clock_event
          (record local { referencing_events = local.referencing_events ++ (edge ∷ []) }) s
]

unfoldable pub process_clock_event_notification : Neighbor → ClockNotification → Node → Outcome Node
unfolding learn_tip learn_edge
process_clock_event_notification nb m n =
    learn_tip nb m.chain m.last_clock_event_hash >>= λ learned.
    let nb' = learned.0 in
    let s1 = if learned.1 then Store.put_neighbor nb' n.store else n.store in
    let edge : EventReference = record { creator = nb.node_id; hash = m.last_clock_event_hash } in
    done (record n {
      neighbors = insert nb.node_id nb' n.neighbors;
      store = learn_edge edge m.neighbor_last_clock_event_hash s1;
    })

-- The static policy: one hop, and no salt is drawn.
unfoldable pub static_hops : NodeId → Node → List NodeId
static_hops dest n = static_next_hops n.neighbors n.destination_to_next_hop dest

-- The candidates of the flood policy, before the cap: the routing table over the history.
unfoldable pub flood_candidates : NodeId → TimeRange → Node → List NodeId
flood_candidates dest range n =
    table_next_hops n.timed_routes
      (history_next_hops n.id n.neighbors (Store.load_clock_events n.store) range) dest range

module _ (env : Env) where
  -- `next_salt`, from the number of salts drawn.
  abbrev pub next_salt : ℕ → ℕ × ℕ
  next_salt drawn = (env.draw drawn, drawn + 1)

  -- `router_->next_hops(dest, ctx)`, and the node with the salts drawn.
  unfoldable pub next_hops : NodeId → TimeRange → Node → List NodeId × Node
  unfolding static_hops flood_candidates
  next_hops dest range n = elim n.config.discovery_routing [
    | static_shortest_path ↦ (static_hops dest n, n)
    | flood ↦
        let (hops, drawn) =
          sample_next_hops next_salt n.config.discovery_fanout (flood_candidates dest range n)
            n.salts_drawn in
        (hops, record n { salts_drawn = drawn })
  ]

-- `hop == id_ || contains(incoming, hop)`, or no neighbor: no copy is sent there.
unfoldable pub skipped : NodeId → List NodeId → Table NodeId Neighbor → NodeId → Bool
skipped id incoming neighbors hop =
    bytes_eq hop id || (member hop incoming || not (is_some (lookup hop neighbors)))

-- The copies of a request, one for each hop that is not skipped.
unfoldable pub copies :
    NodeId → List NodeId → Table NodeId Neighbor → ChainRequest → List NodeId → List Effect
unfolding skipped
copies id incoming neighbors m [] = []
copies id incoming neighbors m (hop ∷ hops) =
    let rest = copies id incoming neighbors m hops in
    if skipped id incoming neighbors hop
    then rest
    else send hop (encode id (chain_request m)) ∷ rest

module _ (env : Env) where
  -- `base` goes out with this node appended to its breadcrumb.
  unfoldable pub flood_chain_request : NodeId → TimeRange → ChainRequest → Node → Node
  unfolding next_hops copies
  flood_chain_request dest range base n =
      let (hops, n') = next_hops env dest range n in
      let out : ChainRequest = record base { path = base.path ++ (n.id ∷ []) } in
      record n' { effects = n'.effects ++ copies n.id base.path n.neighbors out hops }

-- The response goes one hop back along the breadcrumb, without that hop.
unfoldable pub send_chain_response_retrace : NodeId → EventChain → List NodeId → Node → Node
send_chain_response_retrace originator chain path n = elim (last? path) [
  | none ↦ n
  | some next ↦
      if is_some (lookup next n.neighbors)
      then emit
          (send next (
            encode n.id (
              chain_response
                (record { originator = originator; chain = chain; path = init path }))))
          n
      else n
]

-- The spliced chain is sent on; a step that failed sends nothing.
unfoldable pub retrace_spliced : NodeId → List NodeId → Node → Option EventChain → Node
unfolding send_chain_response_retrace
retrace_spliced originator path n none = n
retrace_spliced originator path n (some chain) = send_chain_response_retrace originator chain path n

abbrev pub seed : Event → EventChain
seed event = record { event = event; lower_bound = []; upper_bound = [] }

-- The creator's branch of `process_chain_request`.
unfoldable pub answer_request : Neighbor → ChainRequest → Node → Outcome Node
unfolding retrace_spliced
answer_request sender m n = elim (Store.event_by_hash m.event.hash n.store) [
  | none ↦ done n
  | some local ↦ splice n.id n.store sender.node_id (seed local) >>= λ r.
      done (retrace_spliced m.originator m.path n r)
]

-- `flood_seen_[{originator, hash}]`, which a missing key starts at zero.
unfoldable pub seen_of : NodeId × EventHash → Node → FloodSeen
seen_of key n = elim (lookup key n.flood_seen) [
  | none ↦ record { first_seen = pos 0; forwards = 0 }
  | some seen ↦ seen
]

-- The fan-in cap: the node with the entry, and whether this copy may go on.
unfoldable pub count_forward : NodeId × EventHash → Node → Node × Bool
unfolding seen_of
count_forward key n =
    let seen = seen_of key n in
    let first = if nat_eq seen.forwards 0 then n.now else seen.first_seen in
    let store_seen = λ (f : ℕ). record n {
      flood_seen = insert key (record { first_seen = first; forwards = f }) n.flood_seen;
    } in
    if leb n.config.discovery_forward_cap seen.forwards
    then (store_seen seen.forwards, false)
    else (store_seen (seen.forwards + 1), true)

-- `discovery.chain = chain` on the entry of the hash.
unfoldable pub set_chain : EventHash → EventChain → ChainEntry → Node → Node
set_chain hash chain e n = record n {
  chain_discoveries =
      insert hash (record e { discovery = record (e.discovery) { chain = chain } })
        n.chain_discoveries;
}

-- `m.hop_limit > 0 && m.path.size() >= m.hop_limit`
unfoldable pub at_hop_limit : ChainRequest → Bool
at_hop_limit m = ltb 0 m.hop_limit && leb m.hop_limit (length m.path)

module _ (env : Env) where
  -- The intermediate's branch of `process_chain_request`.
  unfoldable pub forward_request : ChainRequest → Node → Node
  unfolding flood_chain_request count_forward at_hop_limit
  forward_request m n =
      if member n.id m.path || at_hop_limit m
      then n
      else if nat_eq n.config.discovery_forward_cap 0
      then flood_chain_request env m.event.creator m.range m n
      else (let (n', go) = count_forward (m.originator, m.event.hash) n in
          if go then flood_chain_request env m.event.creator m.range m n' else n')

  unfoldable pub process_chain_request : Neighbor → ChainRequest → Node → Outcome Node
  unfolding answer_request forward_request
  process_chain_request sender m n =
      if bytes_eq m.event.creator n.id
      then answer_request sender m n
      else done (forward_request m n)

  -- Both local ends are added to the chain of the discovery: complete, or abort with what there is.
  unfoldable pub close_discovery : EventHash → EventChain → ChainEntry → Node → Outcome Node
  unfolding set_chain
  close_discovery hash chain e n = elim (add_local_lower_bound n.id n.store chain) [
    | none ↦ abort_chain_discovery hash (set_chain hash chain e n)
    | some lower ↦ add_local_upper_bound n.store lower >>= λ r. elim r [
      | none ↦ abort_chain_discovery hash (set_chain hash lower e n)
      | some closed ↦ complete_chain_discovery env hash (set_chain hash closed e n)
    ]
  ]

  -- The originator's branch of `process_chain_response`.
  unfoldable pub take_response : ChainResponse → Node → Outcome Node
  unfolding close_discovery
  take_response m n = elim (lookup m.chain.event.hash n.chain_discoveries) [
    | none ↦ done n
    | some e ↦
        if is_open e.discovery.state then close_discovery m.chain.event.hash m.chain e n else done n
  ]

-- The intermediate's branch of `process_chain_response`.
unfoldable pub pass_response : Neighbor → ChainResponse → Node → Outcome Node
unfolding retrace_spliced
pass_response sender m n = elim m.path [
  | [] ↦ done n
  | hop ∷ hops ↦ splice n.id n.store sender.node_id m.chain >>= λ r.
      done (retrace_spliced m.originator m.path n r)
]

module _ (env : Env) where
  unfoldable pub process_chain_response : Neighbor → ChainResponse → Node → Outcome Node
  unfolding take_response pass_response
  process_chain_response sender m n =
      if bytes_eq m.originator n.id then take_response env m n else pass_response sender m n

  unfoldable pub dispatch : Neighbor → Payload → Node → Outcome Node
  unfolding process_chain_request process_chain_response
  dispatch nb (clock_notification m) n = process_clock_event_notification nb m n
  dispatch nb (chain_request m) n = process_chain_request env nb m n
  dispatch nb (chain_response m) n = process_chain_response nb m n

  -- A datagram that does not decode, or that no neighbor sent, is dropped.
  unfoldable pub on_packet_received : Bytes → Node → Outcome Node
  unfolding dispatch
  on_packet_received datagram n = elim (decode datagram) [
    | err e ↦ done n
    | ok dg ↦ elim (lookup dg.sender n.neighbors) [
      | none ↦ done n
      | some nb ↦ dispatch nb dg.payload n
    ]
  ]
