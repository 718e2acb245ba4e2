-- ===== src/Node/Dag.antt =====
-- src/core/node.cpp: publishing events and creating clock events.
use loti.Base.{
  ℕ, zero, suc, ◌+◌, Bool, true, false, not, ◌&&◌, List, [], ◌∷◌, ◌++◌, Option, none, some,
}
use loti.Base.{length, get_elem?, set, ltb, ltb_ℤ, if◌then◌else◌, map}
use loti.Base.Table.{Table}
use loti.Domain.{
  Bytes, NodeId, Timestamp, EventReference, Event, ClockEvent, LocalClockEvent, Neighbor, EventHash,
}
use loti.Hash.{calculate_event_hash, calculate_clock_event_hash}
use loti.Wire.Packets.{clock_notification, encode}
use loti.Store
use loti.Store.{Store}
use loti.Node.State.{Node, Env, ChainConfig, Effect, send, emit, event_created, clock_event_created}

-- `last_clock_event_hashes[chain]`, empty where the neighbor has no such slot.
unfoldable pub tip_of : ℕ → Neighbor → EventHash
tip_of chain n = elim (get_elem? n.last_clock_event_hashes chain) [ none ↦ [] | some h ↦ h ]

unfoldable pub is_blank : Bytes → Bool
is_blank [] = true
is_blank (b ∷ bs) = false

-- The first `n` chains' tips, from chain `chain` on: the lower anchors of an event.
unfoldable pub anchors : ℕ → ℕ → Store → List EventReference
anchors zero chain s = []
anchors (suc n) chain s =
    let rest = anchors n (chain + 1) s in
    elim (Store.latest_on_chain chain s) [
      | none ↦ rest
      | some tip ↦ record { creator = tip.creator; hash = tip.hash } ∷ rest
    ]

-- (b) each neighbor's tip on the same chain
unfoldable pub neighbor_refs : ℕ → Table NodeId Neighbor → List EventReference
unfolding tip_of is_blank
neighbor_refs chain [] = []
neighbor_refs chain ((nid, n) ∷ m) =
    let rest = neighbor_refs chain m in
    if ltb chain (length n.last_clock_event_hashes) && not (is_blank (tip_of chain n))
    then record { creator = n.node_id; hash = tip_of chain n } ∷ rest
    else rest

-- (c) the events published since this chain's last tick
abbrev pub event_refs : List Event → List EventReference
event_refs [] = []
event_refs (e ∷ es) = record { creator = e.creator; hash = e.hash } ∷ event_refs es

-- (a) the previous clock event of the chain
unfoldable pub previous_refs : Option LocalClockEvent → List EventReference
previous_refs none = []
previous_refs (some last) = record { creator = last.creator; hash = last.hash } ∷ []

-- `if (stamp < last->timestamp) stamp = last->timestamp;`
unfoldable pub clamp : Option LocalClockEvent → Timestamp → Timestamp
clamp none stamp = stamp
clamp (some last) stamp = if ltb_ℤ stamp last.timestamp then last.timestamp else stamp

-- `unreferenced_per_chain_[chain]`
unfoldable pub tail_of : ℕ → Node → List Event
tail_of chain n = elim (get_elem? n.unreferenced_per_chain chain) [ none ↦ [] | some es ↦ es ]

-- The notification of a new tip to one neighbor.
unfoldable pub notification : NodeId → Neighbor → ClockEvent → Effect
unfolding tip_of
notification id n c = send n.node_id (
    encode id (
      clock_notification (record {
        chain = c.chain;
        last_clock_event_hash = c.hash;
        neighbor_last_clock_event_hash = tip_of c.chain n;
      })))

unfoldable pub notifications : NodeId → ClockEvent → Table NodeId Neighbor → List Effect
unfolding notification
notifications id c [] = []
notifications id c ((nid, n) ∷ m) = notification id n c ∷ notifications id c m

-- The `keep` of a chain, 0 (unbounded) past the configured chains.
unfoldable pub keep_of : ℕ → List ChainConfig → ℕ
keep_of chain configs = elim (get_elem? configs chain) [ none ↦ 0 | some c ↦ c.keep ]

module _ (env : Env) where
  -- The event that `insert_event` makes: hashed, then signed.
  unfoldable pub make_event : Node → Bytes → Event
  unfolding anchors
  make_event n content =
      let unsealed : Event = record {
        creator = n.id;
        hash = [];
        content = content;
        salt = env.draw n.salts_drawn;
        referenced_events = anchors n.num_chains 0 n.store;
        signature = [];
      } in
      let hash = calculate_event_hash env.sha256 unsealed in
      record unsealed { hash = hash; signature = env.sign hash }

  unfoldable pub insert_event : Bytes → Node → Event × Node
  unfolding make_event
  insert_event content n =
      let e = make_event n content in
      (e, record n { salts_drawn = n.salts_drawn + 1; store = (Store.append_event e n.store).1 })

  unfoldable pub publish_event : Bytes → Node → Event × Node
  unfolding insert_event
  publish_event content n =
      let (e, n') = insert_event content n in
      (
        e,
        emit (event_created e) (record n' {
          unreferenced_per_chain = map (λ es. es ++ (e ∷ [])) n'.unreferenced_per_chain;
        }),
      )

  -- The clock event that `insert_clock_event` makes.
  unfoldable pub make_clock_event : Node → ℕ → LocalClockEvent
  unfolding previous_refs neighbor_refs tail_of clamp
  make_clock_event n chain =
      let last = Store.latest_on_chain chain n.store in
      let unsealed : ClockEvent = record {
        creator = n.id;
        hash = [];
        chain = chain;
        timestamp = clamp last n.now;
        salt = env.draw n.salts_drawn;
        referenced_events =
            previous_refs last ++ (neighbor_refs chain n.neighbors ++ event_refs (tail_of chain n));
        signature = [];
      } in
      let hash = calculate_clock_event_hash env.sha256 unsealed in
      record {
        base = record unsealed { hash = hash; signature = env.sign hash };
        referencing_events = [];
      }

  unfoldable pub insert_clock_event : ℕ → Node → LocalClockEvent × Node
  unfolding make_clock_event
  insert_clock_event chain n =
      let c = make_clock_event n chain in
      (
        c,
        record n {
          salts_drawn = n.salts_drawn + 1;
          store = (Store.append_clock_event c n.store).1;
        },
      )

  -- Append, clear this chain's tail, notify the neighbors, prune.
  unfoldable pub create_clock_event : ℕ → Node → Node
  unfolding insert_clock_event notifications keep_of
  create_clock_event chain n =
      let (c, n') = insert_clock_event chain n in
      record n' {
        unreferenced_per_chain = set n'.unreferenced_per_chain chain [];
        effects =
            n'.effects ++ (clock_event_created c.base ∷ notifications n'.id c.base n'.neighbors);
        store = Store.prune_chain chain (keep_of chain n'.config.chains) n'.store;
      }

-- The rings of the chains from `chain` on are cut to their sizes.
unfoldable pub gc_loop : ℕ → List ChainConfig → Store → Store
gc_loop chain [] s = s
gc_loop chain (c ∷ cs) s = gc_loop (chain + 1) cs (Store.prune_chain chain c.keep s)

unfoldable pub gc : Node → Node
unfolding gc_loop
gc n = record n { store = gc_loop 0 n.config.chains n.store }
