-- ===== src/Node/Aborts.antt =====
-- src/core/node.cpp: an abortion that is told to the node while a bounds discovery of the event is over.
use loti.Base.{◌≡◌, refl, false, none, some, arith, ℕ}
use loti.Base.Key.{bytes_key, pair_key}
use loti.Base.Table.{lookup}
use loti.Domain.{Event, EventHash, TimeRange, aborted}
use loti.Node.Outcome.{fault, assertion}
use loti.Node.State.{Node, Env, BoundsEntry, ChainEntry, node_itself, emit, order_started}
use loti.Node.Bookkeeping.{
  is_open, open_bounds, abort_bounds_discovery, give_up_bounds, node_on_chain_aborted, tell_aborted,
  insert_order_discovery, new_order,
}
use loti.Node.Api.{join_chain, discover_event_chain, discover_event_order}

abort_over :
    (hash : EventHash) (e : BoundsEntry) (n : Node)
    → lookup hash n.bounds_discoveries ≡ some e
    → is_open e.discovery.state ≡ false
    → abort_bounds_discovery hash n ≡ fault assertion
unfolding abort_bounds_discovery open_bounds
abort_over hash e n found over = ground (arith, found, over)

give_up_over :
    (hash : EventHash) (e : BoundsEntry) (n : Node)
    → lookup hash n.bounds_discoveries ≡ some e
    → is_open e.discovery.state ≡ false
    → give_up_bounds hash n ≡ fault assertion
unfolding give_up_bounds
give_up_over hash e n found over = ground (arith, abort_over hash e n found over, found)

-- The assertion of the state fails: the bounds discovery is there, but it is not in progress.
pub node_on_chain_aborted_asserts :
    (event : Event) (e : BoundsEntry) (n : Node)
    → lookup event.hash n.bounds_discoveries ≡ some e
    → is_open e.discovery.state ≡ false
    → node_on_chain_aborted event n ≡ fault assertion
unfolding node_on_chain_aborted
node_on_chain_aborted_asserts event e n found over =
    rw (node_on_chain_aborted, give_up_over event.hash e n found over) refl

join-aborted :
    (event : Event) (ce : ChainEntry) (n : Node)
    → ce.discovery.state ≡ aborted
    → join_chain event node_itself ce n ≡ node_on_chain_aborted event n
unfolding join_chain tell_aborted
join-aborted event ce n e = rw (join_chain, e) refl

discover_aborted :
    (env : Env) (event : Event) (range : TimeRange) (ce : ChainEntry) (be : BoundsEntry) (n : Node)
    → lookup event.hash n.chain_discoveries ≡ some ce
    → ce.discovery.state ≡ aborted
    → lookup event.hash n.bounds_discoveries ≡ some be
    → is_open be.discovery.state ≡ false
    → discover_event_chain env event range node_itself n ≡ fault assertion
unfolding discover_event_chain
discover_aborted env event range ce be n chain gone bounds over =
    rw
      (
        discover_event_chain,
        chain,
        join-aborted event ce n gone,
        node_on_chain_aborted_asserts event be n bounds over,
      )
      refl

-- An order discovery of two events, the first of which has a chain discovery that was aborted and a
-- bounds discovery that is over, stops at the assertion, unless the same order was asked for before.
pub discover_event_order_asserts :
    (env : Env) (event1 event2 : Event) (range : TimeRange) (callback : ℕ) (ce : ChainEntry)
    (be : BoundsEntry) (n : Node)
    → lookup (event1.hash, event2.hash) n.order_discoveries ≡ none
    → lookup event1.hash n.chain_discoveries ≡ some ce
    → ce.discovery.state ≡ aborted
    → lookup event1.hash n.bounds_discoveries ≡ some be
    → is_open be.discovery.state ≡ false
    → discover_event_order env event1 event2 range callback n ≡ fault assertion
unfolding discover_event_order insert_order_discovery
discover_event_order_asserts env event1 event2 range callback ce be n new chain gone bounds over =
    let asked : Node =
      emit (order_started (new_order event1 event2 n))
        (insert_order_discovery event1 event2 callback n) in
    rw
      (
        discover_event_order,
        new,
        discover_aborted env event1 range ce be asked chain gone bounds over,
      )
      refl
