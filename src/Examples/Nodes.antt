-- ===== src/Examples/Nodes.antt =====
-- Examples of the node's handlers.
use loti.Base.{
  ℕ, ◌≡◌, ◌≤◌, ◌<◌, ◌-◌, ◌^◌, ◌++◌, refl, arith, true, false, List, [], ◌∷◌, none, some, Option,
  pos, replicate,
}
use loti.Base.Key.{bytes_eq, bytes_key, pair_key, nat_key}
use loti.Base.Table.{lookup}
use loti.Domain.{
  EventHash, Event, LocalClockEvent, ClockEvent, EventChain, EventChainDiscovery,
  EventBoundsDiscovery, aborted, Neighbor,
}
use loti.Validate.{verify_chain}
use loti.Validate.Encloses.{IsAuthentic}
use loti.Hash.{calculate_clock_event_hash}
use loti.Wire.Packets.{encode, clock_notification, ClockNotification, decode}
use loti.Store
use loti.Store.Lookups.{IsNumbered}
use loti.Wire.Result.{ok}
use loti.Wire.Packets.RoundTrip.{decode-encode}
use loti.Node.Bookkeeping.{is_open}
use loti.Node.Outcome.{done, fault, assertion, out_of_range}
use loti.Node.State.{Node, ChainEntry, BoundsEntry}
use loti.Node.Dag.{make_clock_event}
use loti.Node.Bounds.{extend_lower_bound_for_neighbor, find_own}
use loti.Node.Bounds.Ends.{Descends, extend_lower_bound_for_neighbor-ends}
use loti.Node.Forwarding.{on_packet_received, learn_tip, forward_request}
use loti.Node.Completion.{CompletedSound}
use loti.Node.Completed.{on_packet_received-CompletedSound}
use loti.Node.Flood.{Forwards, forward_request-Forwards}
use loti.Node.Notifications.{Learned, learn_tip-Learned, learn_tip_wraps}
use loti.Node.Enclosure.{between_ticks, published_at, verify_chain-between_ticks}
use loti.Node.Api.{discover_event_order}
use loti.Node.Aborts.{discover_event_order_asserts}
use loti.Examples.{
  toy_hash, toy_verify, toy_env, me, peer, far, first_tick, the_event, the_chain, local, one_to_ten,
  peer_entry, quiet, ticked, ticked_store,
}

-- A notification of a tip on chain 0 from the peer.
abbrev tip_notice : ClockNotification
tip_notice = record {
  chain = 0;
  last_clock_event_hash = 3 ∷ [];
  neighbor_last_clock_event_hash = [];
}

quiet-CompletedSound : CompletedSound toy_env quiet
unfolding lookup
quiet-CompletedSound = record { at = λ hash e found c. cc }

forward_request-Forwards_example :
    Forwards toy_env
      (record {
        originator = far;
        event = record { creator = far; hash = 1 ∷ [] };
        range = one_to_ten;
        hop_limit = 4;
        path = peer ∷ [];
      })
      ticked
      (forward_request toy_env
        (record {
          originator = far;
          event = record { creator = far; hash = 1 ∷ [] };
          range = one_to_ten;
          hop_limit = 4;
          path = peer ∷ [];
        })
        ticked)
forward_request-Forwards_example =
    forward_request-Forwards toy_env
      (record {
        originator = far;
        event = record { creator = far; hash = 1 ∷ [] };
        range = one_to_ten;
        hop_limit = 4;
        path = peer ∷ [];
      })
      ticked

learn_tip-Learned_example : Learned peer_entry 2 (3 ∷ [])
learn_tip-Learned_example = learn_tip-Learned peer_entry 2 (3 ∷ []) (omega arith)

learn_tip_wraps_example : learn_tip peer_entry (2 ^ 32 - 1) (3 ∷ []) ≡ fault out_of_range
learn_tip_wraps_example = learn_tip_wraps peer_entry (3 ∷ []) (omega arith)

first_tip : Store.latest_on_chain 0 ticked.store ≡ some (local first_tick)
unfolding Store.latest_on_chain lookup
first_tip = refl

first_tick-IsAuthentic : IsAuthentic toy_hash toy_verify first_tick
unfolding calculate_clock_event_hash loti.Hash.clock_event_preimage loti.Hash.write_u64_be
    loti.Hash.write_refs loti.Domain.be_bytes bytes_eq
first_tick-IsAuthentic = record { hash = refl; signature = refl }

verify_chain-between_ticks_example :
    verify_chain toy_hash toy_verify
      (between_ticks toy_env (pos 20) (7 ∷ []) 0 (local first_tick) ticked)
      me
    ≡ record {
      ok = true;
      reason = none;
      lower = pos 5;
      upper =
          (make_clock_event toy_env (published_at toy_env (pos 20) (7 ∷ []) ticked) 0).timestamp;
    }
verify_chain-between_ticks_example =
    verify_chain-between_ticks toy_env (pos 20) (7 ∷ []) 0 (local first_tick) ticked
      loti.Base.Key.bytes_eq_refl (omega arith) (omega arith) first_tip first_tick-IsAuthentic refl

abbrev after_notice : Node
after_notice = record quiet {
  neighbors = (peer, record { node_id = peer; last_clock_event_hashes = (3 ∷ []) ∷ [] }) ∷ [];
  store =
      Store.put_neighbor (record { node_id = peer; last_clock_event_hashes = (3 ∷ []) ∷ [] })
        Store.empty;
}

notice-decodes :
    decode (encode peer (clock_notification tip_notice) ++ [])
    ≡ ok (record { sender = peer; payload = clock_notification tip_notice })
notice-decodes =
    decode-encode peer (clock_notification tip_notice) [] refl
      (record { chain = omega arith; last = omega arith; neighbor_last = omega arith })

notice-received :
    on_packet_received toy_env (encode peer (clock_notification tip_notice) ++ []) quiet
    ≡ done after_notice
unfolding on_packet_received loti.Node.Forwarding.dispatch
    loti.Node.Forwarding.process_clock_event_notification learn_tip loti.Node.Forwarding.learn_edge
    loti.Node.Forwarding.grow loti.Node.Forwarding.resize lookup loti.Base.Table.insert bytes_eq
    Store.clock_event_by_hash Store.put_neighbor
notice-received = rw (notice-decodes, on_packet_received) refl

on_packet_received-CompletedSound_example : CompletedSound toy_env after_notice
on_packet_received-CompletedSound_example =
    on_packet_received-CompletedSound toy_env (encode peer (clock_notification tip_notice) ++ [])
      quiet after_notice notice-received quiet-CompletedSound

ticked-IsNumbered : IsNumbered ticked_store
unfolding lookup bytes_eq
ticked-IsNumbered = record {
  live = λ q c h. ground arith;
  named = λ k q h. ground arith;
  tips = λ chain q h. ground arith;
}

ticked-Descends : Descends me ticked_store
unfolding lookup find_own
ticked-Descends = record { below = λ q c prev h f. ground arith }

tick_stored : Store.clock_event_by_hash (24 ∷ []) ticked_store ≡ some (local first_tick)
unfolding Store.clock_event_by_hash lookup bytes_eq
tick_stored = refl

extend_lower_bound_for_neighbor-ends_example :
    (r : Option EventChain) × (extend_lower_bound_for_neighbor me ticked_store peer the_chain
      ≡ done r)
extend_lower_bound_for_neighbor-ends_example =
    extend_lower_bound_for_neighbor-ends me ticked_store peer the_chain first_tick
      (local first_tick) ticked-IsNumbered ticked-Descends refl (loti.Base.Key.bytes_eq_refl me)
      tick_stored

abbrev gone_chain : ChainEntry
gone_chain = record {
  discovery = record {
    start_time = pos 1;
    end_time = pos 2;
    originator = me;
    event = the_event;
    range = one_to_ten;
    chain = the_chain;
    state = aborted;
  };
  callbacks = [];
}

abbrev gone_bounds : BoundsEntry
gone_bounds = record {
  discovery = record {
    start_time = pos 1;
    end_time = pos 2;
    event = the_event;
    lower_bound = pos 0;
    upper_bound = pos 0;
    state = aborted;
  };
  callbacks = [];
}

-- A node whose bounds discovery of the event was aborted, and its chain discovery with it.
abbrev gave_up : Node
gave_up = record quiet {
  chain_discoveries = (26 ∷ [], gone_chain) ∷ [];
  bounds_discoveries = (26 ∷ [], gone_bounds) ∷ [];
}

no_order_yet : lookup (the_event.hash, the_event.hash) gave_up.order_discoveries ≡ none
unfolding lookup
no_order_yet = refl

chain_gone : lookup the_event.hash gave_up.chain_discoveries ≡ some gone_chain
unfolding lookup bytes_eq
chain_gone = refl

bounds_gone : lookup the_event.hash gave_up.bounds_discoveries ≡ some gone_bounds
unfolding lookup bytes_eq
bounds_gone = refl

bounds_over : is_open gone_bounds.discovery.state ≡ false
unfolding is_open
bounds_over = refl

discover_event_order_asserts_example :
    discover_event_order toy_env the_event the_event one_to_ten 1 gave_up ≡ fault assertion
discover_event_order_asserts_example =
    discover_event_order_asserts toy_env the_event the_event one_to_ten 1 gone_chain gone_bounds
      gave_up no_order_yet chain_gone refl bounds_gone bounds_over
