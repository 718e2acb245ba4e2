-- ===== src/Node/Requests.antt =====
-- src/core/node.cpp: no request of an application completes a chain discovery with an unsound chain.
use loti.Base.{ℕ, ◌≡◌, refl, arith, ap, ◌∙◌, pos, true, [], ◌∷◌, ◌++◌, none, some}
use loti.Base.{Bool-cases, inl, inr, Option-cases, ◌⊎◌}
use loti.Base.Key.{bytes_key, bytes_eq, bytes_eq_iff, pair_key}
use loti.Base.Table.{lookup, insert, emplace, lookup-insert}
use loti.Domain.{
  NodeId, EventHash, Event, all_time, TimeRange, DiscoveryState, in_progress, aborted, completed,
}
use loti.Node.Outcome.{done}
use loti.Node.State.{
  Node, Env, ChainEntry, ChainCallback, node_itself, emit, chain_started, order_started,
}
use loti.Node.Bookkeeping.{
  is_open, is_completed, insert_chain_discovery, insert_bounds_discovery, insert_order_discovery,
  new_order, OrderKey,
}
use loti.Node.Completion.{
  Outcome-cases, Keeps-tell_aborted, Keeps-tell_completed, CompletedSound, CompletedSound-insert,
}
use loti.Node.Completed.{CompletedSound-Same, close-CompletedSound, flood-Same}
use loti.Node.Api.{
  join_chain, set_range, start_chain, request_for, discover_event_chain, discover_event_bounds,
  discover_event_order,
}

State-cases : (s : DiscoveryState) → (s ≡ in_progress) ⊎ ((s ≡ aborted) ⊎ (s ≡ completed))
State-cases in_progress = inl refl
State-cases aborted = inr (inl refl)
State-cases completed = inr (inr refl)

abbrev new_entry : Event → NodeId → ChainCallback → Node → ChainEntry
new_entry event originator callback n = record {
  discovery = record {
    start_time = n.now;
    end_time = pos 0;
    originator = originator;
    event = event;
    range = all_time;
    chain = record { event = event; lower_bound = []; upper_bound = [] };
    state = in_progress;
  };
  callbacks = callback ∷ [];
}

-- A new discovery is in progress.
insert_chain-inserts :
    (event : Event) (originator : NodeId) (callback : ChainCallback) (n : Node)
    → lookup event.hash n.chain_discoveries ≡ none
    → (e : ChainEntry) × (is_open e.discovery.state ≡ true)
      × ((insert_chain_discovery event originator callback n).chain_discoveries
          ≡ insert event.hash e n.chain_discoveries)
      × ((insert_chain_discovery event originator callback n).id ≡ n.id)
unfolding insert_chain_discovery emplace is_open
insert_chain-inserts event originator callback n new = (
  new_entry event originator callback n,
  refl,
  rw (insert_chain_discovery, emplace, new) refl,
  refl,
)

open-not_completed :
    (e : ChainEntry) → is_open e.discovery.state ≡ true → ¬ (is_completed e.discovery.state ≡ true)
unfolding is_open is_completed
open-not_completed e o c = ground (arith, o, c)

module _ (env : Env) where
  join_chain-CompletedSound :
      (event : Event) (callback : ChainCallback) (e : ChainEntry) (n n' : Node)
      → join_chain event callback e n ≡ done n'
      → CompletedSound env n
      → CompletedSound env n'
  unfolding join_chain is_completed
  join_chain-CompletedSound event callback e n n' h s = elim (State-cases e.discovery.state) [
    | inl going ↦
        let ends = rw (join_chain, going) at h in
        CompletedSound-insert env n n' event.hash
          (record e { callbacks = e.callbacks ++ (callback ∷ []) }) (cc ends) (cc ends)
          (λ c. ground (arith, going, c)) s
    | inr (inl gone) ↦
        CompletedSound-Same env n n'
          ((Keeps-tell_aborted event callback).at n n' (rw (join_chain, gone) at h)) s
    | inr (inr shut) ↦
        CompletedSound-Same env n n'
          ((Keeps-tell_completed event e.discovery.chain callback).at n n'
            (rw (join_chain, shut) at h))
          s
  ]

  insert_chain-CompletedSound :
      (event : Event) (originator : NodeId) (callback : ChainCallback) (n : Node)
      → lookup event.hash n.chain_discoveries ≡ none
      → CompletedSound env n
      → CompletedSound env (insert_chain_discovery event originator callback n)
  insert_chain-CompletedSound event originator callback n new s =
      let (e, o, written, same) = insert_chain-inserts event originator callback n new in
      CompletedSound-insert env n _ event.hash e written same
        (λ c. absurd (open-not_completed e o c)) s

  set_range-CompletedSound :
      (hash : EventHash) (range : TimeRange) (e : ChainEntry) (n : Node)
      → is_open e.discovery.state ≡ true
      → CompletedSound env n
      → CompletedSound env (set_range hash range e n)
  unfolding set_range is_open is_completed
  set_range-CompletedSound hash range e n o s =
      CompletedSound-insert env n (set_range hash range e n) hash
        (record e { discovery = record (e.discovery) { range = range } }) refl refl
        (λ c. ground arith) s

  start_chain-CompletedSound :
      (event : Event) (range : TimeRange) (e : ChainEntry) (n n' : Node)
      → is_open e.discovery.state ≡ true
      → start_chain env event range e n ≡ done n'
      → CompletedSound env n
      → CompletedSound env n'
  unfolding start_chain set_range
  start_chain-CompletedSound event range e n n' o h s =
      let e' : ChainEntry = record e { discovery = record (e.discovery) { range = range } } in
      let n1 : Node = emit (chain_started e'.discovery) (set_range event.hash range e n) in
      let s1 =
        CompletedSound-Same env (set_range event.hash range e n) n1 (refl, refl)
          (set_range-CompletedSound event.hash range e n o s) in
      elim (Bool-cases (bytes_eq event.creator n.id)) [
        | inl own ↦
            close-CompletedSound env event.hash e'.discovery.chain e' n1 n' o
              (rw (start_chain, own) at h) s1
        | inr other ↦
            let ends = rw (start_chain, other) at h in
            let same = flood-Same env event.creator range (request_for env event range n1) n1 in
            CompletedSound-Same env n1 n' (cc (ends, same.0), cc (ends, same.1)) s1
      ]

  -- The new entry is in progress.
  new_entry-open :
      (event : Event) (originator : NodeId) (callback : ChainCallback) (n : Node) (e : ChainEntry)
      → lookup event.hash n.chain_discoveries ≡ none
      → lookup event.hash (insert_chain_discovery event originator callback n).chain_discoveries
        ≡ some e
      → is_open e.discovery.state ≡ true
  new_entry-open event originator callback n e new found =
      let (x, o, written, same) = insert_chain-inserts event originator callback n new in
      let reads =
        ap (lookup event.hash) written
        ∙ lookup-insert event.hash event.hash x n.chain_discoveries in
      ground (arith, reads, found, o, bytes_eq_iff event.hash event.hash)

  pub discover_event_chain-CompletedSound :
      (event : Event) (range : TimeRange) (callback : ChainCallback) (n n' : Node)
      → discover_event_chain env event range callback n ≡ done n'
      → CompletedSound env n
      → CompletedSound env n'
  unfolding discover_event_chain
  discover_event_chain-CompletedSound event range callback n n' h s =
      elim (Option-cases (lookup event.hash n.chain_discoveries)) [
        | inr (e, found) ↦
            join_chain-CompletedSound event callback e n n' (rw (discover_event_chain, found) at h)
              s
        | inl new ↦
            let n1 = insert_chain_discovery event n.id callback n in
            elim (Option-cases (lookup event.hash n1.chain_discoveries)) [
              | inl lost ↦ cc (rw (discover_event_chain, new, lost) at h)
              | inr (e, found) ↦
                  start_chain-CompletedSound event range e n1 n'
                    (new_entry-open event n.id callback n e new found)
                    (rw (discover_event_chain, new, found) at h)
                    (insert_chain-CompletedSound event n.id callback n new s)
            ]
      ]

  pub discover_event_bounds-CompletedSound :
      (event : Event) (range : TimeRange) (callback : ℕ) (n n' : Node)
      → discover_event_bounds env event range callback n ≡ done n'
      → CompletedSound env n
      → CompletedSound env n'
  unfolding discover_event_bounds insert_bounds_discovery
  discover_event_bounds-CompletedSound event range callback n n' h s =
      elim (Option-cases (lookup event.hash n.bounds_discoveries)) [
        | inr (e, found) ↦ CompletedSound-Same env n n' (ground arith) s
        | inl new ↦
            discover_event_chain-CompletedSound event range node_itself _ n'
              (rw (discover_event_bounds, new) at h) (CompletedSound-Same env n _ (refl, refl) s)
      ]

  pub discover_event_order-CompletedSound :
      (event1 event2 : Event) (range : TimeRange) (callback : ℕ) (n n' : Node)
      → discover_event_order env event1 event2 range callback n ≡ done n'
      → CompletedSound env n
      → CompletedSound env n'
  unfolding discover_event_order insert_order_discovery
  discover_event_order-CompletedSound event1 event2 range callback n n' h s =
      let key : OrderKey = (event1.hash, event2.hash) in
      elim (Option-cases (lookup key n.order_discoveries)) [
        | inr (e, found) ↦ CompletedSound-Same env n n' (ground arith) s
        | inl new ↦
            let begun =
              emit (order_started (new_order event1 event2 n))
                (insert_order_discovery event1 event2 callback n) in
            let h' = rw (discover_event_order, new) at h in
            elim (Outcome-cases (discover_event_chain env event1 range node_itself begun)) [
              | inr (x, e1) ↦ cc (rw e1 at h')
              | inl (n1, e1) ↦
                  discover_event_chain-CompletedSound event2 range node_itself n1 n' (rw e1 at h') (
                    discover_event_chain-CompletedSound event1 range node_itself begun n1 e1
                      (CompletedSound-Same env n begun (refl, refl) s))
            ]
      ]
