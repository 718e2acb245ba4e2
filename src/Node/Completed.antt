-- ===== src/Node/Completed.antt =====
-- src/core/node.cpp: no call of the node completes a chain discovery with an unsound chain.
use loti.Base.{◌≡◌, refl, sym, ap, ◌∙◌, arith, true, false, List, Option, none, some}
use loti.Base.{Bool-cases, inl, inr, Option-cases}
use loti.Base.Key.{bytes_key, bytes_eq}
use loti.Base.Table.{lookup, insert}
use loti.Domain.{NodeId, Bytes, EventHash, EventChain, completed, aborted, TimeRange}
use loti.Validate.{verify_chain}
use loti.Wire.Result.{Result-cases}
use loti.Wire.Packets.{
  ChainRequest, ChainResponse, ClockNotification, Payload, clock_notification, chain_request,
  chain_response, decode,
}
use loti.Domain.{Neighbor, EventChainDiscovery}
use loti.Node.Outcome.{done}
use loti.Node.State.{Node, Env, ChainEntry}
use loti.Node.Bookkeeping.{
  is_open, is_completed, open_chain, each_key, tell_aborted, tell_completed, abort_chain_discovery,
  complete_chain_discovery,
}
use loti.Node.Completion.{
  Same, Outcome-cases, Keeps-each_key, Keeps-tell_aborted, Keeps-tell_completed, CompletedSound,
  CompletedSound-insert,
}
use loti.Node.Bounds.{add_local_lower_bound, add_local_upper_bound}
use loti.Node.Forwarding.{
  set_chain, close_discovery, take_response, process_clock_event_notification, retrace_spliced,
  send_chain_response_retrace, answer_request, pass_response, flood_chain_request, next_hops,
  forward_request, count_forward, dispatch, process_chain_request, process_chain_response,
  on_packet_received,
}

open_chain-eq :
    (o : Option ChainEntry) (e : ChainEntry)
    → open_chain o ≡ done e
    → (o ≡ some e) × (is_open e.discovery.state ≡ true)
unfolding open_chain
open_chain-eq none e h = cc
open_chain-eq (some x) e h = (ground arith, ground arith)

-- What an abortion leaves: the entry with its new state, and the rest of the discoveries.
abort_leaves :
    (hash : EventHash) (n n' : Node)
    → abort_chain_discovery hash n ≡ done n'
    → (e : ChainEntry) × (n'.chain_discoveries ≡ insert hash e n.chain_discoveries)
      × (n'.id ≡ n.id)
      × (is_completed e.discovery.state ≡ false)
unfolding abort_chain_discovery is_completed
abort_leaves hash n n' h = elim (Outcome-cases (open_chain (lookup hash n.chain_discoveries))) [
  | inr (x, eo) ↦ cc (rw (abort_chain_discovery, eo) at h)
  | inl (e, eo) ↦
      let d : EventChainDiscovery = record (e.discovery) { end_time = n.now; state = aborted } in
      let n1 : Node = record n {
        chain_discoveries = insert hash (record e { discovery = d }) n.chain_discoveries;
      } in
      elim (Outcome-cases (each_key (tell_aborted d.event) e.callbacks n1)) [
        | inr (x, et) ↦ cc (rw (abort_chain_discovery, eo, et) at h)
        | inl (n2, et) ↦
            let same =
              (Keeps-each_key (tell_aborted d.event) (Keeps-tell_aborted d.event) e.callbacks).at n1
                n2 et in
            let ends = rw (abort_chain_discovery, eo, et) at h in
            (record e { discovery = d }, cc (ends, same.0), cc (ends, same.1), refl)
      ]
]

module _ (env : Env) where
  pub abort-CompletedSound :
      (hash : EventHash) (n n' : Node)
      → abort_chain_discovery hash n ≡ done n'
      → CompletedSound env n
      → CompletedSound env n'
  abort-CompletedSound hash n n' h s =
      let (e, written, same, shut) = abort_leaves hash n n' h in
      CompletedSound-insert env n n' hash e written same (λ c. cc (shut, c)) s

  -- What leaves the discoveries and the identity alone keeps the invariant.
  pub CompletedSound-Same : (n n' : Node) → Same n n' → CompletedSound env n → CompletedSound env n'
  CompletedSound-Same n n' (table, id) s = record {
    at = λ hash e found c. rw id (s.at hash e (sym (ap (lookup hash) table) ∙ found) c);
  }

  -- A completion stores a chain that is accepted, or it aborts.
  complete-CompletedSound :
      (hash : EventHash) (n n' : Node)
      → complete_chain_discovery env hash n ≡ done n'
      → CompletedSound env n
      → CompletedSound env n'
  unfolding complete_chain_discovery
  complete-CompletedSound hash n n' h s =
      elim (Outcome-cases (open_chain (lookup hash n.chain_discoveries))) [
        | inr (x, eo) ↦ cc (rw (complete_chain_discovery, eo) at h)
        | inl (e, eo) ↦
            elim (Bool-cases (verify_chain env.sha256 env.verify e.discovery.chain n.id).ok) [
              | inr bad ↦
                  abort-CompletedSound hash n n' (rw (complete_chain_discovery, eo, bad) at h) s
              | inl good ↦
                  let d : EventChainDiscovery = record (e.discovery) {
                    end_time = n.now;
                    state = completed;
                  } in
                  let n1 : Node = record n {
                    chain_discoveries =
                        insert hash (record e { discovery = d }) n.chain_discoveries;
                  } in
                  elim (Outcome-cases (each_key (tell_completed d.event d.chain) e.callbacks n1)) [
                    | inr (x, et) ↦ cc (rw (complete_chain_discovery, eo, good, et) at h)
                    | inl (n2, et) ↦
                        let same =
                          (Keeps-each_key (tell_completed d.event d.chain)
                              (Keeps-tell_completed d.event d.chain) e.callbacks).at
                            n1 n2 et in
                        let ends = rw (complete_chain_discovery, eo, good, et) at h in
                        CompletedSound-insert env n n' hash (record e { discovery = d })
                          (cc (ends, same.0)) (cc (ends, same.1)) (λ c. good) s
                  ]
            ]
      ]

  -- A chain stored in a discovery that is in progress is not claimed.
  set_chain-CompletedSound :
      (hash : EventHash) (chain : EventChain) (e : ChainEntry) (n : Node)
      → is_open e.discovery.state ≡ true
      → CompletedSound env n
      → CompletedSound env (set_chain hash chain e n)
  unfolding set_chain is_open is_completed
  set_chain-CompletedSound hash chain e n o s =
      CompletedSound-insert env n (set_chain hash chain e n) hash
        (record e { discovery = record (e.discovery) { chain = chain } }) refl refl
        (λ c. ground arith) s

  pub close-CompletedSound :
      (hash : EventHash) (chain : EventChain) (e : ChainEntry) (n n' : Node)
      → is_open e.discovery.state ≡ true
      → close_discovery env hash chain e n ≡ done n'
      → CompletedSound env n
      → CompletedSound env n'
  unfolding close_discovery
  close-CompletedSound hash chain e n n' o h s =
      elim (Option-cases (add_local_lower_bound n.id n.store chain)) [
        | inl missing ↦
            abort-CompletedSound hash _ n' (rw (close_discovery, missing) at h)
              (set_chain-CompletedSound hash chain e n o s)
        | inr (lower, el) ↦ elim (Outcome-cases (add_local_upper_bound n.store lower)) [
          | inr (x, eu) ↦ cc (rw (close_discovery, el, eu) at h)
          | inl (none, eu) ↦
              abort-CompletedSound hash _ n' (rw (close_discovery, el, eu) at h)
                (set_chain-CompletedSound hash lower e n o s)
          | inl (some closed, eu) ↦
              complete-CompletedSound hash _ n' (rw (close_discovery, el, eu) at h)
                (set_chain-CompletedSound hash closed e n o s)
        ]
      ]

  take_response-CompletedSound :
      (m : ChainResponse) (n n' : Node)
      → take_response env m n ≡ done n'
      → CompletedSound env n
      → CompletedSound env n'
  unfolding take_response
  take_response-CompletedSound m n n' h s =
      elim (Option-cases (lookup m.chain.event.hash n.chain_discoveries)) [
        | inl missing ↦
            CompletedSound-Same n n'
              (cc (rw (take_response, missing) at h), cc (rw (take_response, missing) at h)) s
        | inr (e, found) ↦ elim (Bool-cases (is_open e.discovery.state)) [
          | inl o ↦
              close-CompletedSound m.chain.event.hash m.chain e n n' o
                (rw (take_response, found, o) at h) s
          | inr c ↦
              CompletedSound-Same n n'
                (cc (rw (take_response, found, c) at h), cc (rw (take_response, found, c) at h)) s
        ]
      ]

  -- The node's other handlers of datagrams do not touch the chain discoveries.
  notification-Same :
      (nb : Neighbor) (m : ClockNotification) (n n' : Node)
      → process_clock_event_notification nb m n ≡ done n'
      → Same n n'
  unfolding process_clock_event_notification
  notification-Same nb m n n' h = ground arith

  retrace-Same :
      (originator : NodeId) (path : List NodeId) (n : Node) (r : Option EventChain)
      → Same n (retrace_spliced originator path n r)
  unfolding retrace_spliced send_chain_response_retrace
  retrace-Same originator path n none = (refl, refl)
  retrace-Same originator path n (some chain) = ground arith

  answer-Same :
      (nb : Neighbor) (m : ChainRequest) (n n' : Node) → answer_request nb m n ≡ done n' → Same n n'
  unfolding answer_request
  answer-Same nb m n n' h = grind (arith, retrace-Same)

  pass-Same :
      (nb : Neighbor) (m : ChainResponse) (n n' : Node) → pass_response nb m n ≡ done n' → Same n n'
  unfolding pass_response
  pass-Same nb m n n' h = grind (arith, retrace-Same)

  pub flood-Same :
      (dest : NodeId) (range : TimeRange) (m : ChainRequest) (n : Node)
      → Same n (flood_chain_request env dest range m n)
  unfolding flood_chain_request next_hops
  flood-Same dest range m n = ground arith

  forward-Same : (m : ChainRequest) (n : Node) → Same n (forward_request env m n)
  unfolding forward_request count_forward
  forward-Same m n = grind (arith, flood-Same)

  request-CompletedSound :
      (nb : Neighbor) (m : ChainRequest) (n n' : Node)
      → process_chain_request env nb m n ≡ done n'
      → CompletedSound env n
      → CompletedSound env n'
  unfolding process_chain_request
  request-CompletedSound nb m n n' h s = elim (Bool-cases (bytes_eq m.event.creator n.id)) [
    | inl own ↦
        CompletedSound-Same n n' (answer-Same nb m n n' (rw (process_chain_request, own) at h)) s
    | inr other ↦
        let ends = rw (process_chain_request, other) at h in
        let same = forward-Same m n in
        CompletedSound-Same n n' (cc (ends, same.0), cc (ends, same.1)) s
  ]

  response-CompletedSound :
      (nb : Neighbor) (m : ChainResponse) (n n' : Node)
      → process_chain_response env nb m n ≡ done n'
      → CompletedSound env n
      → CompletedSound env n'
  unfolding process_chain_response
  response-CompletedSound nb m n n' h s = elim (Bool-cases (bytes_eq m.originator n.id)) [
    | inl home ↦ take_response-CompletedSound m n n' (rw (process_chain_response, home) at h) s
    | inr other ↦
        CompletedSound-Same n n' (pass-Same nb m n n' (rw (process_chain_response, other) at h)) s
  ]

  dispatch-CompletedSound :
      (nb : Neighbor) (p : Payload) (n n' : Node)
      → dispatch env nb p n ≡ done n'
      → CompletedSound env n
      → CompletedSound env n'
  unfolding dispatch
  dispatch-CompletedSound nb (clock_notification m) n n' h s =
      CompletedSound-Same n n' (notification-Same nb m n n' h) s
  dispatch-CompletedSound nb (chain_request m) n n' h s = request-CompletedSound nb m n n' h s
  dispatch-CompletedSound nb (chain_response m) n n' h s = response-CompletedSound nb m n n' h s

  -- A node whose completed chain discoveries all hold chains that the validator accepts still has
  -- only such after any datagram, from anyone, that it comes to the end of handling.
  pub on_packet_received-CompletedSound :
      (datagram : Bytes) (n n' : Node)
      → on_packet_received env datagram n ≡ done n'
      → CompletedSound env n
      → CompletedSound env n'
  unfolding on_packet_received
  on_packet_received-CompletedSound datagram n n' h s = elim (Result-cases (decode datagram)) [
    | inr (x, bad) ↦
        let ends = rw (on_packet_received, bad) at h in
        CompletedSound-Same n n' (cc ends, cc ends) s
    | inl (dg, good) ↦ elim (Option-cases (lookup dg.sender n.neighbors)) [
      | inl stranger ↦
          let ends = rw (on_packet_received, good, stranger) at h in
          CompletedSound-Same n n' (cc ends, cc ends) s
      | inr (nb, known) ↦
          dispatch-CompletedSound nb dg.payload n n' (rw (on_packet_received, good, known) at h) s
    ]
  ]
