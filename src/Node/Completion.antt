-- ===== src/Node/Completion.antt =====
-- src/core/node.cpp: the node's callbacks leave the chain discoveries alone, and a chain discovery is
-- completed only with a chain that the validator accepts.
use loti.Base.{◌≡◌, refl, ap, ◌∙◌, arith, true, List, [], ◌∷◌, some}
use loti.Base.{if◌then◌else◌, ◌⊎◌, inl, inr}
use loti.Base.Key.{bytes_key, pair_key, bytes_eq}
use loti.Base.Table.{lookup, insert, lookup-insert}
use loti.Domain.{EventHash, Event, EventChain, Order}
use loti.Validate.{verify_chain}
use loti.Node.Outcome.{Fault, Outcome, done, fault}
use loti.Node.State.{Node, Env, ChainEntry, OrderEntry, ChainCallback, node_itself, app}
use loti.Node.Bookkeeping.{
  is_completed, abort_bounds_discovery, complete_bounds_discovery, OrderKey, abort_order_discovery,
  complete_order_discovery, settle_order, advance_order, each_key, settle_bounds,
  node_on_chain_completed, give_up_order, give_up_bounds, node_on_chain_aborted, tell_aborted,
  tell_completed,
}

-- The chain discoveries and the identity stay as they are.
abbrev pub Same : Node → Node → Type 0
Same n n' = (n'.chain_discoveries ≡ n.chain_discoveries) × (n'.id ≡ n.id)

-- A call that leaves them alone, if it comes to its end.
pub record Keeps (f : Node → Outcome Node) : Type 0 where
  pub at : (n n' : Node) → f n ≡ done n' → Same n n'

pub Outcome-cases {ℓ} :
    {A : Type ℓ} (m : Outcome A) → ((a : A) × (m ≡ done a)) ⊎ ((x : Fault) × (m ≡ fault x))
Outcome-cases (done a) = inl (a, refl)
Outcome-cases (fault x) = inr (x, refl)

pub Keeps-each_key {ℓ} :
    {K : Type ℓ} (round : K → Node → Outcome Node)
    → ((k : K) → Keeps (round k))
    → (ks : List K) → Keeps (each_key round ks)
unfolding each_key
Keeps-each_key round keep [] = record { at = λ n n' e. (cc, cc) }
Keeps-each_key round keep (k ∷ ks) = record {
  at = λ n n' e. elim (Outcome-cases (round k n)) [
    | inl (m, em) ↦
        let first = (keep k).at n m em in
        let rest = (Keeps-each_key round keep ks).at m n' (rw em at e) in
        (rest.0 ∙ first.0, rest.1 ∙ first.1)
    | inr (x, em) ↦ cc (rw em at e)
  ];
}

pub Keeps-abort_bounds : (hash : EventHash) → Keeps (abort_bounds_discovery hash)
unfolding abort_bounds_discovery
Keeps-abort_bounds hash = record { at = λ n n' e. ground arith }

Keeps-complete_bounds : (hash : EventHash) → Keeps (complete_bounds_discovery hash)
unfolding complete_bounds_discovery
Keeps-complete_bounds hash = record { at = λ n n' e. ground arith }

pub Keeps-abort_order : (key : OrderKey) → Keeps (abort_order_discovery key)
unfolding abort_order_discovery
Keeps-abort_order key = record { at = λ n n' e. ground arith }

Keeps-complete_order : (key : OrderKey) → Keeps (complete_order_discovery key)
unfolding complete_order_discovery
Keeps-complete_order key = record { at = λ n n' e. ground arith }

Keeps-settle_order : (key : OrderKey) (e : OrderEntry) (o : Order) → Keeps (settle_order key e o)
unfolding settle_order
Keeps-settle_order key e o = record { at = λ n n' h. (Keeps-complete_order key).at _ n' h }

settle_order_keeps :
    (key : OrderKey) (e : OrderEntry) (o : Order) (n n' : Node)
    → settle_order key e o n ≡ done n'
    → Same n n'
settle_order_keeps key e o n n' h = (Keeps-settle_order key e o).at n n' h

complete_bounds_keeps :
    (hash : EventHash) (n n' : Node) → complete_bounds_discovery hash n ≡ done n' → Same n n'
complete_bounds_keeps hash n n' h = (Keeps-complete_bounds hash).at n n' h

Keeps-advance_order : (chain : EventChain) (key : OrderKey) → Keeps (advance_order chain key)
unfolding advance_order
Keeps-advance_order chain key = record { at = λ n n' h. grind (arith, settle_order_keeps) }

Keeps-settle_bounds : (chain : EventChain) → Keeps (settle_bounds chain)
unfolding settle_bounds
Keeps-settle_bounds chain = record { at = λ n n' h. grind (arith, complete_bounds_keeps) }

Keeps-give_up_order : (hash : EventHash) (key : OrderKey) → Keeps (give_up_order hash key)
unfolding give_up_order
Keeps-give_up_order hash key = record {
  at = λ n n' h. ground (arith, (Keeps-abort_order key).at n n');
}

Keeps-give_up_bounds : (hash : EventHash) → Keeps (give_up_bounds hash)
unfolding give_up_bounds
Keeps-give_up_bounds hash = record {
  at = λ n n' h. ground (arith, (Keeps-abort_bounds hash).at n n');
}

Keeps-node_completed : (chain : EventChain) → Keeps (node_on_chain_completed chain)
unfolding node_on_chain_completed
Keeps-node_completed chain = record {
  at = λ n n' h. elim (Outcome-cases (settle_bounds chain n)) [
    | inl (m, em) ↦
        let first = (Keeps-settle_bounds chain).at n m em in
        let rest =
          (Keeps-each_key (advance_order chain) (Keeps-advance_order chain) _).at m n'
            (rw em at h) in
        (rest.0 ∙ first.0, rest.1 ∙ first.1)
    | inr (x, em) ↦ cc (rw em at h)
  ];
}

Keeps-node_aborted : (event : Event) → Keeps (node_on_chain_aborted event)
unfolding node_on_chain_aborted
Keeps-node_aborted event = record {
  at = λ n n' h. elim (Outcome-cases (give_up_bounds event.hash n)) [
    | inl (m, em) ↦
        let first = (Keeps-give_up_bounds event.hash).at n m em in
        let rest =
          (Keeps-each_key (give_up_order event.hash) (Keeps-give_up_order event.hash) _).at m n'
            (rw em at h) in
        (rest.0 ∙ first.0, rest.1 ∙ first.1)
    | inr (x, em) ↦ cc (rw em at h)
  ];
}

pub Keeps-tell_aborted : (event : Event) (cb : ChainCallback) → Keeps (tell_aborted event cb)
unfolding tell_aborted
Keeps-tell_aborted event node_itself = Keeps-node_aborted event
Keeps-tell_aborted event (app cb) = record { at = λ n n' h. (cc, cc) }

pub Keeps-tell_completed :
    (event : Event) (chain : EventChain) (cb : ChainCallback)
    → Keeps (tell_completed event chain cb)
unfolding tell_completed
Keeps-tell_completed event chain node_itself = Keeps-node_completed chain
Keeps-tell_completed event chain (app cb) = record { at = λ n n' h. (cc, cc) }

-- Every chain discovery that is completed holds a chain that the validator accepts for this node.
pub record CompletedSound (env : Env) (n : Node) : Type 0 where
  pub at :
      (hash : EventHash) (e : ChainEntry)
      → lookup hash n.chain_discoveries ≡ some e
      → is_completed e.discovery.state ≡ true
      → (verify_chain env.sha256 env.verify e.discovery.chain n.id).ok ≡ true

-- An entry that is written in the table of the discoveries, if it is sound where it is completed.
pub CompletedSound-insert :
    (env : Env) (n n' : Node) (hash : EventHash) (e : ChainEntry)
    → n'.chain_discoveries ≡ insert hash e n.chain_discoveries
    → n'.id ≡ n.id
    → (is_completed e.discovery.state ≡ true
        → (verify_chain env.sha256 env.verify e.discovery.chain n.id).ok ≡ true)
    → CompletedSound env n
    → CompletedSound env n'
CompletedSound-insert env n n' hash e written same good s = record {
  at = λ h x found closed.
      let reads : lookup h n'.chain_discoveries
          ≡ (if bytes_eq hash h then some e else lookup h n.chain_discoveries) =
        ap (lookup h) written ∙ lookup-insert hash h e n.chain_discoveries in
      ground (arith, s.at h x, reads);
}
