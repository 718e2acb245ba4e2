-- ===== src/Node/Enclosure.antt =====
-- src/core/node.cpp: an event that is published between two clock events of its node is enclosed by
-- them, as src/core/validate understands it.
use loti.Base.{ℕ, zero, suc, ◌+◌, ◌<◌, ◌≡◌, ◌≤ℤ◌, refl, ap, ◌∙◌, arith, true}
use loti.Base.{List, [], ◌∷◌, ◌++◌, none, some, length, get_elem?, map, inl, inr}
use loti.Domain.{
  Bytes, NodeId, EventHash, EventReference, Event, LocalClockEvent, EventChain, Timestamp,
}
use loti.Hash.{calculate_event_hash, calculate_clock_event_hash}
use loti.Validate.{clock_ref, event_ref, verify_chain}
use loti.Validate.Encloses.{Refers, IsAuthentic}
use loti.Validate.Exact.{verify_chain_complete}
use loti.Store
use loti.Store.{Store}
use loti.Node.State.{Node, Env}
use loti.Node.Dag.{
  make_event, make_clock_event, publish_event, anchors, clamp, previous_refs, event_refs, tail_of,
  neighbor_refs,
}

Refers-left : (xs ys : List EventReference) (t : EventReference) → Refers xs t → Refers (xs ++ ys) t
Refers-left [] ys t h = absurd h
Refers-left (x ∷ xs) ys t (inl e) = inl e
Refers-left (x ∷ xs) ys t (inr h) = inr (Refers-left xs ys t h)

Refers-right :
    (xs ys : List EventReference) (t : EventReference) → Refers ys t → Refers (xs ++ ys) t
Refers-right [] ys t h = h
Refers-right (x ∷ xs) ys t h = inr (Refers-right xs ys t h)

-- The tip of every chain is among the lower anchors.
anchors-Refers :
    (num i chain : ℕ) (s : Store) (tip : LocalClockEvent)
    → i < num
    → Store.latest_on_chain (chain + i) s ≡ some tip
    → Refers (anchors num chain s) (clock_ref tip.base)
unfolding anchors
anchors-Refers zero i chain s tip b h = absurd (omega arith)
anchors-Refers (suc num) zero chain s tip b h =
    let here : Store.latest_on_chain chain s ≡ some tip =
      ap (λ (k : ℕ). Store.latest_on_chain k s) (omega arith) ∙ h in
    rw (anchors, here) (inl refl)
anchors-Refers (suc num) (suc i) chain s tip b h =
    let there : Store.latest_on_chain (chain + 1 + i) s ≡ some tip =
      ap (λ (k : ℕ). Store.latest_on_chain k s) (omega arith) ∙ h in
    let rest = anchors-Refers num i (chain + 1) s tip (omega arith) there in
    elim (Store.latest_on_chain chain s)
      as (λ o.
        Refers
          (elim o [
            | none ↦ anchors num (chain + 1) s
            | some t ↦ record { creator = t.creator; hash = t.hash } ∷ anchors num (chain + 1) s
          ])
          (clock_ref tip.base)) [ none ↦ rest | some t ↦ inr rest ]

event_refs-Refers :
    (es : List Event) (e : Event) → Refers (event_refs (es ++ (e ∷ []))) (event_ref e)
event_refs-Refers [] e = inl refl
event_refs-Refers (x ∷ es) e = inr (event_refs-Refers es e)

tails-map :
    (ess : List (List Event)) (i : ℕ) (e : Event)
    → i < length ess
    → (es : List Event) × (get_elem? (map (λ (t : List Event). t ++ (e ∷ [])) ess) i
        ≡ some (es ++ (e ∷ [])))
tails-map [] i e b = absurd (omega arith)
tails-map (es ∷ ess) zero e b = (es, refl)
tails-map (es ∷ ess) (suc i) e b = tails-map ess i e (omega arith)

clamp-le : (last : LocalClockEvent) (stamp : Timestamp) → last.timestamp ≤ℤ clamp (some last) stamp
unfolding clamp
clamp-le last stamp = ground arith

module _ (env : Env) where
  -- What the Signer port promises of its own key, which belongs to the node `id`.
  abbrev pub Signs : NodeId → Type 0
  Signs id = (h : EventHash) → env.verify h (env.sign h) id ≡ true

  pub make_clock_event-IsAuthentic :
      (n : Node) (chain : ℕ)
      → Signs n.id
      → IsAuthentic env.sha256 env.verify (make_clock_event env n chain).base
  unfolding make_clock_event calculate_clock_event_hash loti.Hash.clock_event_preimage
  make_clock_event-IsAuthentic n chain signs = record { hash = refl; signature = signs _ }

  -- A new clock event references the tip of its chain and is not before it.
  pub make_clock_event-After :
      (n : Node) (chain : ℕ) (tip : LocalClockEvent)
      → Store.latest_on_chain chain n.store ≡ some tip
      → Refers (make_clock_event env n chain).base.referenced_events (clock_ref tip.base)
        × (tip.timestamp ≤ℤ (make_clock_event env n chain).base.timestamp)
  unfolding make_clock_event previous_refs
  make_clock_event-After n chain tip h = rw (make_clock_event, h) (inl refl, clamp-le tip n.now)

  make_event-hash :
      (n : Node) (content : Bytes)
      → calculate_event_hash env.sha256 (make_event env n content) ≡ (make_event env n content).hash
  unfolding make_event calculate_event_hash loti.Hash.event_preimage
  make_event-hash n content = refl

  make_event-verify :
      (n : Node) (content : Bytes)
      → Signs n.id
      → env.verify
          (make_event env n content).hash
          (make_event env n content).signature
          (make_event env n content).creator
        ≡ true
  unfolding make_event
  make_event-verify n content signs = signs _

  make_event-Refers :
      (n : Node) (content : Bytes) (chain : ℕ) (tip : LocalClockEvent)
      → chain < n.num_chains
      → Store.latest_on_chain chain n.store ≡ some tip
      → Refers (make_event env n content).referenced_events (clock_ref tip.base)
  unfolding make_event
  make_event-Refers n content chain tip b h =
      anchors-Refers n.num_chains chain 0 n.store tip b
        (ap (λ (k : ℕ). Store.latest_on_chain k n.store) (omega arith) ∙ h)

  -- The node after the publication, when its clock shows `later`.
  abbrev pub published_at : Timestamp → Bytes → Node → Node
  published_at later content n = record ((publish_event env content n).1) { now = later }

  tail-published :
      (later : Timestamp) (content : Bytes) (chain : ℕ) (n : Node)
      → chain < length n.unreferenced_per_chain
      → (es : List Event) × (tail_of chain (published_at later content n)
          ≡ es ++ (make_event env n content ∷ []))
  unfolding publish_event tail_of
  tail-published later content chain n b =
      let (es, found) = tails-map n.unreferenced_per_chain chain (make_event env n content) b in
      (es, rw (tail_of, found) refl)

  id-published :
      (later : Timestamp) (content : Bytes) (chain : ℕ) (n : Node)
      → (make_clock_event env (published_at later content n) chain).creator ≡ n.id
  unfolding publish_event make_clock_event
  id-published later content chain n = refl

  Signs-published :
      (later : Timestamp) (content : Bytes) (n : Node)
      → Signs n.id
      → Signs (published_at later content n).id
  unfolding publish_event
  Signs-published later content n signs = signs

  tick_references_event :
      (n : Node) (chain : ℕ) (e : Event) (es : List Event)
      → tail_of chain n ≡ es ++ (e ∷ [])
      → Refers (make_clock_event env n chain).base.referenced_events (event_ref e)
  unfolding make_clock_event
  tick_references_event n chain e es t =
      Refers-right (previous_refs (Store.latest_on_chain chain n.store)) _ (event_ref e) (
        Refers-right (neighbor_refs chain n.neighbors) _ (event_ref e)
          (rw t (event_refs-Refers es e)))

  tip-published :
      (later : Timestamp) (content : Bytes) (chain : ℕ) (n : Node)
      → Store.latest_on_chain chain (published_at later content n).store
        ≡ Store.latest_on_chain chain n.store
  unfolding publish_event Store.append_event Store.latest_on_chain
  tip-published later content chain n = refl

  -- The chain of an event published on top of `tip`, closed by the next clock event.
  abbrev pub between_ticks : Timestamp → Bytes → ℕ → LocalClockEvent → Node → EventChain
  between_ticks later content chain tip n = record {
    event = make_event env n content;
    lower_bound = tip.base ∷ [];
    upper_bound = (make_clock_event env (published_at later content n) chain).base ∷ [];
  }

  -- The tip of a chain of the node, an event that the node then publishes, and the next clock event it
  -- makes on that chain, whatever its clock shows by then, are a chain that the validator accepts for the
  -- node, with the timestamps of the two as the interval; provided the tip is authentic and the node's
  -- own, and what the node signs verifies.
  pub verify_chain-between_ticks :
      (later : Timestamp) (content : Bytes) (chain : ℕ) (tip : LocalClockEvent) (n : Node)
      → Signs n.id
      → chain < n.num_chains
      → chain < length n.unreferenced_per_chain
      → Store.latest_on_chain chain n.store ≡ some tip
      → IsAuthentic env.sha256 env.verify tip.base
      → tip.creator ≡ n.id
      → verify_chain env.sha256 env.verify (between_ticks later content chain tip n) n.id ≡ record {
        ok = true;
        reason = none;
        lower = tip.timestamp;
        upper = (make_clock_event env (published_at later content n) chain).timestamp;
      }
  verify_chain-between_ticks later content chain tip n signs c_num c_len top auth own =
      let n2 = published_at later content n in
      let c = make_clock_event env n2 chain in
      let (es, tail) = tail-published later content chain n c_len in
      let (follows, not_before) =
        make_clock_event-After n2 chain tip (tip-published later content chain n ∙ top) in
      verify_chain_complete env.sha256 env.verify (between_ticks later content chain tip n) n.id
        tip.base c.base
        (record {
          starts = refl;
          ends = refl;
          first_creator = own;
          last_creator = id-published later content chain n;
          lower = (auth, tt, tt);
          event_hash = make_event-hash n content;
          event_signature = make_event-verify n content signs;
          event_link = make_event-Refers n content chain tip c_num top;
          upper = (
            make_clock_event-IsAuthentic n2 chain (Signs-published later content n signs),
            tick_references_event n2 chain (make_event env n content) es tail,
            tt,
          );
          ordered = not_before;
        })
