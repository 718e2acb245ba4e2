-- ===== src/Validate/Exact.antt =====
-- src/core/validate/chain.cpp: `verify_chain` accepts exactly the enclosing chains.
use loti.Base.{◌≡◌, refl, ap, ◌∙◌, ◌⊎◌, inl, inr, List, [], ◌∷◌, Bool, true, false}
use loti.Base.{Option, none, some, arith, head?, last?, ◌≤ℤ◌, le→not_ltb}
use loti.Base.Key.{bytes_eq, bytes_eq_iff}
use loti.Domain.{Bytes, NodeId, EventHash, Signature, EventReference, ClockEvent, EventChain}
use loti.Hash.{calculate_event_hash}
use loti.Validate.{
  Reason, Walk, linked, broken, clock_ref, event_ref, walk_lower, walk_upper, not_by, timestamp_of,
  judge_interval, judge_upper, judge_event, event_linked, is_empty, verify_chain, ChainResult,
}
use loti.Validate.Encloses.{LinksTo, end_of, Encloses}
use loti.Validate.Walks.{walk-Chained, Chained-walk, references-Refers, Refers-references}

Walk-cases :
    (w : Walk)
    → ((q : Option EventReference) × (w ≡ linked q)) ⊎ ((why : Reason) × (w ≡ broken why))
Walk-cases (linked q) = inl (q, refl)
Walk-cases (broken why) = inr (why, refl)

by_reference :
    (reference : NodeId) (o : Option ClockEvent)
    → not_by reference o ≡ false
    → (c : ClockEvent) × (o ≡ some c) × (c.creator ≡ reference)
unfolding not_by
by_reference reference none h = cc
by_reference reference (some c) h = (c, refl, (bytes_eq_iff c.creator reference).0 (ground arith))

not_by_self :
    (reference : NodeId) (o : Option ClockEvent) (c : ClockEvent)
    → o ≡ some c
    → c.creator ≡ reference
    → not_by reference o ≡ false
unfolding not_by
not_by_self reference o c e h = rw e (ground (arith, bytes_eq_iff c.creator reference))

head_not_empty : (cs : List ClockEvent) (c : ClockEvent) → head? cs ≡ some c → is_empty cs ≡ false
unfolding is_empty
head_not_empty [] c h = cc
head_not_empty (x ∷ cs) c h = refl

last_not_empty : (cs : List ClockEvent) (c : ClockEvent) → last? cs ≡ some c → is_empty cs ≡ false
unfolding is_empty
last_not_empty [] c h = cc
last_not_empty (x ∷ cs) c h = refl

event_linked-LinksTo :
    (ch : EventChain) (prev : Option EventReference)
    → event_linked ch prev ≡ true
    → LinksTo prev ch.event.referenced_events
unfolding event_linked
event_linked-LinksTo ch none h = tt
event_linked-LinksTo ch (some prev) h = references-Refers ch.event.referenced_events prev h

-- A bound that is not empty leaves a `prev`.
end_of-some :
    (prev : EventReference) (cs : List ClockEvent)
    → (x : EventReference) × (end_of (some prev) cs ≡ some x)
end_of-some prev [] = (prev, refl)
end_of-some prev (c ∷ cs) = end_of-some (clock_ref c) cs

LinksTo-event_linked :
    (ch : EventChain) (cs : List ClockEvent) (c : ClockEvent)
    → head? cs ≡ some c
    → LinksTo (end_of none cs) ch.event.referenced_events
    → event_linked ch (end_of none cs) ≡ true
unfolding event_linked
LinksTo-event_linked ch [] c h l = cc
LinksTo-event_linked ch (x ∷ cs) c h l =
    let (y, e) = end_of-some (clock_ref x) cs in
    rw e (Refers-references ch.event.referenced_events y (rw e at l))

judge_interval-ok :
    (ch : EventChain)
    → (judge_interval ch).ok ≡ true
    → (timestamp_of (head? ch.lower_bound) ≤ℤ timestamp_of (last? ch.upper_bound))
      × ((judge_interval ch).lower ≡ timestamp_of (head? ch.lower_bound))
      × ((judge_interval ch).upper ≡ timestamp_of (last? ch.upper_bound))
unfolding judge_interval
judge_interval-ok ch h = ground arith

judge_interval_complete :
    (ch : EventChain) (first last : ClockEvent)
    → head? ch.lower_bound ≡ some first
    → last? ch.upper_bound ≡ some last
    → first.timestamp ≤ℤ last.timestamp
    → judge_interval ch
      ≡ record { ok = true; reason = none; lower = first.timestamp; upper = last.timestamp }
unfolding judge_interval timestamp_of
judge_interval_complete ch first last s e h = rw (s, e, le→not_ltb _ _ h)

module _ (sha256 : Bytes → EventHash) (verify : Bytes → Signature → NodeId → Bool) where
  -- What the event's checks and the upper bound have passed.
  record PassesEvent (ch : EventChain) (prev q : Option EventReference) : Type 0 where
    event_hash : bytes_eq (calculate_event_hash sha256 ch.event) ch.event.hash ≡ true
    event_link : event_linked ch prev ≡ true
    event_signature : verify ch.event.hash ch.event.signature ch.event.creator ≡ true
    upper : walk_upper sha256 verify (event_ref ch.event) ch.upper_bound ≡ linked q

  judge_event_inv :
      (ch : EventChain) (prev : Option EventReference)
      → (judge_event sha256 verify ch (linked prev)).ok ≡ true
      → (q : Option EventReference) × PassesEvent ch prev q
        × (judge_event sha256 verify ch (linked prev) ≡ judge_interval ch)
  unfolding judge_event judge_upper
  judge_event_inv ch prev h =
      elim (Walk-cases (walk_upper sha256 verify (event_ref ch.event) ch.upper_bound)) [
        | inl (q, e) ↦ (q, ground arith, ground arith)
        | inr (why, e) ↦ ground arith
      ]

  -- Every chain that encloses its event is accepted, with the timestamps of its two ends.
  pub verify_chain_complete :
      (ch : EventChain) (reference : NodeId) (first last : ClockEvent)
      → Encloses sha256 verify ch reference first last
      → verify_chain sha256 verify ch reference
        ≡ record { ok = true; reason = none; lower = first.timestamp; upper = last.timestamp }
  unfolding verify_chain judge_event judge_upper walk_lower walk_upper
  verify_chain_complete ch reference first last e =
      rw
        (
          head_not_empty ch.lower_bound first e.starts,
          last_not_empty ch.upper_bound last e.ends,
          not_by_self reference (head? ch.lower_bound) first e.starts e.first_creator,
          not_by_self reference (last? ch.upper_bound) last e.ends e.last_creator,
          Chained-walk sha256 verify _ _ _ none ch.lower_bound e.lower,
          (bytes_eq_iff (calculate_event_hash sha256 ch.event) ch.event.hash).1 e.event_hash,
          LinksTo-event_linked ch ch.lower_bound first e.starts e.event_link,
          e.event_signature,
          Chained-walk sha256 verify _ _ _ (some (event_ref ch.event)) ch.upper_bound e.upper,
        )
        (judge_interval_complete ch first last e.starts e.ends e.ordered)

  -- The tests of the ends, before the walks.
  verify_chain_inv :
      (ch : EventChain) (reference : NodeId)
      → (verify_chain sha256 verify ch reference).ok ≡ true
      → (not_by reference (head? ch.lower_bound) ≡ false)
        × (not_by reference (last? ch.upper_bound) ≡ false)
        × (verify_chain sha256 verify ch reference
            ≡ judge_event sha256 verify ch (walk_lower sha256 verify ch.lower_bound))
  unfolding verify_chain
  verify_chain_inv ch reference h = (ground arith, ground arith, ground arith)

  broken_refused :
      (ch : EventChain) (why : Reason) → (judge_event sha256 verify ch (broken why)).ok ≡ false
  unfolding judge_event
  broken_refused ch why = refl

  -- The rest, once the ends are the reference's and the lower bound is walked.
  enclosed :
      (ch : EventChain) (reference : NodeId) (first last : ClockEvent)
      (prev : Option EventReference) (r : ChainResult)
      → r.ok ≡ true
      → r ≡ judge_event sha256 verify ch (linked prev)
      → head? ch.lower_bound ≡ some first
      → first.creator ≡ reference
      → last? ch.upper_bound ≡ some last
      → last.creator ≡ reference
      → walk_lower sha256 verify ch.lower_bound ≡ linked prev
      → Encloses sha256 verify ch reference first last
        × (r.lower ≡ first.timestamp)
        × (r.upper ≡ last.timestamp)
  unfolding walk_lower walk_upper timestamp_of
  enclosed ch reference first last prev r h eq starts fc ends lc e =
      let (q, passed, eq2) = judge_event_inv ch prev (rw eq at h) in
      let same : r ≡ judge_interval ch = eq ∙ eq2 in
      let (order, low, up) = judge_interval-ok ch (rw same at h) in
      let (lower, left) = walk-Chained sha256 verify _ _ _ none ch.lower_bound prev e in
      let (upper, _) =
        walk-Chained sha256 verify _ _ _ (some (event_ref ch.event)) ch.upper_bound q
          passed.upper in
      (
        record {
          starts = starts;
          ends = ends;
          first_creator = fc;
          last_creator = lc;
          lower = lower;
          event_hash =
              (bytes_eq_iff (calculate_event_hash sha256 ch.event) ch.event.hash).0
                passed.event_hash;
          event_signature = passed.event_signature;
          event_link = rw (← left) (event_linked-LinksTo ch prev passed.event_link);
          upper = upper;
          ordered = rw (starts, ends) at order;
        },
        ap (λ (x : ChainResult). x.lower) same ∙ low ∙ ap timestamp_of starts,
        ap (λ (x : ChainResult). x.upper) same ∙ up ∙ ap timestamp_of ends,
      )

  -- An accepted chain encloses its event between two clock events of the reference node, and the
  -- interval of the result is their timestamps.
  pub verify_chain_sound :
      (ch : EventChain) (reference : NodeId)
      → (verify_chain sha256 verify ch reference).ok ≡ true
      → (first : ClockEvent) × (last : ClockEvent) × (Encloses sha256 verify ch reference first last
          × ((verify_chain sha256 verify ch reference).lower ≡ first.timestamp)
          × ((verify_chain sha256 verify ch reference).upper ≡ last.timestamp))
  verify_chain_sound ch reference h =
      let (by_first, by_last, eq) = verify_chain_inv ch reference h in
      let (first, starts, fc) = by_reference reference (head? ch.lower_bound) by_first in
      let (last, ends, lc) = by_reference reference (last? ch.upper_bound) by_last in
      elim (Walk-cases (walk_lower sha256 verify ch.lower_bound)) [
        | inr (why, e) ↦ cc (eq, e, h, broken_refused ch why)
        | inl (prev, e) ↦
            let at_prev = rw e at eq in
            (first, last, enclosed ch reference first last prev _ h at_prev starts fc ends lc e)
      ]
