-- ===== src/Validate/Walks.antt =====
-- src/core/validate/chain.cpp: the loops accept exactly the chained runs of clock events.
use loti.Base.{◌≡◌, refl, inl, inr, ◌↔◌, List, [], ◌∷◌, Bool, true, false}
use loti.Base.{Option, none, some, arith, Bool-cases}
use loti.Base.Key.{bytes_eq_iff}
use loti.Domain.{Bytes, NodeId, EventHash, Signature, EventReference, ClockEvent, ref_eq}
use loti.Hash.{calculate_clock_event_hash}
use loti.Validate.{Reason, linked, references, clock_ref, unlinked, walk}
use loti.Validate.Encloses.{Refers, LinksTo, end_of, Chained}

pub ref_eq_iff : (a b : EventReference) → (ref_eq a b ≡ true) ↔ (a ≡ b)
unfolding ref_eq
ref_eq_iff a b = ground (arith, bytes_eq_iff a.creator b.creator, bytes_eq_iff a.hash b.hash)

pub references-Refers :
    (rs : List EventReference) (t : EventReference) → references rs t ≡ true → Refers rs t
unfolding references
references-Refers [] t h = cc
references-Refers (r ∷ rs) t h = elim (Bool-cases (ref_eq r t)) [
  | inl e ↦ inl ((ref_eq_iff r t).0 e)
  | inr e ↦ inr (references-Refers rs t (ground arith))
]

pub Refers-references :
    (rs : List EventReference) (t : EventReference) → Refers rs t → references rs t ≡ true
unfolding references
Refers-references [] t h = absurd h
Refers-references (r ∷ rs) t (inl e) = ground (arith, ref_eq_iff r t)
Refers-references (r ∷ rs) t (inr m) = ground (arith, Refers-references rs t m)

pub linked-LinksTo :
    (prev : Option EventReference) (c : ClockEvent)
    → unlinked prev c ≡ false
    → LinksTo prev c.referenced_events
unfolding unlinked
linked-LinksTo none c h = tt
linked-LinksTo (some prev) c h = references-Refers c.referenced_events prev (ground arith)

pub LinksTo-linked :
    (prev : Option EventReference) (c : ClockEvent)
    → LinksTo prev c.referenced_events
    → unlinked prev c ≡ false
unfolding unlinked
LinksTo-linked none c h = refl
LinksTo-linked (some prev) c h = rw (Refers-references c.referenced_events prev h)

module _ (sha256 : Bytes → EventHash) (verify : Bytes → Signature → NodeId → Bool) where
  module _ (bad_hash bad_signature bad_link : Reason) where
    -- A walk that comes to the end has seen a chained run, and `prev` is its last element.
    pub walk-Chained :
        (prev : Option EventReference) (cs : List ClockEvent) (q : Option EventReference)
        → walk sha256 verify bad_hash bad_signature bad_link prev cs ≡ linked q
        → Chained sha256 verify prev cs × (q ≡ end_of prev cs)
    unfolding walk
    walk-Chained prev [] q h = (tt, cc)
    walk-Chained prev (c ∷ cs) q h =
        let same = bytes_eq_iff (calculate_clock_event_hash sha256 c) c.hash in
        let (chained, last) = walk-Chained (some (clock_ref c)) cs q (ground arith) in
        (
          (
            record { hash = same.0 (ground arith); signature = ground arith },
            linked-LinksTo prev c (ground arith),
            chained,
          ),
          last,
        )

    -- A chained run is walked to its end.
    pub Chained-walk :
        (prev : Option EventReference) (cs : List ClockEvent)
        → Chained sha256 verify prev cs
        → walk sha256 verify bad_hash bad_signature bad_link prev cs ≡ linked (end_of prev cs)
    unfolding walk
    Chained-walk prev [] h = refl
    Chained-walk prev (c ∷ cs) (auth, link, more) = ground (
      arith,
      bytes_eq_iff (calculate_clock_event_hash sha256 c) c.hash,
      auth.hash,
      auth.signature,
      LinksTo-linked prev c link,
      Chained-walk (some (clock_ref c)) cs more,
    )
