-- ===== src/Validate/Encloses.antt =====
-- src/core/validate/chain.hpp: what a sound enclosing chain is, apart from how it is checked.
use loti.Base.{◌≡◌, ◌⊎◌, List, [], ◌∷◌, Bool, true, Option, none, some, ◌≤ℤ◌, head?, last?}
use loti.Domain.{Bytes, NodeId, EventHash, Signature, EventReference, ClockEvent, EventChain}
use loti.Hash.{calculate_event_hash, calculate_clock_event_hash}
use loti.Validate.{clock_ref, event_ref}

-- `target` is one of the references.
abbrev pub Refers : List EventReference → EventReference → Type 0
Refers [] target = ⊥
Refers (r ∷ rs) target = (r ≡ target) ⊎ Refers rs target

-- Link to a predecessor, where there is one.
abbrev pub LinksTo : Option EventReference → List EventReference → Type 0
LinksTo none rs = Unit {0}
LinksTo (some prev) rs = Refers rs prev

-- The end of a run of clock events that began after `prev`.
abbrev pub end_of : Option EventReference → List ClockEvent → Option EventReference
end_of prev [] = prev
end_of prev (c ∷ cs) = end_of (some (clock_ref c)) cs

module _ (sha256 : Bytes → EventHash) (verify : Bytes → Signature → NodeId → Bool) where
  pub record IsAuthentic (c : ClockEvent) : Type 0 where
    pub hash : calculate_clock_event_hash sha256 c ≡ c.hash
    pub signature : verify c.hash c.signature c.creator ≡ true

  -- Each clock event is authentic and references the one before it, the first one `prev`.
  abbrev pub Chained : Option EventReference → List ClockEvent → Type 0
  Chained prev [] = Unit {0}
  Chained prev (c ∷ cs) =
      IsAuthentic c × LinksTo prev c.referenced_events × Chained (some (clock_ref c)) cs

  pub record Encloses (ch : EventChain) (reference : NodeId) (first last : ClockEvent)
      : Type 0 where
    pub starts : head? ch.lower_bound ≡ some first
    pub ends : last? ch.upper_bound ≡ some last
    pub first_creator : first.creator ≡ reference
    pub last_creator : last.creator ≡ reference
    pub lower : Chained none ch.lower_bound
    pub event_hash : calculate_event_hash sha256 ch.event ≡ ch.event.hash
    pub event_signature : verify ch.event.hash ch.event.signature ch.event.creator ≡ true
    pub event_link : LinksTo (end_of none ch.lower_bound) ch.event.referenced_events
    pub upper : Chained (some (event_ref ch.event)) ch.upper_bound
    pub ordered : first.timestamp ≤ℤ last.timestamp
