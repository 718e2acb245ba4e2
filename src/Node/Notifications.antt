-- ===== src/Node/Notifications.antt =====
-- src/core/node.cpp: what a clock notification leaves in a neighbor's slots and on a clock event.
use loti.Base.{ℕ, zero, suc, ◌+◌, ◌-◌, ◌^◌, ◌≤◌, ◌<◌, ◌≡◌, ◌≢◌, refl, ap, sym, ◌∙◌, arith, not}
use loti.Base.{List, [], ◌∷◌, ◌++◌, Option, none, some, length, get_elem?, set, replicate}
use loti.Base.{length-append, length-replicate}
use loti.Base.Key.{bytes_eq}
use loti.Domain.{EventHash, Neighbor}
use loti.Node.Outcome.{done, fault, out_of_range}
use loti.Node.Dag.{tip_of}
use loti.Node.Forwarding.{resize, grow, learn_tip}

-- The slot's hash, empty past the end.
abbrev slot : Option EventHash → EventHash
slot none = []
slot (some h) = h

slot-blanks : (k i : ℕ) → slot (get_elem? (replicate k []) i) ≡ []
slot-blanks zero i = refl
slot-blanks (suc k) zero = refl
slot-blanks (suc k) (suc i) = slot-blanks k i

slot-padded :
    (hs : List EventHash) (k i : ℕ)
    → slot (get_elem? (hs ++ replicate k []) i) ≡ slot (get_elem? hs i)
slot-padded [] k i = slot-blanks k i
slot-padded (h ∷ hs) k zero = refl
slot-padded (h ∷ hs) k (suc i) = slot-padded hs k i

-- A chain number below 2 ^ 32 - 1 makes its slot, and moves nothing.
slot-grow :
    (chain : ℕ) (hs : List EventHash) (i : ℕ)
    → chain + 1 < 2 ^ 32
    → (slot (get_elem? (grow chain hs) i) ≡ slot (get_elem? hs i))
      × (chain < length (grow chain hs))
unfolding grow resize
slot-grow chain hs i b = ground (
  arith,
  slot-padded hs (chain + 1 - length hs) i,
  length-append hs (replicate (chain + 1 - length hs) []),
  length-replicate {A = EventHash} (chain + 1 - length hs) [],
)

get_elem?-some :
    (hs : List EventHash) (i : ℕ) → i < length hs → (h : EventHash) × (get_elem? hs i ≡ some h)
get_elem?-some [] i b = absurd (omega arith)
get_elem?-some (h ∷ hs) zero b = (h, refl)
get_elem?-some (h ∷ hs) (suc i) b = get_elem?-some hs i (omega arith)

get_elem?-set :
    (hs : List EventHash) (i : ℕ) (h : EventHash)
    → i < length hs
    → get_elem? (set hs i h) i ≡ some h
get_elem?-set [] i h b = absurd (omega arith)
get_elem?-set (x ∷ hs) zero h b = refl
get_elem?-set (x ∷ hs) (suc i) h b = get_elem?-set hs i h (omega arith)

get_elem?-set_other :
    (hs : List EventHash) (i j : ℕ) (h : EventHash)
    → i ≢ j
    → get_elem? (set hs i h) j ≡ get_elem? hs j
get_elem?-set_other [] i j h d = refl
get_elem?-set_other (x ∷ hs) zero zero h d = absurd (d refl)
get_elem?-set_other (x ∷ hs) zero (suc j) h d = refl
get_elem?-set_other (x ∷ hs) (suc i) zero h d = refl
get_elem?-set_other (x ∷ hs) (suc i) (suc j) h d = get_elem?-set_other hs i j h (λ e. d (ap suc e))

-- The chain number 2 ^ 32 - 1 shrinks the slots to none, however many there are up to that number, and
-- the access to the slot is out of range.
pub learn_tip_wraps :
    (nb : Neighbor) (tip : EventHash)
    → length nb.last_clock_event_hashes ≤ 2 ^ 32 - 1
    → learn_tip nb (2 ^ 32 - 1) tip ≡ fault out_of_range
unfolding learn_tip grow resize
learn_tip_wraps nb tip b = ground arith

tip_of-slot :
    (chain : ℕ) (nb : Neighbor)
    → tip_of chain nb ≡ slot (get_elem? nb.last_clock_event_hashes chain)
unfolding tip_of
tip_of-slot chain nb =
    elim (get_elem? nb.last_clock_event_hashes chain)
      as (λ o. elim o [ none ↦ [] | some h ↦ h ] ≡ slot o) [ none ↦ refl | some h ↦ refl ]

-- What a neighbor is taken to hold after a tip is learned: the tip on its chain, the old tips on the
-- others; it is news exactly when the tip differs from the old one.
pub record Learned (nb : Neighbor) (chain : ℕ) (tip : EventHash) : Type 0 where
  pub after : Neighbor
  pub learned : learn_tip nb chain tip ≡ done (after, not (bytes_eq (tip_of chain nb) tip))
  pub new : tip_of chain after ≡ tip
  pub others : (c : ℕ) → chain ≢ c → tip_of c after ≡ tip_of c nb

-- A tip on a chain number below 2 ^ 32 - 1 is always learned: it is the neighbor's tip on that chain
-- from then on, the tips on the other chains stay, and it is news exactly if it differs from the old
-- one.
pub learn_tip-Learned :
    (nb : Neighbor) (chain : ℕ) (tip : EventHash) → chain + 1 < 2 ^ 32 → Learned nb chain tip
unfolding learn_tip
learn_tip-Learned nb chain tip b =
    let slots = grow chain nb.last_clock_event_hashes in
    let fits = (slot-grow chain nb.last_clock_event_hashes chain b).1 in
    let (old, found) = get_elem?-some slots chain fits in
    let nb' : Neighbor = record nb { last_clock_event_hashes = set slots chain tip } in
    let was : tip_of chain nb ≡ old =
      tip_of-slot chain nb
      ∙ sym ((slot-grow chain nb.last_clock_event_hashes chain b).0)
      ∙ ap slot found in
    record {
      after = nb';
      learned = rw (learn_tip, found, was) refl;
      new = tip_of-slot chain nb' ∙ ap slot (get_elem?-set slots chain tip fits);
      others = λ c d.
          tip_of-slot c nb'
          ∙ ap slot (get_elem?-set_other slots chain c tip d)
          ∙ (slot-grow chain nb.last_clock_event_hashes c b).0
          ∙ sym (tip_of-slot c nb);
    }
