-- ===== src/Validate.antt =====
-- src/core/validate: the soundness walk over an enclosing chain.
-- SHA-256 and the Signer port's `verify` are parameters.
pub mod Encloses
pub mod Walks
pub mod Exact
use loti.Base.{ℤ, pos, List, [], ◌∷◌, Bool, true, false, not, ◌||◌, ◌&&◌, Option, none, some, ltb_ℤ}
use loti.Base.{head?, last?, if◌then◌else◌}
use loti.Base.Key.{bytes_eq}
use loti.Domain.{
  Bytes, NodeId, EventHash, Signature, Timestamp, EventReference, Event, ClockEvent, EventChain,
  ref_eq,
}
use loti.Hash.{calculate_event_hash, calculate_clock_event_hash}

-- One constructor for each text in `reason`.
pub data Reason : Type 0 where
  missing_bound first_not_reference last_not_reference : Reason
  lower_hash_mismatch lower_signature_invalid lower_not_linked : Reason
  event_hash_mismatch event_not_linked event_signature_invalid : Reason
  upper_hash_mismatch upper_signature_invalid upper_not_linked : Reason
  inverted_interval : Reason

-- `reason` is `none` for the empty text.
pub record ChainResult : Type 0 where
  pub ok : Bool
  pub reason : Option Reason
  pub lower : Timestamp
  pub upper : Timestamp

abbrev pub failed : Reason → ChainResult
failed why = record { ok = false; reason = some why; lower = pos 0; upper = pos 0 }

-- The result of a loop: its last `prev` (`none` while `have_prev` is false), or an early return.
pub data Walk : Type 0 where
  linked : Option EventReference → Walk
  broken : Reason → Walk

unfoldable pub references : List EventReference → EventReference → Bool
references [] target = false
references (r ∷ rs) target = ref_eq r target || references rs target

abbrev pub clock_ref : ClockEvent → EventReference
clock_ref c = record { creator = c.creator; hash = c.hash }

abbrev pub event_ref : Event → EventReference
event_ref e = record { creator = e.creator; hash = e.hash }

-- `have_prev && !references(ce.referenced_events, prev)`
unfoldable pub unlinked : Option EventReference → ClockEvent → Bool
unfolding references
unlinked none c = false
unlinked (some prev) c = not (references c.referenced_events prev)

-- `chain.lower_bound.front()` and `chain.upper_bound.back()` are not `reference`'s.
unfoldable pub not_by : NodeId → Option ClockEvent → Bool
not_by reference none = true
not_by reference (some c) = not (bytes_eq c.creator reference)

unfoldable pub timestamp_of : Option ClockEvent → Timestamp
timestamp_of none = pos 0
timestamp_of (some c) = c.timestamp

unfoldable pub is_empty : List ClockEvent → Bool
is_empty [] = true
is_empty (c ∷ cs) = false

-- The interval, once the chain is sound.
unfoldable pub judge_interval : EventChain → ChainResult
judge_interval ch =
    let lower = timestamp_of (head? ch.lower_bound) in
    let upper = timestamp_of (last? ch.upper_bound) in
    if ltb_ℤ upper lower
    then record { ok = false; reason = some inverted_interval; lower = lower; upper = upper }
    else record { ok = true; reason = none; lower = lower; upper = upper }

-- `references(chain.event.referenced_events, prev)`: `lower_bound` is not empty, so it left a `prev`.
unfoldable pub event_linked : EventChain → Option EventReference → Bool
event_linked ch none = false
event_linked ch (some prev) = references ch.event.referenced_events prev

module _ (sha256 : Bytes → EventHash) (verify : Bytes → Signature → NodeId → Bool) where
  -- The two loops are one, but for the texts that they return.
  unfoldable pub walk : Reason → Reason → Reason → Option EventReference → List ClockEvent → Walk
  walk bad_hash bad_signature bad_link prev [] = linked prev
  walk bad_hash bad_signature bad_link prev (c ∷ cs) =
      if not (bytes_eq (calculate_clock_event_hash sha256 c) c.hash)
      then broken bad_hash
      else if not (verify c.hash c.signature c.creator)
      then broken bad_signature
      else if unlinked prev c
      then broken bad_link
      else walk bad_hash bad_signature bad_link (some (clock_ref c)) cs

  -- The loop over `lower_bound`, which starts with no `prev`.
  unfoldable pub walk_lower : List ClockEvent → Walk
  unfolding walk
  walk_lower = walk lower_hash_mismatch lower_signature_invalid lower_not_linked none

  -- The loop over `upper_bound`: `prev` is the event as it starts.
  unfoldable pub walk_upper : EventReference → List ClockEvent → Walk
  unfolding walk
  walk_upper prev = walk upper_hash_mismatch upper_signature_invalid upper_not_linked (some prev)

  unfoldable pub judge_upper : EventChain → Walk → ChainResult
  judge_upper ch (broken why) = failed why
  judge_upper ch (linked prev) = judge_interval ch

  -- The checks of the event, from the `prev` that the lower bound left.
  unfoldable pub judge_event : EventChain → Walk → ChainResult
  judge_event ch (broken why) = failed why
  judge_event ch (linked prev) =
      if not (bytes_eq (calculate_event_hash sha256 ch.event) ch.event.hash)
      then failed event_hash_mismatch
      else if not (event_linked ch prev)
      then failed event_not_linked
      else if not (verify ch.event.hash ch.event.signature ch.event.creator)
      then failed event_signature_invalid
      else judge_upper ch (walk_upper (event_ref ch.event) ch.upper_bound)

  unfoldable pub verify_chain : EventChain → NodeId → ChainResult
  unfolding is_empty
  verify_chain ch reference =
      if is_empty ch.lower_bound || is_empty ch.upper_bound
      then failed missing_bound
      else if not_by reference (head? ch.lower_bound)
      then failed first_not_reference
      else if not_by reference (last? ch.upper_bound)
      then failed last_not_reference
      else judge_event ch (walk_lower ch.lower_bound)
