-- ===== src/Examples/Chains.antt =====
-- Examples of the validator, the proofs and the hashes.
use loti.Base.{
  ap, ◌≡◌, ◌≤ℤ◌, refl, arith, true, false, negsuc, pos, List, [], ◌∷◌, ◌++◌, inl, inr, none, some,
  replicate,
}
use loti.Domain.{ClockEvent, EventReference, Event, EventChain, before, undetermined}
use loti.Domain.Ranges.{IsClockEvent}
use loti.Hash.{
  clock_event_preimage, event_preimage, clock_event_size_bytes, event_size_bytes,
  calculate_event_hash, calculate_clock_event_hash, write_u64_be,
}
use loti.Hash.Sizes.{clock_event_size_bytes-eq, event_size_bytes-eq}
use loti.Hash.Preimage.{clock_event_preimage-injective}
use loti.Hash.Collision.{folded, calculate_event_hash-folded}
use loti.Validate.{verify_chain, ChainResult, timestamp_of}
use loti.Validate.Encloses.{Encloses, IsAuthentic}
use loti.Validate.Exact.{verify_chain_sound, verify_chain_complete}
use loti.Proof.{Proof, order, verify, order_value, compare_chains}
use loti.Proof.Verdict.{IsSound, Follows, verify-IsSound, IsSound-verify, verify_order}
use loti.Examples.{toy_hash, toy_verify, me, first_tick, second_tick, the_event, the_chain}
use loti.Base.{length, ◌+◌}

first_tick-IsAuthentic : IsAuthentic toy_hash toy_verify first_tick
unfolding calculate_clock_event_hash loti.Hash.clock_event_preimage loti.Hash.write_u64_be
    loti.Hash.write_refs loti.Domain.be_bytes loti.Base.Key.bytes_eq
first_tick-IsAuthentic = record { hash = refl; signature = refl }

the_chain-Encloses : Encloses toy_hash toy_verify the_chain me first_tick second_tick
unfolding calculate_clock_event_hash calculate_event_hash loti.Hash.event_preimage
    loti.Hash.clock_event_preimage loti.Hash.write_u64_be loti.Hash.write_refs loti.Domain.be_bytes
    loti.Base.Key.bytes_eq
the_chain-Encloses = record {
  starts = refl;
  ends = refl;
  first_creator = refl;
  last_creator = refl;
  lower = (first_tick-IsAuthentic, tt, tt);
  event_hash = refl;
  event_signature = refl;
  event_link = inl refl;
  upper = (record { hash = refl; signature = refl }, inl refl, tt);
  ordered = omega arith;
}

the_chain-ok : (verify_chain toy_hash toy_verify the_chain me).ok ≡ true
the_chain-ok =
    ap (λ (r : ChainResult). r.ok)
      (verify_chain_complete toy_hash toy_verify the_chain me first_tick second_tick
        the_chain-Encloses)

verify_chain_sound_example :
    (first : ClockEvent) × (last : ClockEvent) × (Encloses toy_hash toy_verify the_chain me first
        last
      × ((verify_chain toy_hash toy_verify the_chain me).lower ≡ first.timestamp)
      × ((verify_chain toy_hash toy_verify the_chain me).upper ≡ last.timestamp))
verify_chain_sound_example = verify_chain_sound toy_hash toy_verify the_chain me the_chain-ok

verify_chain_complete_example :
    verify_chain toy_hash toy_verify the_chain me
    ≡ record { ok = true; reason = none; lower = pos 5; upper = pos 9 }
verify_chain_complete_example =
    verify_chain_complete toy_hash toy_verify the_chain me first_tick second_tick the_chain-Encloses

-- An order proof of one chain twice: the intervals overlap.
abbrev the_proof : Proof
the_proof = record {
  kind = order;
  reference = record { node = me; pubkey = [] };
  event_chain = the_chain;
  event_chain2 = the_chain;
  recorded_order = pos 0;
}

the_proof-IsSound : IsSound toy_hash toy_verify the_proof
unfolding compare_chains order_value timestamp_of
the_proof-IsSound = record {
  key = inl refl;
  first = the_chain-ok;
  order_fits = λ _. record { second = the_chain-ok; recorded = refl };
}

the_proof-valid : (verify toy_hash toy_verify the_proof).valid ≡ true
the_proof-valid = IsSound-verify toy_hash toy_verify the_proof the_proof-IsSound

verify-IsSound_example :
    IsSound toy_hash toy_verify the_proof
    × ((verify toy_hash toy_verify the_proof).lower
        ≡ (verify_chain toy_hash toy_verify the_chain me).lower)
    × ((verify toy_hash toy_verify the_proof).upper
        ≡ (verify_chain toy_hash toy_verify the_chain me).upper)
verify-IsSound_example = verify-IsSound toy_hash toy_verify the_proof the_proof-valid

IsSound-verify_example : (verify toy_hash toy_verify the_proof).valid ≡ true
IsSound-verify_example = IsSound-verify toy_hash toy_verify the_proof the_proof-IsSound

no_order : the_proof.recorded_order ≡ order_value undetermined
unfolding order_value
no_order = refl

verify_order_example :
    (first1 : ClockEvent) × (last1 : ClockEvent) × (first2 : ClockEvent) × (last2 : ClockEvent)
    × Encloses toy_hash toy_verify the_chain me first1 last1
    × Encloses toy_hash toy_verify the_chain me first2 last2
    × Follows undetermined first1 last1 first2 last2
verify_order_example =
    verify_order toy_hash toy_verify the_proof undetermined refl no_order the_proof-valid

-- A reference to a 32-byte digest.
abbrev digest_ref : EventReference
digest_ref = record { creator = me; hash = replicate 32 9 }

abbrev full_tick : ClockEvent
full_tick = record first_tick { referenced_events = digest_ref ∷ [] }

full_tick-IsClockEvent : IsClockEvent full_tick
full_tick-IsClockEvent = record {
  creator = refl;
  hash = omega arith;
  chain = omega arith;
  timestamp = omega arith;
  salt = omega arith;
  referenced_events = record {
    short = omega arith;
    each = (record { creator = refl; hash = omega arith }, tt);
  };
  signature = omega arith;
}

clock_event_preimage-injective_example :
    (full_tick.chain ≡ full_tick.chain)
    × (full_tick.timestamp ≡ full_tick.timestamp)
    × (full_tick.salt ≡ full_tick.salt)
    × (full_tick.referenced_events ≡ full_tick.referenced_events)
clock_event_preimage-injective_example =
    clock_event_preimage-injective full_tick full_tick full_tick-IsClockEvent full_tick-IsClockEvent
      (record { creator = refl; hash = refl }, tt) (record { creator = refl; hash = refl }, tt) refl

clock_event_size_bytes-eq_example :
    clock_event_size_bytes full_tick ≡ length (clock_event_preimage full_tick) + 16 + 32
clock_event_size_bytes-eq_example =
    clock_event_size_bytes-eq full_tick (record { creator = refl; hash = refl }, tt)

abbrev full_event : Event
full_event = record the_event { referenced_events = digest_ref ∷ [] }

event_size_bytes-eq_example :
    event_size_bytes full_event + length full_event.content
    ≡ length (event_preimage full_event) + 16 + 32
event_size_bytes-eq_example =
    event_size_bytes-eq full_event (record { creator = refl; hash = refl }, tt)

-- The last eight bytes of the digest, as a number.
salt_in : digest_ref.hash ≡ replicate 24 9 ++ write_u64_be 651061555542690057
unfolding write_u64_be loti.Domain.be_bytes
salt_in = refl

calculate_event_hash-folded_example :
    calculate_event_hash toy_hash
      (folded full_event 651061555542690057 digest_ref [] (replicate 24 9))
    ≡ calculate_event_hash toy_hash full_event
calculate_event_hash-folded_example =
    calculate_event_hash-folded toy_hash full_event digest_ref [] (replicate 24 9)
      651061555542690057 refl salt_in
