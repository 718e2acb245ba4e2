-- ===== src/Hash/Sizes.antt =====
-- src/core/hash/hashing.cpp: the accounted sizes against the bytes that are hashed.
use loti.Base.{ℕ, ◌+◌, ◌*◌, ◌≡◌, List, [], ◌∷◌, ◌++◌, length, length-append, All, arith}
use loti.Domain.{Bytes, EventReference, Event, ClockEvent, length-be_bytes}
use loti.Hash.{
  write_u64_be, write_refs, event_preimage, clock_event_preimage, event_size_bytes,
  clock_event_size_bytes,
}

-- A reference as the program makes them: a 16-byte creator and a 32-byte digest.
pub record IsDigestReference (r : EventReference) : Type 0 where
  pub creator : length r.creator ≡ 16
  pub hash : length r.hash ≡ 32

length-write_refs :
    (rs : List EventReference) → All IsDigestReference rs → length (write_refs rs) ≡ 48 * length rs
unfolding write_refs
length-write_refs [] h = omega arith
length-write_refs (r ∷ rs) (hr, hrs) = omega (
  arith,
  hr.creator,
  hr.hash,
  length-append r.creator (r.hash ++ write_refs rs),
  length-append r.hash (write_refs rs),
  length-write_refs rs hrs,
)

-- The accounted size of a clock event whose references are digests is the length of its hashed
-- bytes, its creator and its own 32-byte hash together.
pub clock_event_size_bytes-eq :
    (c : ClockEvent)
    → All IsDigestReference c.referenced_events
    → clock_event_size_bytes c ≡ length (clock_event_preimage c) + 16 + 32
unfolding clock_event_size_bytes clock_event_preimage write_u64_be
clock_event_size_bytes-eq c h = omega (
  arith,
  length-write_refs c.referenced_events h,
  λ (xs ys : Bytes). length-append xs ys,
  λ (k x : ℕ). length-be_bytes k x,
)

-- The accounted size of an event whose references are digests counts the same, without its content.
pub event_size_bytes-eq :
    (e : Event)
    → All IsDigestReference e.referenced_events
    → event_size_bytes e + length e.content ≡ length (event_preimage e) + 16 + 32
unfolding event_size_bytes event_preimage write_u64_be
event_size_bytes-eq e h = omega (
  arith,
  length-write_refs e.referenced_events h,
  λ (xs ys : Bytes). length-append xs ys,
  λ (k x : ℕ). length-be_bytes k x,
)
