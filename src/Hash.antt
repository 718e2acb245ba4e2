-- ===== src/Hash.antt =====
-- src/core/hash: the bytes that are hashed, and the accounted sizes.
-- SHA-256 is the vendored picosha2: a parameter wherever it is called.
pub mod Sizes
pub mod Collision
pub mod Preimage
use loti.Base.{ℕ, ◌+◌, ◌*◌, List, [], ◌∷◌, ◌++◌, length, to_u64}
use loti.Domain.{Bytes, NodeId, EventHash, EventReference, Event, ClockEvent, be_bytes}

-- ByteWriter::write_u64_be
unfoldable pub write_u64_be : ℕ → Bytes
write_u64_be v = be_bytes 8 v

-- ByteWriter::write_node_id, ByteWriter::write_bytes
unfoldable pub write_refs : List EventReference → Bytes
write_refs [] = []
write_refs (r ∷ rs) = r.creator ++ (r.hash ++ write_refs rs)

-- What `calculate_event_hash` hands to SHA-256.
unfoldable pub event_preimage : Event → Bytes
event_preimage e = e.content ++ (write_u64_be e.salt ++ write_refs e.referenced_events)

-- What `calculate_clock_event_hash` hands to SHA-256.
unfoldable pub clock_event_preimage : ClockEvent → Bytes
clock_event_preimage c =
    write_u64_be c.chain
    ++ (write_u64_be (to_u64 c.timestamp)
        ++ (write_u64_be c.salt ++ write_refs c.referenced_events))

module _ (sha256 : Bytes → EventHash) where
  unfoldable pub calculate_event_hash : Event → EventHash
  calculate_event_hash e = sha256 (event_preimage e)

  unfoldable pub calculate_clock_event_hash : ClockEvent → EventHash
  calculate_clock_event_hash c = sha256 (clock_event_preimage c)

abbrev hash_bytes : ℕ
hash_bytes = 32

abbrev node_id_bytes : ℕ
node_id_bytes = 16

abbrev salt_bytes : ℕ
salt_bytes = 8

abbrev timestamp_bytes : ℕ
timestamp_bytes = 8

abbrev chain_bytes : ℕ
chain_bytes = 8

abbrev ref_bytes : ℕ
ref_bytes = node_id_bytes + hash_bytes

unfoldable pub event_size_bytes : Event → ℕ
event_size_bytes e =
    node_id_bytes + hash_bytes + salt_bytes + ref_bytes * length e.referenced_events

unfoldable pub clock_event_size_bytes : ClockEvent → ℕ
clock_event_size_bytes c =
    node_id_bytes
    + hash_bytes
    + chain_bytes
    + timestamp_bytes
    + salt_bytes
    + ref_bytes * length c.referenced_events
