-- ===== src/Hash/Collision.antt =====
-- src/core/hash/hashing.cpp: an event's hashed bytes do not mark where its content ends.
use loti.Base.{ℕ, ◌≡◌, ap, List, ◌∷◌, ◌++◌, append_assoc}
use loti.Domain.{Bytes, EventReference, Event}
use loti.Hash.{write_u64_be, write_refs, event_preimage, calculate_event_hash}

-- The event with its salt and its first reference moved into the content, but for the last eight bytes
-- of the reference's hash, which are the new salt.
abbrev pub folded : Event → ℕ → EventReference → List EventReference → Bytes → Event
folded e salt ref rest head = record e {
  content = e.content ++ (write_u64_be e.salt ++ (ref.creator ++ head));
  salt = salt;
  referenced_events = rest;
}

-- An event whose first reference's hash ends in the eight bytes of a number has the hash of an event
-- with the same creator and signature, but a longer content, that number as its salt and only the other
-- references, whatever the hash function is.
pub calculate_event_hash-folded :
    (sha256 : Bytes → Bytes) (e : Event) (ref : EventReference) (rest : List EventReference)
    (head : Bytes) (salt : ℕ)
    → e.referenced_events ≡ ref ∷ rest
    → ref.hash ≡ head ++ write_u64_be salt
    → calculate_event_hash sha256 (folded e salt ref rest head) ≡ calculate_event_hash sha256 e
unfolding calculate_event_hash event_preimage write_refs
calculate_event_hash-folded sha256 e ref rest head salt only ends =
    ap sha256 (rw (only, ends) (simp (append_assoc)))
