-- ===== src/Wire/Writer.antt =====
-- src/core/wire/codec.hpp, class Writer: each operation is the bytes that it appends to `buf_`.
use loti.Base.{ℕ, ◌%◌, ◌^◌, List, [], ◌∷◌, ◌++◌, length, to_u64}
use loti.Domain.{Bytes, NodeId, TimeRange, EventReference, Event, ClockEvent, EventChain, be_bytes}

unfoldable pub put_u8 : ℕ → Bytes
put_u8 v = v ∷ []

unfoldable pub put_u64 : ℕ → Bytes
put_u64 v = be_bytes 8 v

unfoldable pub put_u32 : ℕ → Bytes
put_u32 v = be_bytes 4 v

-- `static_cast<std::uint32_t>(size())`
abbrev pub count_u32 {ℓ} : {A : Type ℓ} → List A → Bytes
count_u32 xs = put_u32 (length xs % 2 ^ 32)

unfoldable pub put_node_id : NodeId → Bytes
put_node_id id = id

unfoldable pub put_blob : Bytes → Bytes
put_blob b = count_u32 b ++ b

-- `for (const auto& x : xs) write(x)`
unfoldable pub put_each {ℓ} : {A : Type ℓ} → (A → Bytes) → List A → Bytes
put_each w [] = []
put_each w (x ∷ xs) = w x ++ put_each w xs

unfoldable pub put_ref : EventReference → Bytes
put_ref r = put_node_id r.creator ++ put_blob r.hash

unfoldable pub put_refs : List EventReference → Bytes
put_refs rs = count_u32 rs ++ put_each put_ref rs

unfoldable pub put_event : Event → Bytes
put_event e =
    put_node_id e.creator
    ++ (put_blob e.hash
        ++ (put_blob e.content
            ++ (put_u64 e.salt ++ (put_refs e.referenced_events ++ put_blob e.signature))))

unfoldable pub put_clock_event : ClockEvent → Bytes
put_clock_event c =
    put_node_id c.creator
    ++ (put_blob c.hash
        ++ (put_u64 c.chain
            ++ (put_u64 (to_u64 c.timestamp)
                ++ (put_u64 c.salt ++ (put_refs c.referenced_events ++ put_blob c.signature)))))

unfoldable pub put_clock_events : List ClockEvent → Bytes
put_clock_events cs = count_u32 cs ++ put_each put_clock_event cs

unfoldable pub put_chain : EventChain → Bytes
put_chain ch =
    put_event ch.event ++ (put_clock_events ch.lower_bound ++ put_clock_events ch.upper_bound)

unfoldable pub put_time_range : TimeRange → Bytes
put_time_range tr = put_u64 (to_u64 tr.lo) ++ put_u64 (to_u64 tr.hi)

unfoldable pub put_node_ids : List NodeId → Bytes
put_node_ids ids = count_u32 ids ++ put_each put_node_id ids
