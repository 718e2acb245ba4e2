-- ===== src/Wire/Reader.antt =====
-- src/core/wire/codec.hpp, class Reader: the list is the part of `buf_` from `pos_` on.
-- `pos_ + n > buf_.size()` is `n` against the length of that part (a `size_t` holds the sum).
use loti.Base.{ℕ, ◌+◌, ◌*◌, ◌/◌, ◌%◌, ◌^◌, List, [], ◌∷◌, ltb, if◌then◌else◌}
use loti.Base.{length, take, drop, from_u64}
use loti.Domain.{Bytes, NodeId, TimeRange, EventReference, Event, ClockEvent, EventChain}
use loti.Wire.Result.{Reader, ok, err, truncated, count_exceeds}
use loti.Wire.Result.{◌>>=◌, ◌>>◌, pure, read_many}

unfoldable pub need : ℕ → Reader (Unit {0})
need n buf = if ltb (length buf) n then err truncated else ok (tt, buf)

unfoldable pub ensure_count : ℕ → ℕ → Reader (Unit {0})
ensure_count n min_elem_bytes buf =
    if ltb (length buf / min_elem_bytes) n then err count_exceeds else ok (tt, buf)

-- The next `n` bytes, once `need(n)` has passed: `pos_` moves on by `n`.
unfoldable pub advance : ℕ → Reader Bytes
advance n buf = ok (take n buf, drop n buf)

-- `v = (v << 8) | b` over the bytes, in a register of `w` bits; the low byte of the shift is 0.
unfoldable pub shift_in : ℕ → ℕ → Bytes → ℕ
shift_in w v [] = v
shift_in w v (b ∷ bs) = shift_in w (v * 256 % 2 ^ w + b) bs

unfoldable pub get_u8 : Reader ℕ
get_u8 [] = err truncated
get_u8 (b ∷ rest) = ok (b, rest)

unfoldable pub get_u64 : Reader ℕ
get_u64 = do need 8; bs ← advance 8; pure (shift_in 64 0 bs)

unfoldable pub get_u32 : Reader ℕ
get_u32 = do need 4; bs ← advance 4; pure (shift_in 32 0 bs)

unfoldable pub get_node_id : Reader NodeId
get_node_id = do need 16; advance 16

unfoldable pub get_blob : Reader Bytes
get_blob = do n ← get_u32; need n; advance n

unfoldable pub get_ref : Reader EventReference
get_ref = do
  creator ← get_node_id
  hash ← get_blob
  pure (record { creator = creator; hash = hash })

unfoldable pub get_refs : Reader (List EventReference)
get_refs = do n ← get_u32; ensure_count n 20; read_many n get_ref

unfoldable pub get_event : Reader Event
get_event = do
  creator ← get_node_id
  hash ← get_blob
  content ← get_blob
  salt ← get_u64
  referenced_events ← get_refs
  signature ← get_blob
  pure (record {
    creator = creator;
    hash = hash;
    content = content;
    salt = salt;
    referenced_events = referenced_events;
    signature = signature;
  })

unfoldable pub get_clock_event : Reader ClockEvent
get_clock_event = do
  creator ← get_node_id
  hash ← get_blob
  chain ← get_u64
  timestamp ← get_u64
  salt ← get_u64
  referenced_events ← get_refs
  signature ← get_blob
  pure (record {
    creator = creator;
    hash = hash;
    chain = chain % 2 ^ 32;
    timestamp = from_u64 timestamp;
    salt = salt;
    referenced_events = referenced_events;
    signature = signature;
  })

unfoldable pub get_clock_events : Reader (List ClockEvent)
get_clock_events = do n ← get_u32; ensure_count n 44; read_many n get_clock_event

unfoldable pub get_chain : Reader EventChain
get_chain = do
  event ← get_event
  lower_bound ← get_clock_events
  upper_bound ← get_clock_events
  pure (record { event = event; lower_bound = lower_bound; upper_bound = upper_bound })

unfoldable pub get_time_range : Reader TimeRange
get_time_range = do lo ← get_u64; hi ← get_u64; pure (record { lo = from_u64 lo; hi = from_u64 hi })

unfoldable pub get_node_ids : Reader (List NodeId)
get_node_ids = do n ← get_u32; ensure_count n 16; read_many n get_node_id
