-- ===== src/Wire/Packets.antt =====
-- src/core/wire/packets.hpp and packets.cpp: the three datagrams, `encode`, `decode`, `sender_of`.
pub mod RoundTrip
use loti.Base.{
  ℕ, zero, suc, ◌+◌, ◌%◌, ◌^◌, ◌≡◌, List, [], ◌∷◌, ◌++◌, Option, none, some, length, take,
}
use loti.Base.{drop, ltb, nat_eq, if◌then◌else◌}
use loti.Domain.{Bytes, NodeId, EventHash, EventReference, TimeRange, EventChain}
use loti.Wire.Result.{Result, Reader, ok, err, unknown_type, ◌>>=◌, pure, throw}
use loti.Wire.Writer.{
  put_u8, put_u64, put_node_id, put_blob, put_time_range, put_node_ids, put_chain,
}
use loti.Wire.Reader.{
  get_u8, get_u64, get_node_id, get_blob, get_time_range, get_node_ids, get_chain,
}

pub record ClockNotification : Type 0 where
  pub chain : ℕ
  pub last_clock_event_hash : EventHash
  pub neighbor_last_clock_event_hash : EventHash

pub record ChainRequest : Type 0 where
  pub originator : NodeId
  pub event : EventReference
  pub range : TimeRange
  pub hop_limit : ℕ
  pub path : List NodeId

pub record ChainResponse : Type 0 where
  pub originator : NodeId
  pub chain : EventChain
  pub path : List NodeId

pub data Payload : Type 0 where
  clock_notification : ClockNotification → Payload
  chain_request : ChainRequest → Payload
  chain_response : ChainResponse → Payload

pub record Datagram : Type 0 where
  pub sender : NodeId
  pub payload : Payload

-- `enum class Type`
unfoldable pub type_byte : Payload → ℕ
type_byte (clock_notification m) = 0
type_byte (chain_request m) = 1
type_byte (chain_response m) = 2

unfoldable pub put_notification : ClockNotification → Bytes
put_notification m =
    put_u64 m.chain
    ++ (put_blob m.last_clock_event_hash ++ put_blob m.neighbor_last_clock_event_hash)

unfoldable pub put_request : ChainRequest → Bytes
put_request m =
    put_node_id m.originator
    ++ (put_node_id m.event.creator
        ++ (put_blob m.event.hash
            ++ (put_time_range m.range ++ (put_u64 m.hop_limit ++ put_node_ids m.path))))

unfoldable pub put_response : ChainResponse → Bytes
put_response m = put_node_id m.originator ++ (put_chain m.chain ++ put_node_ids m.path)

unfoldable pub put_payload : Payload → Bytes
put_payload (clock_notification m) = put_notification m
put_payload (chain_request m) = put_request m
put_payload (chain_response m) = put_response m

-- The three overloads of `encode`: the header, then the payload.
unfoldable pub encode : NodeId → Payload → Bytes
encode sender m = put_u8 (type_byte m) ++ (put_node_id sender ++ put_payload m)

-- The header is a type byte and 16 bytes of sender.
unfoldable pub sender_of : Bytes → Option NodeId
sender_of datagram =
    if ltb (length datagram) (1 + 16) then none else some (take 16 (drop 1 datagram))

unfoldable pub get_notification : Reader ClockNotification
get_notification = do
  chain ← get_u64
  last ← get_blob
  neighbor_last ← get_blob
  pure (record {
    chain = chain % 2 ^ 32;
    last_clock_event_hash = last;
    neighbor_last_clock_event_hash = neighbor_last;
  })

unfoldable pub get_request : Reader ChainRequest
get_request = do
  originator ← get_node_id
  creator ← get_node_id
  hash ← get_blob
  range ← get_time_range
  hop_limit ← get_u64
  path ← get_node_ids
  pure (record {
    originator = originator;
    event = record { creator = creator; hash = hash };
    range = range;
    hop_limit = hop_limit % 2 ^ 32;
    path = path;
  })

unfoldable pub get_response : Reader ChainResponse
get_response = do
  originator ← get_node_id
  chain ← get_chain
  path ← get_node_ids
  pure (record { originator = originator; chain = chain; path = path })

-- The `switch` on the type byte.
unfoldable pub get_payload : ℕ → Reader Payload
get_payload zero = do m ← get_notification; pure (clock_notification m)
get_payload (suc zero) = do m ← get_request; pure (chain_request m)
get_payload (suc (suc zero)) = do m ← get_response; pure (chain_response m)
get_payload (suc (suc (suc n))) = throw unknown_type

unfoldable pub get_datagram : Reader Datagram
get_datagram = do
  type ← get_u8
  sender ← get_node_id
  payload ← get_payload type
  pure (record { sender = sender; payload = payload })

-- What follows the payload is not looked at.
unfoldable pub decode : Bytes → Result Datagram
decode datagram = elim (get_datagram datagram) [ ok (d, rest) ↦ ok d | err e ↦ err e ]
