-- ===== src/Wire/Packets/RoundTrip.antt =====
-- src/core/wire/packets.cpp: a datagram that a node encodes, and what its receiver decodes.
use native.Mathlib.Nat.{mod-eq_of_lt}
use loti.Base.{◌∷◌, ℕ, ◌%◌, ◌^◌, ◌<◌, ◌≡◌, refl, ◌∙◌, arith, ◌++◌}
use loti.Base.{some, length, take, inl, inr, ◌≤◌, []}
use loti.Domain.{Bytes, NodeId}
use loti.Domain.Ranges.{IsU32, IsShort, IsNodeId, IsReference, IsTimeRange, IsNodeIds, IsEventChain}
use loti.Wire.Result.{Result, ok, Result-cases, bind-eq-ok, ◌>>=◌, ◌>>◌}
use loti.Wire.Writer.{put_u8}
use loti.Wire.Reader.{get_u8, get_node_id, need, advance}
use loti.Wire.RoundTrip.Rules.{Reads, Reads-bind, Reads-last}
use loti.Wire.RoundTrip.Scalars.{get_u64-put_u64, get_node_id-put_node_id, get_blob-put_blob}
use loti.Wire.RoundTrip.Objects.{
  get_chain-put_chain, get_time_range-put_time_range, get_node_ids-put_node_ids,
}
use loti.Wire.Packets.{
  ClockNotification, ChainRequest, ChainResponse, Payload, clock_notification, chain_request,
  chain_response, Datagram, type_byte, put_notification, put_request, put_response, put_payload,
  encode, sender_of, get_notification, get_request, get_response, get_payload, get_datagram, decode,
}

pub record IsNotification (m : ClockNotification) : Type 0 where
  pub chain : IsU32 m.chain
  pub last : IsShort m.last_clock_event_hash
  pub neighbor_last : IsShort m.neighbor_last_clock_event_hash

pub record IsRequest (m : ChainRequest) : Type 0 where
  pub originator : IsNodeId m.originator
  pub event : IsReference m.event
  pub range : IsTimeRange m.range
  pub hop_limit : IsU32 m.hop_limit
  pub path : IsNodeIds m.path

pub record IsResponse (m : ChainResponse) : Type 0 where
  pub originator : IsNodeId m.originator
  pub chain : IsEventChain m.chain
  pub path : IsNodeIds m.path

abbrev pub IsPayload : Payload → Type 0
IsPayload (clock_notification m) = IsNotification m
IsPayload (chain_request m) = IsRequest m
IsPayload (chain_response m) = IsResponse m

-- A 32-bit field that is written as 64 bits and cast back.
u32_back : (v : ℕ) → IsU32 v → v % 2 ^ 32 ≡ v
u32_back v h = mod-eq_of_lt {n = v} {m = 2 ^ 32} h

u32_wide : (v : ℕ) → IsU32 v → v < 2 ^ 64
u32_wide v h = omega arith

get_notification-put_notification :
    (m : ClockNotification) → IsNotification m → Reads get_notification (put_notification m) m
unfolding get_notification put_notification
get_notification-put_notification m v =
    Reads-bind _ (get_u64-put_u64 m.chain (u32_wide m.chain v.chain)) (
      Reads-bind _ (get_blob-put_blob m.last_clock_event_hash v.last) (
        Reads-last _ (get_blob-put_blob m.neighbor_last_clock_event_hash v.neighbor_last)
          (λ rest. cc (u32_back m.chain v.chain))))

get_request-put_request : (m : ChainRequest) → IsRequest m → Reads get_request (put_request m) m
unfolding get_request put_request
get_request-put_request m v = Reads-bind _ (get_node_id-put_node_id m.originator v.originator) (
    Reads-bind _ (get_node_id-put_node_id m.event.creator v.event.creator) (
      Reads-bind _ (get_blob-put_blob m.event.hash v.event.hash) (
        Reads-bind _ (get_time_range-put_time_range m.range v.range) (
          Reads-bind _ (get_u64-put_u64 m.hop_limit (u32_wide m.hop_limit v.hop_limit)) (
            Reads-last _ (get_node_ids-put_node_ids m.path v.path)
              (λ rest. cc (u32_back m.hop_limit v.hop_limit)))))))

get_response-put_response :
    (m : ChainResponse) → IsResponse m → Reads get_response (put_response m) m
unfolding get_response put_response
get_response-put_response m v = Reads-bind _ (get_node_id-put_node_id m.originator v.originator) (
    Reads-bind _ (get_chain-put_chain m.chain v.chain)
      (Reads-last _ (get_node_ids-put_node_ids m.path v.path) (λ rest. refl)))

get_payload-put_payload :
    (m : Payload) → IsPayload m → Reads (get_payload (type_byte m)) (put_payload m) m
unfolding get_payload type_byte put_payload
get_payload-put_payload (clock_notification m) v =
    Reads-last _ (get_notification-put_notification m v) (λ rest. refl)
get_payload-put_payload (chain_request m) v =
    Reads-last _ (get_request-put_request m v) (λ rest. refl)
get_payload-put_payload (chain_response m) v =
    Reads-last _ (get_response-put_response m v) (λ rest. refl)

pub get_u8-put_u8 : (b : ℕ) → Reads get_u8 (put_u8 b) b
unfolding get_u8 put_u8
get_u8-put_u8 b = record { at = λ rest. refl }

get_datagram-encode :
    (sender : NodeId) (m : Payload)
    → IsNodeId sender
    → IsPayload m
    → Reads get_datagram (encode sender m) (record { sender = sender; payload = m })
unfolding get_datagram encode
get_datagram-encode sender m hs v = Reads-bind _ (get_u8-put_u8 (type_byte m)) (
    Reads-bind _ (get_node_id-put_node_id sender hs)
      (Reads-last _ (get_payload-put_payload m v) (λ rest. refl)))

-- Every datagram that a node encodes from fields in the range of their C++ types decodes to that
-- sender and payload, also when more bytes stand behind it.
pub decode-encode :
    (sender : NodeId) (m : Payload) (rest : Bytes)
    → IsNodeId sender
    → IsPayload m
    → decode (encode sender m ++ rest) ≡ ok (record { sender = sender; payload = m })
unfolding decode
decode-encode sender m rest hs v = rw ((get_datagram-encode sender m hs v).at rest, decode)

-- What a node id reader returns is the next 16 bytes.
get_node_id-eq-take :
    (buf : Bytes) {p : NodeId × Bytes}
    → get_node_id buf ≡ ok p
    → (16 ≤ length buf) × (p.0 ≡ take 16 buf)
unfolding get_node_id need advance ◌>>◌ ◌>>=◌
get_node_id-eq-take buf h = ground arith

-- The parts that a decode goes through, against the slice that `sender_of` takes.
header_parts :
    (b : ℕ) (bs : Bytes) (p : ℕ × Bytes) (q : NodeId × Bytes) (s : Payload × Bytes) (x : Datagram)
    (rest : Bytes)
    → get_u8 (b ∷ bs) ≡ ok p
    → get_node_id p.1 ≡ ok q
    → ◌≡◌ {A = Result (Datagram × Bytes)}
        (ok (record { sender = q.0; payload = s.0 }, s.1))
        (ok (x, rest))
    → sender_of (b ∷ bs) ≡ some x.sender
unfolding get_u8 sender_of
header_parts b bs p q s x rest e1 e2 e3 = ground (arith, get_node_id-eq-take bs {p = q} (cc))

header_sender :
    (buf : Bytes) (x : Datagram) (rest : Bytes)
    → get_datagram buf ≡ ok (x, rest)
    → sender_of buf ≡ some x.sender
unfolding get_datagram
header_sender [] x rest e = unfold get_u8 ◌>>=◌ in ground arith
header_sender (b ∷ bs) x rest e =
    let (p, e1, r1) = bind-eq-ok get_u8 _ (b ∷ bs) e in
    let (q, e2, r2) = bind-eq-ok get_node_id _ p.1 r1 in
    let (s, e3, r3) = bind-eq-ok (get_payload p.0) _ q.1 r2 in
    header_parts b bs p q s x rest e1 e2 r3

-- The cheap read of the sender, by which the transport checks a datagram's source, returns the
-- sender of the full decode, for every datagram that decodes, whoever made it.
pub sender_of-decode :
    (datagram : Bytes) (d : Datagram) → decode datagram ≡ ok d → sender_of datagram ≡ some d.sender
unfolding decode
sender_of-decode datagram d h = elim (Result-cases (get_datagram datagram)) [
  | inl ((x, rest), e) ↦ header_sender datagram x rest e ∙ cc (rw (e, decode) at h)
  | inr (x, e) ↦ cc (rw (e, decode) at h)
]
