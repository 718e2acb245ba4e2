-- ===== src/Proof/RoundTrip.antt =====
-- src/core/proof/proof.cpp: `deserialize` after `serialize`, and what it refuses.
use loti.Base.{zero, suc, ◌<◌, ◌≡◌, refl, arith, ℤ, pos, negsuc, [], ◌++◌}
use loti.Base.{if◌then◌else◌, true}
use loti.Domain.{Bytes, EventChain}
use loti.Domain.Ranges.{IsNodeId, IsShort, IsEventChain}
use loti.Wire.Result.{ok, Error, bad_magic}
use loti.Wire.Writer.{put_u8, put_chain}
use loti.Wire.RoundTrip.Rules.{Reads, Reads-bind, Reads-last, Reads-then}
use loti.Wire.RoundTrip.Scalars.{get_u64-put_u64, get_node_id-put_node_id, get_blob-put_blob}
use loti.Wire.RoundTrip.Objects.{get_chain-put_chain}
use loti.Wire.Packets.RoundTrip.{get_u8-put_u8}
use loti.Proof.{
  Kind, bounds, order, chain, other, Proof, magic, version, kind_byte, kind_of_byte, order_byte,
  order_of_byte, is_order, put_order, serialize, empty_chain, check, get_order, get_proof,
  deserialize,
}

-- A kind byte that names no enumerator.
abbrev pub IsKind : Kind → Type 0
IsKind bounds = Unit {0}
IsKind order = Unit {0}
IsKind chain = Unit {0}
IsKind (other b) = 2 < b

-- The range of `int8_t`.
abbrev pub IsInt8 : ℤ → Type 0
IsInt8 (pos n) = n < 128
IsInt8 (negsuc n) = n < 128

-- What an order proof has beside its chain; the other kinds do not write it.
abbrev pub IsOrderPart : Kind → EventChain → ℤ → Type 0
IsOrderPart order second o = IsEventChain second × IsInt8 o
IsOrderPart _ second o = Unit {0}

-- What is parsed of it: the defaults, where it is not written.
abbrev pub order_part_of : Kind → EventChain → ℤ → EventChain × ℤ
order_part_of order second o = (second, o)
order_part_of _ second o = (empty_chain, pos 0)

-- The proof without what its kind does not write.
abbrev pub as_written : Proof → Proof
as_written p = record p {
  event_chain2 = (order_part_of p.kind p.event_chain2 p.recorded_order).0;
  recorded_order = (order_part_of p.kind p.event_chain2 p.recorded_order).1;
}

pub record IsProof (p : Proof) : Type 0 where
  pub kind : IsKind p.kind
  pub node : IsNodeId p.reference.node
  pub pubkey : IsShort p.reference.pubkey
  pub event_chain : IsEventChain p.event_chain
  pub order_part : IsOrderPart p.kind p.event_chain2 p.recorded_order

kind_of_byte-kind_byte : (k : Kind) → IsKind k → kind_of_byte (kind_byte k) ≡ k
unfolding kind_of_byte kind_byte
kind_of_byte-kind_byte bounds h = refl
kind_of_byte-kind_byte order h = refl
kind_of_byte-kind_byte chain h = refl
kind_of_byte-kind_byte (other zero) h = absurd (omega arith)
kind_of_byte-kind_byte (other (suc zero)) h = absurd (omega arith)
kind_of_byte-kind_byte (other (suc (suc zero))) h = absurd (omega arith)
kind_of_byte-kind_byte (other (suc (suc (suc n)))) h = refl

order_of_byte-order_byte : (o : ℤ) → IsInt8 o → order_of_byte (order_byte o) ≡ o
unfolding order_of_byte order_byte
order_of_byte-order_byte (pos n) h = ground arith
order_of_byte-order_byte (negsuc n) h = ground arith

get_order-put_order :
    (k : Kind) (second : EventChain) (o : ℤ)
    → IsOrderPart k second o
    → Reads
        (get_order k)
        (if is_order k then put_chain second ++ put_u8 (order_byte o) else [])
        (order_part_of k second o)
unfolding get_order is_order
get_order-put_order bounds second o h = record { at = λ rest. cc }
get_order-put_order chain second o h = record { at = λ rest. cc }
get_order-put_order (other b) second o h = record { at = λ rest. cc }
get_order-put_order order second o (hc, ho) =
    Reads-bind _ (get_chain-put_chain second hc)
      (Reads-last _ (get_u8-put_u8 (order_byte o)) (λ rest. cc (order_of_byte-order_byte o ho)))

check-true : (e : Error) → (rest : Bytes) → check true e rest ≡ ok (tt, rest)
unfolding check
check-true e rest = refl

order_part-Reads :
    (p : Proof)
    → IsProof p
    → Reads
        (get_order (kind_of_byte (kind_byte p.kind)))
        (put_order p)
        (order_part_of p.kind p.event_chain2 p.recorded_order)
unfolding put_order
order_part-Reads p v =
    rw (kind_of_byte-kind_byte p.kind v.kind)
      (get_order-put_order p.kind p.event_chain2 p.recorded_order v.order_part)

get_proof-serialize : (p : Proof) → IsProof p → Reads get_proof (serialize p) (as_written p)
unfolding get_proof serialize
get_proof-serialize p v = Reads-bind _ (get_u64-put_u64 magic (omega arith)) (
    Reads-then _ (check-true bad_magic) (
      Reads-bind _ (get_u64-put_u64 version (omega arith)) (
        Reads-then _ (check-true _) (
          Reads-bind _ (get_u8-put_u8 (kind_byte p.kind)) (
            Reads-bind _ (get_node_id-put_node_id p.reference.node v.node) (
              Reads-bind _ (get_blob-put_blob p.reference.pubkey v.pubkey) (
                Reads-bind _ (get_chain-put_chain p.event_chain v.event_chain) (
                  Reads-last _ (order_part-Reads p v)
                    (λ rest. cc (kind_of_byte-kind_byte p.kind v.kind))))))))))

-- A proof of any kind, the fields that its kind writes in the range of their C++ types, is parsed back as it
-- was serialized, also when more bytes stand behind it; the second chain and the order, which only an order
-- proof writes, are their defaults in a proof of another kind.
pub deserialize-serialize :
    (p : Proof) (rest : Bytes) → IsProof p → deserialize (serialize p ++ rest) ≡ ok (as_written p)
unfolding deserialize
deserialize-serialize p rest v = rw ((get_proof-serialize p v).at rest, deserialize)
