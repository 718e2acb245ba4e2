-- ===== src/Proof.antt =====
-- src/core/proof: the portable proof, its binary form and its offline verification.
-- SHA-256 and the Signer port's `verify` are parameters.
pub mod RoundTrip
pub mod Verdict
use loti.Base.{
  ℕ, zero, suc, ◌-◌, ◌+◌, ℤ, pos, negsuc, ltb, ltb_ℤ, nat_eq, Bool, true, false, not, ◌&&◌,
}
use loti.Base.{
  List, [], ◌∷◌, ◌++◌, Option, none, some, head?, last?, take, replicate, if◌then◌else◌, ◌%◌,
}
use loti.Base.Key.{bytes_eq}
use loti.Domain.{
  Bytes, NodeId, EventHash, Signature, Timestamp, EventChain, Order, before, undetermined, after,
}
use loti.Wire.Result.{
  Result, Reader, ok, err, Error, bad_magic, bad_version, ◌>>=◌, ◌>>◌, pure, throw,
}
use loti.Wire.Writer.{put_u8, put_u64, put_node_id, put_blob, put_chain}
use loti.Wire.Reader.{get_u8, get_u64, get_node_id, get_blob, get_chain}
use loti.Validate.{Reason, ChainResult, timestamp_of, verify_chain}

-- `enum class Kind : std::uint8_t`; a byte that names no enumerator is a value of it too.
pub data Kind : Type 0 where
  bounds order chain : Kind
  other : ℕ → Kind

pub record Reference : Type 0 where
  pub node : NodeId
  pub pubkey : Bytes

-- `order` is the integer of the enumeration, which a cast from a byte need not name.
pub record Proof : Type 0 where
  pub kind : Kind
  pub reference : Reference
  pub event_chain : EventChain
  pub event_chain2 : EventChain
  pub recorded_order : ℤ

abbrev pub magic : ℕ
magic = 0x4C4F544950524F46

abbrev pub version : ℕ
version = 1

-- `enum class Order : int`
unfoldable pub order_value : Order → ℤ
order_value before = negsuc 0
order_value undetermined = pos 0
order_value after = pos 1

unfoldable pub kind_byte : Kind → ℕ
kind_byte bounds = 0
kind_byte order = 1
kind_byte chain = 2
kind_byte (other b) = b

unfoldable pub kind_of_byte : ℕ → Kind
kind_of_byte zero = bounds
kind_of_byte (suc zero) = order
kind_of_byte (suc (suc zero)) = chain
kind_of_byte (suc (suc (suc n))) = other (suc (suc (suc n)))

-- The cast to `int8_t` and on to `uint8_t`.
unfoldable pub order_byte : ℤ → ℕ
order_byte (pos n) = n % 256
order_byte (negsuc n) = 255 - n % 256

-- The cast of a byte to `int8_t` and on to `Order`.
unfoldable pub order_of_byte : ℕ → ℤ
order_of_byte b = if ltb b 128 then pos b else negsuc (255 - b)

unfoldable pub is_order : Kind → Bool
is_order order = true
is_order bounds = false
is_order chain = false
is_order (other b) = false

unfoldable pub put_order : Proof → Bytes
put_order p =
    if is_order p.kind then put_chain p.event_chain2 ++ put_u8 (order_byte p.recorded_order) else []

unfoldable pub serialize : Proof → Bytes
unfolding put_order
serialize p =
    put_u64 magic
    ++ (put_u64 version
        ++ (put_u8 (kind_byte p.kind)
            ++ (put_node_id p.reference.node
                ++ (put_blob p.reference.pubkey ++ (put_chain p.event_chain ++ put_order p)))))

-- The chain of a default-constructed `Proof`.
abbrev pub empty_chain : EventChain
empty_chain = record {
  event = record {
    creator = replicate 16 0;
    hash = [];
    content = [];
    salt = 0;
    referenced_events = [];
    signature = [];
  };
  lower_bound = [];
  upper_bound = [];
}

unfoldable pub check : Bool → Error → Reader (Unit {0})
check b e = if b then pure tt else throw e

-- What follows `chain`: the second chain and the order, for an order proof.
unfoldable pub get_order : Kind → Reader (EventChain × ℤ)
get_order kind =
    if is_order kind
    then (do second ← get_chain; o ← get_u8; pure (second, order_of_byte o))
    else pure (empty_chain, pos 0)

unfoldable pub get_proof : Reader Proof
get_proof = do
  m ← get_u64
  check (nat_eq m magic) bad_magic
  v ← get_u64
  check (nat_eq v version) bad_version
  kind ← get_u8
  node ← get_node_id
  pubkey ← get_blob
  first ← get_chain
  rest ← get_order (kind_of_byte kind)
  pure (record {
    kind = kind_of_byte kind;
    reference = record { node = node; pubkey = pubkey };
    event_chain = first;
    event_chain2 = rest.0;
    recorded_order = rest.1;
  })

unfoldable pub deserialize : Bytes → Result Proof
deserialize bytes = elim (get_proof bytes) [ ok (p, rest) ↦ ok p | err e ↦ err e ]

-- The order that two chains' intervals imply; it is asked of accepted chains, which have both ends.
-- `Node::compare_event_chains` is the same.
unfoldable pub compare_chains : EventChain → EventChain → Order
compare_chains a b =
    if ltb_ℤ (timestamp_of (last? a.upper_bound)) (timestamp_of (head? b.lower_bound))
    then before
    else if ltb_ℤ (timestamp_of (last? b.upper_bound)) (timestamp_of (head? a.lower_bound))
    then after
    else undetermined

unfoldable pub int_eq : ℤ → ℤ → Bool
int_eq (pos a) (pos b) = nat_eq a b
int_eq (pos a) (negsuc b) = false
int_eq (negsuc a) (pos b) = false
int_eq (negsuc a) (negsuc b) = nat_eq a b

-- One constructor for each source of the text in `reason`.
pub data VerifyReason : Type 0 where
  pubkey_mismatch order_mismatch : VerifyReason
  chain_unsound : Option Reason → VerifyReason

pub record VerifyResult : Type 0 where
  pub valid : Bool
  pub reason : Option VerifyReason
  pub lower : Timestamp
  pub upper : Timestamp
  pub order : ℤ

-- A result that is not valid, with the interval that was set before the check that failed.
abbrev pub refused : VerifyReason → Timestamp → Timestamp → VerifyResult
refused why lower upper = record {
  valid = false;
  reason = some why;
  lower = lower;
  upper = upper;
  order = pos 0;
}

unfoldable pub is_blank : Bytes → Bool
is_blank [] = true
is_blank (b ∷ bs) = false

module _ (sha256 : Bytes → EventHash) (verify_signature : Bytes → Signature → NodeId → Bool) where
  -- The first 16 bytes of the digest; bytes that it lacks stay 0.
  unfoldable pub fingerprint : Bytes → NodeId
  fingerprint public_key = take 16 (sha256 public_key ++ replicate 16 0)

  -- `!pubkey.empty() && fingerprint(pubkey) != node`
  unfoldable pub wrong_key : Reference → Bool
  unfolding is_blank fingerprint
  wrong_key r = not (is_blank r.pubkey) && not (bytes_eq (fingerprint r.pubkey) r.node)

  -- The second chain and the recorded order of an order proof, after the first chain is accepted.
  unfoldable pub judge_order : Proof → ChainResult → VerifyResult
  judge_order p c1 =
      let c2 = verify_chain sha256 verify_signature p.event_chain2 p.reference.node in
      if not c2.ok
      then refused (chain_unsound c2.reason) c1.lower c1.upper
      else if not
          (int_eq (order_value (compare_chains p.event_chain p.event_chain2)) p.recorded_order)
      then refused order_mismatch c1.lower c1.upper
      else record {
        valid = true;
        reason = none;
        lower = c1.lower;
        upper = c1.upper;
        order = p.recorded_order;
      }

  unfoldable pub verify : Proof → VerifyResult
  unfolding wrong_key judge_order
  verify p =
      let c1 = verify_chain sha256 verify_signature p.event_chain p.reference.node in
      if wrong_key p.reference
      then refused pubkey_mismatch (pos 0) (pos 0)
      else if not c1.ok
      then refused (chain_unsound c1.reason) (pos 0) (pos 0)
      else if is_order p.kind
      then judge_order p c1
      else record { valid = true; reason = none; lower = c1.lower; upper = c1.upper; order = pos 0 }
