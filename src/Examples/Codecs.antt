-- ===== src/Examples/Codecs.antt =====
-- Examples of the round trips and of the routing of a request.
use loti.Base.{ℕ, ◌≡◌, refl, arith, negsuc, [], ◌∷◌, ◌++◌, some, ◌<◌}
use loti.Domain.Ranges.{IsReference, IsEventChain, IsEvent, IsClockEvent}
use loti.Wire.Result.{ok}
use loti.Wire.Packets.{ChainRequest, chain_request, encode, decode, sender_of}
use loti.Wire.Packets.RoundTrip.{IsRequest, decode-encode, sender_of-decode}
use loti.Wire.Reader.{get_chain}
use loti.Wire.Writer.{put_chain}
use loti.Wire.RoundTrip.Rules.{Reads}
use loti.Wire.RoundTrip.Objects.{get_chain-put_chain}
use loti.Proof.{Proof, order, serialize, deserialize}
use loti.Proof.RoundTrip.{IsProof, deserialize-serialize}
use loti.Node.Snapshot.{snapshot, get_image}
use loti.Node.Snapshot.RoundTrip.{image_of, IsWritable, get_image-snapshot}
use loti.Examples.{me, peer, far, one_to_ten, the_chain, the_event, first_tick, second_tick, ticked}

abbrev the_request : ChainRequest
the_request = record {
  originator = far;
  event = record { creator = me; hash = 26 ∷ [] };
  range = one_to_ten;
  hop_limit = 4;
  path = far ∷ [];
}

the_request-IsRequest : IsRequest the_request
the_request-IsRequest = record {
  originator = refl;
  event = record { creator = refl; hash = omega arith };
  range = record { lo = omega arith; hi = omega arith };
  hop_limit = omega arith;
  path = record { short = omega arith; each = (refl, tt) };
}

decode-encode_example :
    decode (encode peer (chain_request the_request) ++ (0 ∷ []))
    ≡ ok (record { sender = peer; payload = chain_request the_request })
decode-encode_example =
    decode-encode peer (chain_request the_request) (0 ∷ []) refl the_request-IsRequest

sender_of-decode_example : sender_of (encode peer (chain_request the_request) ++ []) ≡ some peer
sender_of-decode_example =
    sender_of-decode (encode peer (chain_request the_request) ++ [])
      (record { sender = peer; payload = chain_request the_request })
      (decode-encode peer (chain_request the_request) [] refl the_request-IsRequest)

tick-IsReference : (h : ℕ) → h < 256 → IsReference (record { creator = me; hash = h ∷ [] })
tick-IsReference h b = record { creator = refl; hash = omega arith }

pub the_event-IsEvent : IsEvent the_event
the_event-IsEvent = record {
  creator = refl;
  hash = omega arith;
  content = omega arith;
  salt = omega arith;
  referenced_events = record {
    short = omega arith;
    each = (tick-IsReference 24 (omega arith), tt);
  };
  signature = omega arith;
}

first_tick-IsClockEvent : IsClockEvent first_tick
first_tick-IsClockEvent = record {
  creator = refl;
  hash = omega arith;
  chain = omega arith;
  timestamp = omega arith;
  salt = omega arith;
  referenced_events = record { short = omega arith; each = tt };
  signature = omega arith;
}

second_tick-IsClockEvent : IsClockEvent second_tick
second_tick-IsClockEvent = record {
  creator = refl;
  hash = omega arith;
  chain = omega arith;
  timestamp = omega arith;
  salt = omega arith;
  referenced_events = record {
    short = omega arith;
    each = (tick-IsReference 26 (omega arith), tt);
  };
  signature = omega arith;
}

the_chain-IsEventChain : IsEventChain the_chain
the_chain-IsEventChain = record {
  event = the_event-IsEvent;
  lower_bound = record { short = omega arith; each = (first_tick-IsClockEvent, tt) };
  upper_bound = record { short = omega arith; each = (second_tick-IsClockEvent, tt) };
}

get_chain-put_chain_example : Reads get_chain (put_chain the_chain) the_chain
get_chain-put_chain_example = get_chain-put_chain the_chain the_chain-IsEventChain

-- An order proof that records `before`, which is the negative value.
abbrev backward : Proof
backward = record {
  kind = order;
  reference = record { node = me; pubkey = 1 ∷ 2 ∷ [] };
  event_chain = the_chain;
  event_chain2 = the_chain;
  recorded_order = negsuc 0;
}

backward-IsProof : IsProof backward
backward-IsProof = record {
  kind = tt;
  node = refl;
  pubkey = omega arith;
  event_chain = the_chain-IsEventChain;
  order_part = (the_chain-IsEventChain, omega arith);
}

deserialize-serialize_example : deserialize (serialize backward ++ (9 ∷ [])) ≡ ok backward
deserialize-serialize_example = deserialize-serialize backward (9 ∷ []) backward-IsProof

ticked-IsWritable : IsWritable ticked
unfolding loti.Store.load_clock_events loti.Node.Snapshot.first_tail loti.Node.Snapshot.entries
ticked-IsWritable = record {
  events = record { short = omega arith; each = tt };
  clock_events = record {
    short = omega arith;
    each = (
      record {
        base = first_tick-IsClockEvent;
        referencing_events = record { short = omega arith; each = tt };
      },
      tt,
    );
  };
  tail = record { short = omega arith; each = tt };
  neighbors = record {
    short = omega arith;
    each = (record { node_id = refl; hashes = record { short = omega arith; each = tt } }, tt);
  };
  routes = record { short = omega arith; each = (record { dst = refl; next_hop = refl }, tt) };
}

get_image-snapshot_example : get_image (snapshot ticked ++ (8 ∷ [])) ≡ ok (image_of ticked, 8 ∷ [])
get_image-snapshot_example = get_image-snapshot ticked (8 ∷ []) ticked-IsWritable
