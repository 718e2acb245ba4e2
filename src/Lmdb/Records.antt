-- ===== src/Lmdb/Records.antt =====
-- src/adapters/os/lmdb_store.cpp: the keys and the values of the sub-databases.
use loti.Base.{ℕ, List, ◌++◌, length}
use loti.Base.{take}
use loti.Domain.{Bytes, NodeId, EventHash, TimedRoute, be_bytes}
use loti.Wire.Result.{Reader, ok, err, ◌>>=◌, pure, read_many}
use loti.Wire.Writer.{put_u64, put_blob, put_time_range, put_node_ids, put_each}
use loti.Wire.Reader.{get_u64, get_blob, get_time_range, get_node_ids, shift_in}
use loti.Lmdb.Engine.{Try, returned, thrown}

-- The eight bytes of a sequence number, the highest first.
unfoldable pub put_u64_be : ℕ → Bytes
unfolding be_bytes
put_u64_be v = be_bytes 8 v

-- `v = (v << 8) | p[i]` over eight bytes.
unfoldable pub get_u64_be : Bytes → ℕ
unfolding shift_in
get_u64_be p = shift_in 64 0 (take 8 p)

-- The copies of the sixteen bytes of an identity.
abbrev pub node_id_key : NodeId → Bytes
node_id_key id = id

unfoldable pub node_id_of_key : Bytes → NodeId
node_id_of_key p = take 16 p

-- The value of a neighbor: the number of its tips, and the tips.
unfoldable pub put_tips : List EventHash → Bytes
put_tips hs = put_u64 (length hs) ++ put_each put_blob hs

-- The value of a destination: the number of its routes, and each one's window and next hops.
unfoldable pub put_timed_route : TimedRoute → Bytes
put_timed_route r = put_time_range r.validity ++ put_node_ids r.next_hops

unfoldable pub put_timed_route_list : List TimedRoute → Bytes
unfolding put_timed_route
put_timed_route_list rs = put_u64 (length rs) ++ put_each put_timed_route rs

-- `for (auto m = r.u64(); m > 0; --m) push_back(r.blob())`
unfoldable pub get_tips : Reader (List EventHash)
get_tips = do n ← get_u64; read_many n get_blob

unfoldable pub get_timed_route : Reader TimedRoute
get_timed_route = do
  validity ← get_time_range
  next_hops ← get_node_ids
  pure (record { validity = validity; next_hops = next_hops })

unfoldable pub get_timed_route_list : Reader (List TimedRoute)
unfolding get_timed_route
get_timed_route_list = do n ← get_u64; read_many n get_timed_route

-- A reader of a whole record; what it leaves is not looked at, and an error is an exception.
unfoldable pub read_record {ℓ} : {A : Type ℓ} → Reader A → Bytes → Try A
read_record r bytes = elim (r bytes) [ ok (a, rest) ↦ returned a | err e ↦ thrown ]
