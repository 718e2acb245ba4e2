-- ===== src/Lib.antt =====
-- LOTI is a peer-to-peer network of nodes that timestamp events. A node publishes events and, on a timer,
-- clock events; both reference earlier ones by hash, so that an event comes to lie between two clock
-- events. A node asks others for the chain that encloses an event between two clock events of its own,
-- reads bounds on the event's time or the order of two events off such chains, and exports them as proofs
-- that anyone can check offline.
--
-- The files, and the code each is about (paths from the repository's root):
--   Domain          src/core/domain/types.hpp: identities, events, chains, discoveries. A 16-byte identity
--                   is the list of its bytes, int64_t an integer with its casts to and from uint64_t
--                   (Base/Int), other machine integers naturals with the reductions that the casts make;
--                   Domain/Ranges holds the ranges of the fields. `data` is the field `content`.
--   Wire            src/core/wire: Writer and Reader (codec.hpp), the datagrams (packets.cpp). A write is the
--                   bytes it appends, a Reader a function of the bytes that are left, an exception a
--                   constructor of Error.
--   Hash            src/core/hash/hashing.cpp: the bytes that are hashed, the accounted sizes.
--   Validate        src/core/validate/chain.cpp: verify_chain; Validate/Encloses says what a sound chain is,
--                   apart from how it is checked.
--   Proof           src/core/proof/proof.cpp: serialize, deserialize, verify.
--   Routing         src/core/routing/discovery_router.hpp: the forwarding policies.
--   Store           src/core/ports/store.hpp as src/adapters/sim/in_memory_store.hpp implements it.
--   Node            src/core/node.cpp and node.hpp, by the parts of node.cpp: State, Dag (publishing, clock
--                   events), Bounds (building chains), Bookkeeping (discoveries in flight), Forwarding
--                   (datagrams), Api (requests of the application, timers, purge), Hydration (construction,
--                   overlay, load) and Snapshot.
--   Keystore        src/adapters/os/keystore.cpp: the daemon's Signer, over OpenSSL as a parameter.
--   Lmdb            src/adapters/os/lmdb_store.cpp and lmdb_store.hpp: the persistent store. Engine is what it
--                   uses of LMDB, a record of operations and of laws that LMDB documents, which the other
--                   modules take as a parameter; an exception is a constructor of Try. Refinement relates
--                   it to the store in memory.
--   Control         src/adapters/os/control.hpp: the line of a request, and the replies as text; what the
--                   client has read is given to parse_reply, which does the rest of control_request. The
--                   socket is not modelled.
--   Daemon          src/app/lotid/lotid.cpp: words, the text of replies, the clock schedule; Daemon/Commands
--                   has the commands that need only the node, Daemon/Requests the request lines that
--                   src/app/loti/loti.cpp makes of its arguments, Daemon/Lines how a request comes in and
--                   is dispatched, Daemon/Waiting the clients that wait for chains and bounds.
--   Hex             src/app/loti/loti.cpp: byte strings in hexadecimal.
--   Base            numbers, lists, and tables in key order for std::map.
--   Examples        concrete data, and each theorem at a concrete input.
--
-- How they interact: the node runs on a Store, sends and receives the datagrams of Wire, hashes by Hash,
-- completes a discovery only after Validate, and asks Routing where to send a request. A datagram enters by
-- on_packet_received, a call of the application by discover_event_chain, discover_event_bounds,
-- discover_event_order or publish_event, a timer by on_clock_timer or on_purge_timer.
--
-- State is passed on explicitly: a handler takes the Node and answers an Outcome, which is the next Node or
-- a Fault where the code would fail an assertion, read an empty optional or leave a container's bounds.
-- Calls of the transport, the scheduler, the telemetry and the application's callbacks are appended to the
-- log `effects`. SHA-256 (a vendored library), the Signer port and the salts of the Rng port are the
-- parameters of Env; the Clock port is the field `now`, read once for each call of the node.
--
-- The two loops that walk a node's own chain run on fuel, one round more than sequence numbers were
-- handed out (Node/Bounds), which a walk that moves to lower, or to higher, sequence numbers only does not
-- use up. The loop of a durable write runs on fuel for its rounds, each of which doubles the map (Lmdb/Growth
-- says how many are enough). All other loops are structural recursion.
--
-- Not modelled: callbacks of an application that call back into the node; timer identities; the stream
-- printer of identities; out-of-range reads of unreferenced_per_chain_, read as empty; key files; cursors
-- of LMDB that fail half way, and transactions that cannot be begun; the other adapters, the rest of
-- the command line, the daemon's options and its commands that wait for a discovery, and the simulation
-- modules, which are input and output around the core. compare_chains is asked only of chains that were
-- accepted, which have both ends.
pub mod Base
pub mod Domain
pub mod Wire
pub mod Hash
pub mod Validate
pub mod Proof
pub mod Routing
pub mod Store
pub mod Node
pub mod Keystore
pub mod Hex
pub mod Lmdb
pub mod Control
pub mod Daemon
pub mod Examples
