-- ===== src/Node.antt =====
-- src/core/node.hpp and node.cpp: the protocol engine, on the in-memory store.
pub mod Outcome
pub mod State
pub mod Dag
pub mod Bounds
pub mod Bookkeeping
pub mod Completion
pub mod Completed
pub mod Forwarding
pub mod Flood
pub mod Aborts
pub mod Enclosure
pub mod Notifications
pub mod Api
pub mod Hydration
pub mod Snapshot
pub mod Requests
pub mod Purge
pub mod Reachable
