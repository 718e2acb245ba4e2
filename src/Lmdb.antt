-- ===== src/Lmdb.antt =====
-- src/adapters/os/lmdb_store.hpp and lmdb_store.cpp: the persistent store, over LMDB as a parameter.
pub mod Engine
pub mod Records
pub mod State
pub mod Batch
pub mod Reads
pub mod Prune
pub mod Growth
pub mod Keys
pub mod Refinement
