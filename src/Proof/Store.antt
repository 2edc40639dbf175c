-- ===== src/Proof/Store.antt =====
-- evoharness/proof/store.py: the SQLite tables, the methods that read and write them, and the
-- propagation of statuses.
pub mod State
pub mod Write
pub mod Shape
pub mod Leases
pub mod Propagate
pub mod Schema
pub mod Proves
pub mod Current
