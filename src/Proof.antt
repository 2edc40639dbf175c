-- ===== src/Proof.antt =====
-- evoharness/proof: the proof graph.
pub mod Graph
pub mod Store
pub mod Solver
pub mod Controller
pub mod Tests
pub mod Policy
pub mod Scope
pub mod Assembly
