-- ===== src/Evaluation.antt =====
-- evoharness/evaluation: what an evaluation is recorded as, and what the record may be used for.
pub mod Blank
pub mod Faults
pub mod Values
pub mod Namespace
pub mod Evidence
pub mod Codec
pub mod Policy
pub mod Report
pub mod Sink
pub mod Strict
pub mod Producer
pub mod Tests
