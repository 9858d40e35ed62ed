-- ===== src/Conformance.antt =====
-- conformance: the reference bucketing that the evaluators are checked against.
pub mod Bucket
pub mod Bounds
pub mod Rollout
