-- ===== src/Sdk.antt =====
-- sdk/go/flageval: the evaluation of a flag for a context, which the Go SDK and the data plane share.
pub mod Run
pub mod Values
pub mod Types
pub mod Attributes
pub mod Bucket
pub mod Clauses
pub mod Evaluate
pub mod Agreement
pub mod Ruleset
