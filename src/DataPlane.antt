-- ===== src/DataPlane.antt =====
-- data-plane/internal: the Go process that serves the rulesets, as far as it answers for the keys
-- that the control plane issues, and how it takes in what the control plane has stored.
pub mod Auth
pub mod Rulesets
