-- ===== src/Store.antt =====
-- The database that the control plane works on, and its transactions.
pub mod Engine
pub mod Compare
pub mod Session
pub mod Actions
pub mod Tables
pub mod Sorting
pub mod Memory
pub mod Relations
