-- ===== src/App.antt =====
-- control-plane/app/main.py: the application that the routers of control-plane/app/api make up,
-- request by request.
pub mod Responses
pub mod Requests
pub mod Reads
pub mod Steps
pub mod Refines
pub mod Served
pub mod Consistent
pub mod Rows
pub mod Flushed
pub mod Creations
pub mod Updates
pub mod Invariant
pub mod Audited
pub mod Log
pub mod History
pub mod Revocation
pub mod Shown
pub mod Answers
pub mod Reading
