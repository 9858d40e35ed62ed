-- ===== src/Api.antt =====
-- control-plane/app/api: the request handlers.
pub mod Common
pub mod Projects
pub mod Flags
pub mod Segments
pub mod Credentials
pub mod Audit
pub mod Lookups
pub mod Parts
pub mod Listings
