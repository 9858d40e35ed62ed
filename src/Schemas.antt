-- ===== src/Schemas.antt =====
-- control-plane/app/schemas: the request and response models, their validation and their JSON.
pub mod Pydantic
pub mod Flag
pub mod Limits
pub mod Load
pub mod Dump
pub mod Accepted
pub mod RoundTrip
pub mod Soundness
pub mod Catalog
pub mod FlagCreate
pub mod Segment
pub mod Credential
pub mod Bodies
