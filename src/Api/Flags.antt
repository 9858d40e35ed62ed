-- ===== src/Api/Flags.antt =====
-- control-plane/app/api/flags.py: flags and their targeting in each environment.
pub mod Indices
pub mod Config
pub mod Handlers
pub mod IndexLaws
pub mod Update
pub mod Replies
pub mod ReadBack
pub mod Written
pub mod Create
pub mod NewEnvironment
pub mod Refusals
pub mod Taken
pub mod Race
