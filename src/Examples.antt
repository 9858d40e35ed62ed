-- ===== src/Examples.antt =====
-- Runs of the program on concrete inputs, and each property at one of them.
mod Data
mod Runs
mod Flags
mod Flush
mod Bucket
mod Segments
mod Credentials
mod Server
mod Startup
mod Sdk
mod Decoded
mod Race
mod Keys
mod Rulesets
