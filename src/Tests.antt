-- ===== src/Tests.antt =====
-- Runs at concrete inputs.
pub mod Parts
pub mod State
pub mod Watch
pub mod Passes
pub mod Parser
pub mod Client
pub mod Backfill
pub mod Listed
pub mod Api
