-- ===== src/Tests.antt =====
-- Runs of the definitions at concrete inputs, and the theorems applied to such inputs.
pub mod Streaming
pub mod Guards
pub mod Session
pub mod Leads
pub mod Discovery
pub mod Social
pub mod Providers
pub mod Gather
pub mod Settings
pub mod Run
pub mod Api
pub mod Fetchers
pub mod Manager
pub mod Released
pub mod Singleton
