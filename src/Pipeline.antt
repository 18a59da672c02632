-- ===== src/Pipeline.antt =====
-- app/pipeline: the orchestrator and what it is built from.
pub mod Selecting
pub mod Stages
pub mod Run
pub mod Streaming
