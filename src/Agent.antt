-- ===== src/Agent.antt =====
-- metaharness/agent and metaharness/model: messages, sessions, and the loop that runs a turn.
pub mod Message
pub mod Session
pub mod Run
pub mod Parts
pub mod Sessions
pub mod Wiring
pub mod Stream
