-- ===== src/Tools.antt =====
-- metaharness/tools: what the tools do in a session's sandbox.
pub mod Strings
pub mod Shell
pub mod Edit
pub mod Read
pub mod Skill
