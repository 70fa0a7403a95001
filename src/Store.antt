-- ===== src/Store.antt =====
-- metaharness/agentdb/turso: the key-value table of an agent's database.
pub mod Keys
pub mod Table
pub mod Notes
pub mod Sessions
pub mod Migrations
