-- ===== src/Sandbox.antt =====
-- metaharness/sandbox: named sandboxes behind a backend. Types are its data, Entry the goroutine
-- of one sandbox, Manager the table of them.
pub mod Types
pub mod Entry
pub mod Manager
