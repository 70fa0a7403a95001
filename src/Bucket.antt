-- ===== src/Bucket.antt =====
-- bucket/: the object store, its signing client, and mail through it.
pub mod Types
pub mod Fake
pub mod Client
pub mod Mail
