-- ===== src/Checks.antt =====
-- The theorems at concrete inputs.
mod Sandboxes
mod Turns
mod Buckets
mod Keys
mod Tables
mod Bridges
mod Days
mod Rooms
mod Releases
mod Tools
mod Servers
mod Stores
