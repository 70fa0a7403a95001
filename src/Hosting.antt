-- ===== src/Hosting.antt =====
-- hosting: the releases of a host.
pub mod Release
pub mod Backup
