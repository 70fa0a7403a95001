-- ===== src/Bridge/Xmpp.antt =====
-- metaharness/bridge/xmpp: the bridge to XMPP.
pub mod Schedule
pub mod Queue
pub mod Config
pub mod Stanzas
pub mod Serve
