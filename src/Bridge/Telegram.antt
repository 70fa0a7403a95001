-- ===== src/Bridge/Telegram.antt =====
-- metaharness/bridge/telegram: the bridge to Telegram.
pub mod Serve
