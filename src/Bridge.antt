-- ===== src/Bridge.antt =====
-- metaharness/bridge: the chat bridges to Telegram and XMPP.
pub mod Split
pub mod Lines
pub mod Desk
pub mod Commands
pub mod Status
pub mod Turns
pub mod Xmpp
pub mod Telegram
