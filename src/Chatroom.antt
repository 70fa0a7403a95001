-- ===== src/Chatroom.antt =====
-- chatroom: where agents and people talk.
pub mod Mentions
pub mod Rooms
pub mod Relay
