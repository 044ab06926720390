-- ===== src/Discord.antt =====
-- surfaces/discord: the conversations of the gateway and its log of turns. The gateway itself is network
-- code.
pub mod Conversation
pub mod Sessions
pub mod Isolation
pub mod Turns
mod Tests
