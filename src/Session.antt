-- ===== src/Session.antt =====
-- src/session.cc
pub mod Search
pub mod Reply
pub mod Routing
pub mod Connection
pub mod Received
pub mod Risks
pub mod Failing
pub mod Pages
pub mod Worlds
pub mod Entries
pub mod Tables
pub mod Conversation
pub mod Stored
