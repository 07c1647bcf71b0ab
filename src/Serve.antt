-- ===== src/Serve.antt =====
-- The handlers that keep no state: static, echo, not found, health and block.
pub mod Static
pub mod Simple
