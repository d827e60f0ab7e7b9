-- ===== src/Terminal.antt =====
-- The terminal plugin, plugins/terminal/.
pub mod Portforward
pub mod Endpoints
pub mod Typing
