-- ===== src/Logs.antt =====
-- The logging plugin, plugins/logging/src/logs.
pub mod Buffer
pub mod Pagination
pub mod Ansi
pub mod Parse
pub mod Stream
pub mod Earlier
pub mod Hints
