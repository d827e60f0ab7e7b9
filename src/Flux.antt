-- ===== src/Flux.antt =====
-- The Flux plugin, plugins/flux/.
pub mod ReadyStatus
