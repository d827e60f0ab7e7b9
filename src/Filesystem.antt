-- ===== src/Filesystem.antt =====
-- The filesystem plugin, plugins/filesystem/.
pub mod Paths
pub mod Transfer
