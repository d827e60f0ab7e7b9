-- ===== src/Dns.antt =====
-- The external-dns plugin, plugins/external-dns/.
pub mod Hostnames
