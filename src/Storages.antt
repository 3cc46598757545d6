-- ===== src/Storages.antt =====
-- pkg/storages: the storages that keep the graph outside the process.
pub mod Sql
