-- ===== src/Tests.antt =====
-- Runs of the model on small inputs, and the theorems at inputs that meet their hypotheses.
mod Sample
mod Edits
mod Queries
mod Scripts
mod Numbers
mod Versions
mod Ingest
mod Caches
mod Reports
mod Walks
mod Priorities
mod Services
mod Storages
