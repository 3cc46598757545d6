-- ===== src/Ingest.antt =====
-- pkg/tools/ingest: what the loaders of SBOMs and OSV records add to the graph.
pub mod Osv
pub mod Affected
pub mod Purl
pub mod Sbom
pub mod Loader
pub mod Priorities
pub mod Vex
pub mod Scorecards
pub mod Epss
