-- ===== src/Controllers/Reconciler.antt =====
-- The reconciler, controllers/flinkcluster_reconciler.go: it drives the observed objects towards the
-- desired ones.
pub mod Components
pub mod Savepoints
pub mod Round
