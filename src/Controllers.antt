-- ===== src/Controllers.antt =====
-- The controller, controllers/: one round observes the cluster, updates its status, computes the
-- desired objects and acts on the difference.
pub mod State
pub mod Util
pub mod Effects
pub mod Observer
pub mod Updater
pub mod Calls
pub mod FlinkClient
pub mod HttpClient
pub mod Converter
pub mod Reconciler
pub mod Handler
pub mod Tests
