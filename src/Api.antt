-- ===== src/Api.antt =====
-- The custom resource, api/v1beta1/flinkcluster_types.go: its spec, its status, and equality of specs.
mod Spec
mod Status
mod Equality
pub use Spec.*
pub use Status.*
pub use Equality.*
