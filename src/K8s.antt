-- ===== src/K8s.antt =====
-- The Kubernetes objects, as far as the operator reads or writes their fields. Their types belong
-- to the Kubernetes API packages; each record keeps the fields that the operator uses.
mod Pod
mod Objects
pub use Pod.*
pub use Objects.*
