-- ===== src/Api/Equality.antt =====
-- `reflect.DeepEqual` on the API types, and `!=` on the comparable ones, as decisions. A nil and an
-- empty slice are the same list here.
use flink_on_k8s_operator.Base.{
  ◌≡◌, ◌↔◌, Bool, true, is_yes, is_yes_iff, string_discrete, ℕ_discrete,
}
use flink_on_k8s_operator.Api.Spec.{FlinkClusterSpec}
use flink_on_k8s_operator.Api.Status.{
  ClusterState, FlinkClusterComponentState, JobManagerServiceStatus, ComponentState, JobState,
  JobStatus,
}

unfoldable pub FlinkClusterSpec-discrete : Discrete FlinkClusterSpec
unfolding string_discrete ℕ_discrete
FlinkClusterSpec-discrete = hlevel (ℕ_discrete, string_discrete)

-- `reflect.DeepEqual` of two specs.
unfoldable pub equal_specs : FlinkClusterSpec → FlinkClusterSpec → Bool
unfolding FlinkClusterSpec-discrete
equal_specs a b = is_yes (FlinkClusterSpec-discrete a b)

pub equal_specs_iff : (a b : FlinkClusterSpec) → (equal_specs a b ≡ true) ↔ (a ≡ b)
unfolding equal_specs
equal_specs_iff a b = is_yes_iff (FlinkClusterSpec-discrete a b)

unfoldable pub ClusterState-discrete : Discrete ClusterState
unfolding string_discrete
ClusterState-discrete = hlevel string_discrete

unfoldable pub ComponentState-discrete : Discrete ComponentState
unfolding string_discrete
ComponentState-discrete = hlevel string_discrete

unfoldable pub ComponentStatus-discrete : Discrete FlinkClusterComponentState
unfolding string_discrete
ComponentStatus-discrete = hlevel string_discrete

unfoldable pub ServiceStatus-discrete : Discrete JobManagerServiceStatus
unfolding string_discrete ℕ_discrete
ServiceStatus-discrete = hlevel (ℕ_discrete, string_discrete)

-- `reflect.DeepEqual` of two job statuses.
unfoldable pub JobStatus-discrete : Discrete JobStatus
unfolding string_discrete ℕ_discrete
JobStatus-discrete = hlevel (ℕ_discrete, string_discrete)

unfoldable pub JobState-discrete : Discrete JobState
unfolding string_discrete
JobState-discrete = hlevel string_discrete
