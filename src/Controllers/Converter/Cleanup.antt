-- ===== src/Controllers/Converter/Cleanup.antt =====
-- Which components the cleanup policy removes.
use flink_on_k8s_operator.Base.{true, ◌≡◌, ◌↔◌, ◌⊎◌, arith}
use flink_on_k8s_operator.Base.Run.{done}
use flink_on_k8s_operator.Api.{JobState, CleanupAction, FlinkCluster}
use flink_on_k8s_operator.Webhook.Validate.Create.{Given}
use flink_on_k8s_operator.Controllers.Converter.{Component, should_cleanup}

-- The job ended in a state for which its policy has this action.
abbrev pub CallsFor : FlinkCluster → CleanupAction → Type 0
CallsFor cluster action =
    Given
      (λ status.
        Given
          (λ job.
            Given
              (λ policy.
                ((status.state ≡ JobState.succeeded) × (policy.after_job_succeeds ≡ action))
                ⊎ ((status.state ≡ JobState.failed) × (policy.after_job_fails ≡ action))
                ⊎ ((status.state ≡ JobState.cancelled) × (policy.after_job_cancelled ≡ action)))
              job.cleanup_policy)
          cluster.spec.job)
      cluster.status.components.job

-- A component is cleaned up exactly when the recorded job ended and its policy then deletes the
-- cluster, or deletes the TaskManager and the component is its deployment.
pub should_cleanup_iff :
    (cluster : FlinkCluster) (component : Component)
    → (should_cleanup cluster component ≡ done true) ↔ (
        CallsFor cluster CleanupAction.delete_cluster
        ⊎ (CallsFor cluster CleanupAction.delete_task_manager
            × (component ≡ Component.task_manager_deployment)))
unfolding should_cleanup
should_cleanup_iff cluster component = ground arith
