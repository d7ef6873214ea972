-- ===== src/Controllers/Updater/Tests.antt =====
-- The updater at a sample cluster.
use flink_on_k8s_operator.Base.{◌≤◌, none, some, false, ◌≡◌, refl, ◌↔◌}
use flink_on_k8s_operator.Base.Int.{pos, succ_int32}
use flink_on_k8s_operator.Base.Run.{done, Yields}
use flink_on_k8s_operator.Api.{ClusterState, JobState, JobStatus, FlinkClusterStatus}
use flink_on_k8s_operator.Controllers.Util.{get_from_savepoint, from_savepoint_arg}
use flink_on_k8s_operator.Controllers.Updater.{
  get_deployment_state, derive_config_map, derive_deployment, derive_service, derive_ingress,
}
use flink_on_k8s_operator.Controllers.Updater.Derive.{
  no_flags, get_flink_job_id, derive_present_job, derive_job, derive_running_state, derive_state,
}
use flink_on_k8s_operator.Controllers.Updater.Status.{derive_components, derive_cluster_status}
use flink_on_k8s_operator.Controllers.Updater.Changes.{is_status_changed, update_status_if_changed}
use flink_on_k8s_operator.Controllers.Updater.Machine.{Step, derive_state_iff}
use flink_on_k8s_operator.Controllers.Updater.Rounds.{
  none_yet, round, phase, Rounds-phase, derive_state_settles,
}
use flink_on_k8s_operator.Controllers.Updater.Safety.{
  IsSound, IsSane, updated, update_status_if_changed-IsSound,
}
use flink_on_k8s_operator.Controllers.Updater.Jobs.{
  KeepsSavepoint, CountsRestart, derive_job-KeepsSavepoint, derive_job-CountsRestart,
  derive_job-stable,
}
use flink_on_k8s_operator.Controllers.Updater.Ready.{
  IsDerivation, derive_cluster_status-IsDerivation,
}
use flink_on_k8s_operator.Controllers.Updater.Components.{
  LooksSame, derive_components-stable, is_status_changed-false_iff,
}
use flink_on_k8s_operator.Samples.{
  sample_job_spec, sample_job_status, sample_status, sample_cluster, sample_job, sample_observed,
}

abbrev failed_status : JobStatus
failed_status = record sample_job_status { state = JobState.failed }

abbrev restarted : JobStatus
restarted = record sample_job_status { from_savepoint = "gs://savepoints/1"; restart_count = pos 1 }

sample_job_derived :
    derive_job (some sample_job) (some "a1") (some failed_status) (some sample_job_spec)
    ≡ done (some restarted, no_flags)
unfolding derive_job derive_present_job get_from_savepoint from_savepoint_arg succ_int32
sample_job_derived = refl

sample_job_followed :
    derive_job
      (some sample_job)
      (get_flink_job_id (some "a1") (some failed_status))
      (some failed_status)
      (some sample_job_spec)
    ≡ done (some restarted, no_flags)
unfolding derive_job derive_present_job get_from_savepoint from_savepoint_arg get_flink_job_id
    succ_int32
sample_job_followed = refl

derive_job-KeepsSavepoint_example :
    (new : JobStatus) × (some restarted ≡ some new) × KeepsSavepoint failed_status new
derive_job-KeepsSavepoint_example =
    derive_job-KeepsSavepoint (some sample_job) (some "a1") failed_status (some sample_job_spec)
      sample_job_derived

derive_job-CountsRestart_example :
    (new : JobStatus) × (some restarted ≡ some new) × CountsRestart sample_job failed_status new
derive_job-CountsRestart_example =
    derive_job-CountsRestart sample_job (some "a1") failed_status (some sample_job_spec)
      sample_job_derived

derive_job-stable_example :
    derive_job
      (some sample_job)
      (get_flink_job_id (some "a1") (some restarted))
      (some restarted)
      (some sample_job_spec)
    ≡ done (some restarted, no_flags)
derive_job-stable_example =
    derive_job-stable (some sample_job) (some "a1") (some failed_status) (some sample_job_spec)
      sample_job_followed

derive_state_iff_example :
    (derive_state ClusterState.running no_flags 2 (some sample_job_spec)
      ≡ done ClusterState.reconciling)
    ↔ Step no_flags 2 (some sample_job_spec) ClusterState.running ClusterState.reconciling
derive_state_iff_example =
    derive_state_iff ClusterState.running ClusterState.reconciling no_flags 2 (some sample_job_spec)

running_reconciling :
    derive_state ClusterState.running no_flags 2 none ≡ done ClusterState.reconciling
unfolding derive_state derive_running_state
running_reconciling = refl

reconciling_settled :
    derive_state ClusterState.reconciling no_flags 2 none ≡ done ClusterState.reconciling
unfolding derive_state derive_running_state
reconciling_settled = refl

Rounds-phase_example : phase ClusterState.running ≤ phase ClusterState.reconciling
Rounds-phase_example = Rounds-phase (round no_flags 2 none none_yet running_reconciling)

derive_state_settles_example :
    derive_state ClusterState.reconciling no_flags 2 none ≡ done ClusterState.reconciling
derive_state_settles_example =
    derive_state_settles ClusterState.running ClusterState.reconciling ClusterState.reconciling
      ClusterState.reconciling no_flags 2 none running_reconciling reconciling_settled
      reconciling_settled

sample_cluster-IsSound : IsSound sample_cluster
sample_cluster-IsSound = record { state = tt; job = tt; ingress = tt }

sample_observed-IsSane : IsSane sample_cluster sample_observed
sample_observed-IsSane = record { job = (tt, λ e. cc); ingress = tt }

update_status_if_changed-IsSound_example :
    Yields
      (λ update. IsSound (updated sample_cluster update))
      (update_status_if_changed "now" sample_observed)
update_status_if_changed-IsSound_example =
    update_status_if_changed-IsSound "now" sample_cluster sample_observed refl
      sample_cluster-IsSound sample_observed-IsSane

derive_components-stable_example :
    derive_components
      (derive_components (sample_status.components) sample_observed none)
      sample_observed
      none
    ≡ derive_components (sample_status.components) sample_observed none
derive_components-stable_example =
    derive_components-stable (sample_status.components) sample_observed none none

is_status_changed-false_iff_example :
    (is_status_changed sample_status sample_status ≡ done false)
    ↔ LooksSame sample_status sample_status
is_status_changed-false_iff_example = is_status_changed-false_iff sample_status sample_status

abbrev derived_status : FlinkClusterStatus
derived_status = record sample_status {
  components = record (sample_status.components) {
    job = some (record sample_job_status { from_savepoint = "gs://savepoints/1" });
  };
}

sample_status_derived : derive_cluster_status sample_cluster sample_observed ≡ done derived_status
unfolding derive_cluster_status derive_components derive_job derive_present_job get_from_savepoint
    from_savepoint_arg get_flink_job_id derive_state derive_running_state derive_config_map
    derive_deployment get_deployment_state derive_service derive_ingress
sample_status_derived = refl

derive_cluster_status-IsDerivation_example :
    IsDerivation sample_cluster sample_observed derived_status
derive_cluster_status-IsDerivation_example =
    derive_cluster_status-IsDerivation sample_cluster sample_observed derived_status
      sample_status_derived
