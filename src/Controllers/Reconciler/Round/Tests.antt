-- ===== src/Controllers/Reconciler/Round/Tests.antt =====
-- The steps of a round at a sample cluster.
use flink_on_k8s_operator.Base.{
  String, none, some, true, false, ◌≡◌, refl, inl, [], ◌∷◌, map, is_empty, format_int,
}
use flink_on_k8s_operator.Base.Run.{done, Yields}
use flink_on_k8s_operator.Controllers.State.{ObservedClusterState, DesiredClusterState}
use flink_on_k8s_operator.Controllers.Util.{get_flink_api_base_url, get_job_manager_service_name}
use flink_on_k8s_operator.Controllers.Effects.{Kind}
use flink_on_k8s_operator.Controllers.Calls.{perform}
use flink_on_k8s_operator.Controllers.Reconciler.Components.{reconcile_components}
use flink_on_k8s_operator.Controllers.Reconciler.Components.Laws.{
  deletion, needed_calls, reconcile_components-perform,
}
use flink_on_k8s_operator.Controllers.Reconciler.Savepoints.{
  get_flink_job_id as recorded_job_id, cancel_flink_job, cancel_running_jobs,
}
use flink_on_k8s_operator.Controllers.Reconciler.Savepoints.Cancellation.{
  stop_call, IsStopped, cancel_running_jobs-perform, cancel_flink_job-IsStopped,
}
use flink_on_k8s_operator.Controllers.Reconciler.Round.{
  Requeue, remove_job, reconcile_job, reconcile,
}
use flink_on_k8s_operator.Controllers.Reconciler.Round.Removal.{
  IsRemoved, remove_job-IsRemoved, reconcile-HidesFailure,
}
use flink_on_k8s_operator.Controllers.Reconciler.Round.Safety.{Allowed, reconcile_job-Allowed}
use flink_on_k8s_operator.Controllers.Calls.{Calls}
use flink_on_k8s_operator.Samples.{
  sample_job_status, sample_cluster, fresh_cluster, sample_job, sample_observed, sample_desired,
  sample_env, refusing_env,
}

abbrev sample_url : String
sample_url = "http://wordcount-jobmanager.flink.svc.cluster.local:8081"

sample_url_found : get_flink_api_base_url sample_cluster ≡ done sample_url
unfolding get_flink_api_base_url get_job_manager_service_name format_int
sample_url_found = refl

-- Before anything is created.
abbrev nothing_observed : ObservedClusterState
nothing_observed = record sample_observed {
  config_map = none;
  jm_deployment = none;
  jm_service = none;
  tm_deployment = none;
  job = none;
  flink_job_list = some [];
  flink_running_job_ids = [];
  flink_job_id = none;
}

reconcile_components-perform_example :
    reconcile_components nothing_observed sample_desired sample_env []
    ≡ perform (needed_calls nothing_observed sample_desired) sample_env []
reconcile_components-perform_example =
    reconcile_components-perform nothing_observed sample_desired sample_env []

cancel_running_jobs-perform_example :
    cancel_running_jobs sample_cluster false ("a1" ∷ "a2" ∷ []) sample_env []
    ≡ perform (map (stop_call sample_url) ("a1" ∷ "a2" ∷ [])) sample_env []
cancel_running_jobs-perform_example =
    cancel_running_jobs-perform sample_cluster sample_url sample_url_found ("a1" ∷ "a2" ∷ [])
      sample_env []

cancel_flink_job-IsStopped_example :
    Yields
      (IsStopped sample_cluster sample_url sample_url_found "a1" sample_env)
      (cancel_flink_job sample_cluster "a1" true sample_env [])
cancel_flink_job-IsStopped_example =
    cancel_flink_job-IsStopped sample_cluster sample_url sample_url_found sample_job_status refl
      "a1" true sample_env []

remove_job-IsRemoved_example :
    Yields
      (IsRemoved sample_cluster sample_url sample_url_found sample_job_status refl sample_observed
        sample_job sample_env [])
      (remove_job sample_cluster sample_observed sample_job sample_env [])
remove_job-IsRemoved_example =
    remove_job-IsRemoved sample_cluster sample_url sample_url_found sample_job_status refl
      sample_observed sample_job sample_env [] refl

abbrev job_left : ObservedClusterState
job_left = record sample_observed { cluster = some fresh_cluster }

abbrev no_job_desired : DesiredClusterState
no_job_desired = record sample_desired { job = none }

no_job_recorded : is_empty (recorded_job_id fresh_cluster) ≡ true
unfolding recorded_job_id
no_job_recorded = refl

reconcile-HidesFailure_example :
    reconcile job_left no_job_desired refusing_env []
    ≡ done ((Requeue.finished, none), deletion Kind.job (sample_job.meta) ∷ [])
reconcile-HidesFailure_example =
    reconcile-HidesFailure fresh_cluster job_left no_job_desired sample_job refusing_env [] refl
      refl refl refl no_job_recorded

reconcile_job-Allowed_example :
    Calls
      (Allowed sample_cluster nothing_observed (some sample_job) none)
      (reconcile_job sample_cluster nothing_observed (some sample_job) none)
      sample_env
      []
reconcile_job-Allowed_example =
    reconcile_job-Allowed sample_cluster nothing_observed (some sample_job) none sample_url
      sample_env [] sample_url_found (inl refl) tt
