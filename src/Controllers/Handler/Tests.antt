-- ===== src/Controllers/Handler/Tests.antt =====
-- A whole round at a sample cluster.
use flink_on_k8s_operator.Base.{◌⊎◌, none, ◌≡◌, refl, [], inl, arith}
use flink_on_k8s_operator.Base.Run.{Yields}
use flink_on_k8s_operator.Controllers.State.{ObservedClusterState}
use flink_on_k8s_operator.Controllers.Util.{
  get_config_map_name, get_job_manager_deployment_name, get_job_manager_service_name,
  get_task_manager_deployment_name,
}
use flink_on_k8s_operator.Controllers.Effects.{Call}
use flink_on_k8s_operator.Controllers.Calls.{answer}
use flink_on_k8s_operator.Controllers.Reconciler.Components.World.{is_asked}
use flink_on_k8s_operator.Controllers.Handler.Settling.{
  sync_components, AreAsked, Settles, sync_components-Settles,
}
use flink_on_k8s_operator.Controllers.Observer.{Request}
use flink_on_k8s_operator.Controllers.Updater.Safety.{IsSound}
use flink_on_k8s_operator.Controllers.Reconciler.Round.{Requeue}
use flink_on_k8s_operator.Controllers.Handler.{reconcile_request}
use flink_on_k8s_operator.Controllers.Handler.Updates.{IsKept, Keeps}
use flink_on_k8s_operator.Controllers.Handler.Safety.{
  IsForeign, IsWatched, IsRound, reconcile_request-IsRound,
}
use flink_on_k8s_operator.Samples.{sample_cluster, sample_observed, sample_env, exact_float}
use flink_on_k8s_operator.Samples.Ready.{sample_cluster-IsReady}

abbrev sample_request : Request
sample_request = record { namespace = "flink"; name = "wordcount" }

sample_cluster-IsSound : IsSound sample_cluster
sample_cluster-IsSound = record { state = tt; job = tt; ingress = tt }

sample_cluster-IsKept : IsKept sample_env sample_cluster
sample_cluster-IsKept = record {
  sound = sample_cluster-IsSound;
  ready = sample_cluster-IsReady;
  policy = tt;
  timed = inl refl;
}

sample_env-Keeps : Keeps sample_env
sample_env-Keeps = record {
  clusters = λ log namespace name. sample_cluster-IsKept;
  jobs = λ log namespace name. ground arith;
  ingresses = λ log namespace name. tt;
}

reconcile_request-IsRound_example :
    Yields
      (λ end.
        (IsForeign "flink" sample_request × (end ≡ ((Requeue.finished, none), [])))
        ⊎ (IsWatched "flink" sample_request × IsRound sample_env [] end))
      (reconcile_request exact_float "flink" sample_request sample_env [])
reconcile_request-IsRound_example =
    reconcile_request-IsRound exact_float "flink" sample_request sample_env [] sample_env-Keeps

-- The config map and the JobManager are missing.
abbrev half_observed : ObservedClusterState
half_observed = record sample_observed { config_map = none; jm_deployment = none }

half_observed-AreAsked : AreAsked sample_request half_observed
unfolding is_asked get_config_map_name get_job_manager_deployment_name get_job_manager_service_name
    get_task_manager_deployment_name
half_observed-AreAsked = record {
  config_map = tt;
  jm_deployment = tt;
  jm_service = refl;
  jm_ingress = tt;
  tm_deployment = refl;
}

sample_env-accepts : (c : Call) → answer sample_env [] c ≡ none
sample_env-accepts (Call.stop_job url) = refl
sample_env-accepts (Call.delete kind namespace name) = refl
sample_env-accepts c = refl

sync_components-Settles_example :
    Yields
      (Settles exact_float sample_request sample_cluster sample_env half_observed [])
      (sync_components exact_float sample_cluster half_observed sample_env [])
sync_components-Settles_example =
    sync_components-Settles exact_float sample_request sample_cluster half_observed sample_env []
      sample_cluster-IsReady refl refl half_observed-AreAsked (λ log c. sample_env-accepts c)
