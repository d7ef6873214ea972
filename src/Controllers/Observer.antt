-- ===== src/Controllers/Observer.antt =====
-- The observer, controllers/flinkcluster_observer.go.
pub mod Jobs
pub mod Listed
pub mod Safety
pub mod Stored
use flink_on_k8s_operator.Base.{
  String, Option, none, some, Bool, true, false, List, [], ◌∷◌, ◌==◌, if◌then◌else◌,
}
use flink_on_k8s_operator.Base.Run.{Run, done}
use flink_on_k8s_operator.K8s.{ConfigMap, Deployment, Service, Ingress, Job}
use flink_on_k8s_operator.Api.{ClusterState, JobSpec, FlinkCluster}
use flink_on_k8s_operator.Controllers.State.{FlinkJob, ObservedClusterState}
use flink_on_k8s_operator.Controllers.Util.{
  get_flink_api_base_url, get_config_map_name, get_job_manager_deployment_name,
  get_job_manager_service_name, get_job_manager_ingress_name, get_task_manager_deployment_name,
  get_job_name,
}
use flink_on_k8s_operator.Controllers.FlinkClient.{get_job_status_list}
use flink_on_k8s_operator.Controllers.Effects.{
  Error, not_found, Result, ok, err, Kind, Call, Env, M, pure, ◌>>=◌, lift, call,
}

-- An object that is not there is observed as nil; any other error ends the observation.
abbrev pub found : {A : Type 0} → Result A → Result (Option A)
found (ok a) = ok (some a)
found (err not_found) = ok none
found (err e) = err e

unfoldable pub if_found : {A B : Type 0} → Result A → (Option A → M (Result B)) → M (Result B)
if_found r next = elim (found r) [ ok o ↦ next o | err e ↦ pure (err e) ]

-- What the Flink REST API shows: the job list, the running jobs, the job that is followed.
pub record FlinkJobs : Type 0 where
  pub job_list : Option (List FlinkJob)
  pub running_job_ids : List String
  pub job_id : Option String

abbrev pub no_flink_jobs : FlinkJobs
no_flink_jobs = record { job_list = none; running_job_ids = []; job_id = none }

unfoldable pub running_job_ids : List FlinkJob → List String
running_job_ids [] = []
running_job_ids (job ∷ jobs) =
    let rest = running_job_ids jobs in if job.status == "RUNNING" then job.id ∷ rest else rest

-- The one running job, else the one job there is.
unfoldable pub extract_flink_job_id : List FlinkJob → List String → Option String
extract_flink_job_id jobs (a ∷ b ∷ more) = none
extract_flink_job_id jobs (id ∷ []) = some id
extract_flink_job_id (a ∷ b ∷ more) [] = none
extract_flink_job_id (job ∷ []) [] = some job.id
extract_flink_job_id [] [] = none

abbrev pub seen_jobs : Result (List FlinkJob) → FlinkJobs
seen_jobs (err e) = no_flink_jobs
seen_jobs (ok jobs) = record {
  job_list = some jobs;
  running_job_ids = running_job_ids jobs;
  job_id = extract_flink_job_id jobs (running_job_ids jobs);
}

abbrev pub is_running : ClusterState → Bool
is_running ClusterState.running = true
is_running _ = false

unfoldable pub observe_flink_jobs : FlinkCluster → M FlinkJobs
unfolding running_job_ids extract_flink_job_id get_job_status_list
observe_flink_jobs cluster =
    if is_running cluster.status.state
    then (do
      url ← lift (get_flink_api_base_url cluster)
      reply ← get_job_status_list url
      pure (seen_jobs reply))
    else pure no_flink_jobs

-- The names in the request.
pub record Request : Type 0 where
  pub namespace : String
  pub name : String

module _ (request : Request) where
  unfoldable pub observe_cluster : M (Result FlinkCluster)
  observe_cluster =
      call (Call.get Kind.cluster request.namespace request.name)
        (λ env log. env.get_cluster log request.namespace request.name)

  unfoldable pub observe_config_map : M (Result ConfigMap)
  observe_config_map =
      call (Call.get Kind.config_map request.namespace (get_config_map_name request.name))
        (λ env log. env.get_config_map log request.namespace (get_config_map_name request.name))

  -- `observeDeployment`
  unfoldable pub observe_deployment : String → M (Result Deployment)
  observe_deployment name =
      call (Call.get Kind.deployment request.namespace name)
        (λ env log. env.get_deployment log request.namespace name)

  unfoldable pub observe_job_manager_deployment : M (Result Deployment)
  unfolding observe_deployment
  observe_job_manager_deployment = observe_deployment (get_job_manager_deployment_name request.name)

  unfoldable pub observe_task_manager_deployment : M (Result Deployment)
  unfolding observe_deployment
  observe_task_manager_deployment =
      observe_deployment (get_task_manager_deployment_name request.name)

  unfoldable pub observe_job_manager_service : M (Result Service)
  observe_job_manager_service =
      call (Call.get Kind.service request.namespace (get_job_manager_service_name request.name))
        (λ env log.
          env.get_service log request.namespace (get_job_manager_service_name request.name))

  unfoldable pub observe_job_manager_ingress : M (Result Ingress)
  observe_job_manager_ingress =
      call (Call.get Kind.ingress request.namespace (get_job_manager_ingress_name request.name))
        (λ env log.
          env.get_ingress log request.namespace (get_job_manager_ingress_name request.name))

  unfoldable pub observe_job_resource : M (Result Job)
  observe_job_resource =
      call (Call.get Kind.job request.namespace (get_job_name request.name))
        (λ env log. env.get_job log request.namespace (get_job_name request.name))

  -- Of a cluster that is there and has a job.
  observe_job_of :
      Option FlinkCluster → Option JobSpec → ObservedClusterState → M (Result ObservedClusterState)
  unfolding observe_job_resource
  observe_job_of (some cluster) (some spec) observed = do
    jobs ← observe_flink_jobs cluster
    resource ← observe_job_resource
    if_found resource λ job. pure (
        ok (record observed {
          flink_job_list = jobs.job_list;
          flink_running_job_ids = jobs.running_job_ids;
          flink_job_id = jobs.job_id;
          job = job;
        }))
  observe_job_of _ _ observed = pure (ok observed)

  abbrev job_spec : Option FlinkCluster → Option JobSpec
  job_spec none = none
  job_spec (some cluster) = cluster.spec.job

  unfoldable pub observe_job : ObservedClusterState → M (Result ObservedClusterState)
  unfolding observe_job_of
  observe_job observed = observe_job_of observed.cluster (job_spec observed.cluster) observed

  -- Each object that is found is stored in the observed state, which is empty at first.
  unfoldable pub observe : M (Result ObservedClusterState)
  unfolding observe_cluster observe_config_map observe_job_manager_deployment
      observe_job_manager_service observe_job_manager_ingress observe_task_manager_deployment
  observe = do
    cluster ← observe_cluster
    if_found cluster λ cluster. do
      config_map ← observe_config_map
      if_found config_map λ config_map. do
        jm_deployment ← observe_job_manager_deployment
        if_found jm_deployment λ jm_deployment. do
          jm_service ← observe_job_manager_service
          if_found jm_service λ jm_service. do
            jm_ingress ← observe_job_manager_ingress
            if_found jm_ingress λ jm_ingress. do
              tm_deployment ← observe_task_manager_deployment
              if_found tm_deployment λ tm_deployment. observe_job (record {
                cluster = cluster;
                config_map = config_map;
                jm_deployment = jm_deployment;
                jm_service = jm_service;
                jm_ingress = jm_ingress;
                tm_deployment = tm_deployment;
                job = none;
                flink_job_list = none;
                flink_running_job_ids = [];
                flink_job_id = none;
              })
