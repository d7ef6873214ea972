-- ===== src/Controllers/Converter/Desired/Total.antt =====
-- The whole conversion of an admitted cluster.
use flink_on_k8s_operator.Base.{
  String, Option, none, some, Bool, true, false, ◌≡◌, refl, List, [], Option-cases, inl, inr,
  if◌then◌else◌, is_set, Bool-cases,
}
use flink_on_k8s_operator.Base.Int.{ℤ, pos, ltb_ℤ}
use flink_on_k8s_operator.Base.Run.{done, ◌>>=◌, Yields, Yields->>=}
use flink_on_k8s_operator.K8s.{Quantity}
use flink_on_k8s_operator.Api.{JobManagerIngressSpec, JobSpec, FlinkCluster}
use flink_on_k8s_operator.Webhook.Validate.Create.{Given, IfGiven}
use flink_on_k8s_operator.Controllers.Converter.{Component}
use flink_on_k8s_operator.Controllers.Converter.HeapSize.{
  Float64, add_heap_size, cal_flink_heap_size,
}
use flink_on_k8s_operator.Controllers.Converter.ConfigMap.{config_map_of, get_desired_config_map}
use flink_on_k8s_operator.Controllers.Converter.Ingress.{
  job_manager_ingress, desired_ingress_of, get_desired_job_manager_ingress,
}
use flink_on_k8s_operator.Controllers.Converter.Job.{desired_job_of, get_desired_job}
use flink_on_k8s_operator.Controllers.Converter.Objects.Spared.{IsReady-AreSpared}
use flink_on_k8s_operator.Controllers.Converter.Objects.Presence.{
  IsReady, IsSpared, IsOwnedJobManager, IsOwnedTaskManager, IsOwnedService, IsPortNumber,
  deref-Yields, convert_gcp_config-Yields, spared,
}
use flink_on_k8s_operator.Controllers.Converter.Desired.{
  desired_state_of, get_desired_cluster_state,
}
use flink_on_k8s_operator.Controllers.Converter.Desired.Promise.{
  IsOwnedConfigMap, IsOwnedIngress, IsOwnedJob, IsDesiredIngress, IsDesiredJob, IsDesiredOf,
  AreDesired,
}

add_heap_size-Yields :
    (f : Float64) (key : String) (limit off_heap_min : Quantity) (ratio : Option ℤ)
    (sizes : List (String × String))
    → Given (λ _. Unit) ratio
    → Yields (λ _. Unit) (add_heap_size f key limit off_heap_min ratio sizes)
unfolding add_heap_size
add_heap_size-Yields f key limit off_heap_min none sizes h = absurd h
add_heap_size-Yields f key limit off_heap_min (some r) sizes h =
    elim (Bool-cases (ltb_ℤ (pos 0) limit.value)) [ inl e ↦ rw e tt | inr e ↦ rw e tt ]

pub Given-any : {A : Type 0} (P : A → Type 0) (o : Option A) → Given P o → Given (λ _. Unit) o
Given-any P none h = absurd h
Given-any P (some a) h = tt

module _ (f : Float64) (cluster : FlinkCluster) (h : IsReady cluster) where
  cal_flink_heap_size-Yields : Yields (λ _. Unit) (cal_flink_heap_size f cluster)
  unfolding cal_flink_heap_size
  cal_flink_heap_size-Yields =
      let jm = cluster.spec.job_manager in
      let tm = cluster.spec.task_manager in
      elim (Option-cases jm.memory_off_heap_ratio) [
        | inl e ↦ rw (e, cal_flink_heap_size) tt
        | inr (r, e) ↦
            rw (e, cal_flink_heap_size)
              (Yields->>= (λ _. Unit) (λ _. Unit)
                (add_heap_size f "jobmanager.heap.size" jm.resources.limits_memory
                  jm.memory_off_heap_min (some r) [])
                _
                (add_heap_size-Yields f "jobmanager.heap.size" jm.resources.limits_memory
                  jm.memory_off_heap_min (some r) [] tt)
                λ sizes _.
                  add_heap_size-Yields f "taskmanager.heap.size" tm.resources.limits_memory
                    tm.memory_off_heap_min tm.memory_off_heap_ratio sizes
                    (Given-any _ tm.memory_off_heap_ratio h.task_manager.ratio))
      ]

  config_map_of-IsOwned : Yields (IsOwnedConfigMap cluster) (config_map_of f cluster)
  unfolding config_map_of
  config_map_of-IsOwned =
      Yields->>= (λ _. Unit) (IsOwnedConfigMap cluster) (cal_flink_heap_size f cluster) _
        cal_flink_heap_size-Yields
        λ sizes _.
          deref-Yields IsPortNumber (IsOwnedConfigMap cluster) cluster.spec.job_manager.ports.rpc _
            h.job_manager.rpc
            λ rpc.
              deref-Yields IsPortNumber (IsOwnedConfigMap cluster)
                cluster.spec.job_manager.ports.blob _ h.job_manager.blob
                λ blob.
                  deref-Yields IsPortNumber (IsOwnedConfigMap cluster)
                    cluster.spec.job_manager.ports.query _ h.job_manager.query
                    λ query.
                      deref-Yields IsPortNumber (IsOwnedConfigMap cluster)
                        cluster.spec.job_manager.ports.ui _ h.job_manager.ui
                        λ ui.
                          deref-Yields IsPortNumber (IsOwnedConfigMap cluster)
                            cluster.spec.task_manager.ports.rpc _ h.task_manager.rpc
                            λ tm_rpc. (refl, refl, refl)

  get_desired_config_map-IsSpared :
      Yields
        (IsSpared cluster Component.config_map (IsOwnedConfigMap cluster))
        (get_desired_config_map f cluster)
  unfolding get_desired_config_map
  get_desired_config_map-IsSpared = spared cluster _ _ _ h config_map_of-IsOwned

  desired_ingress_of-IsDesired :
      (spec : Option JobManagerIngressSpec)
      → Yields (IsDesiredIngress cluster spec) (desired_ingress_of cluster spec)
  unfolding desired_ingress_of job_manager_ingress
  desired_ingress_of-IsDesired none = refl
  desired_ingress_of-IsDesired (some spec) =
      spared cluster Component.job_manager_ingress (IsOwnedIngress cluster)
        (done (job_manager_ingress cluster spec)) h (refl, refl, refl)

  get_desired_job_manager_ingress-IsDesired :
      Yields
        (IsDesiredIngress cluster cluster.spec.job_manager.ingress)
        (get_desired_job_manager_ingress cluster)
  unfolding get_desired_job_manager_ingress
  get_desired_job_manager_ingress-IsDesired =
      desired_ingress_of-IsDesired cluster.spec.job_manager.ingress

  desired_job_of-IsOwned :
      (job : JobSpec) → Yields (IsOwnedJob cluster) (desired_job_of cluster job)
  unfolding desired_job_of
  desired_job_of-IsOwned job =
      deref-Yields IsPortNumber (IsOwnedJob cluster) cluster.spec.job_manager.ports.ui _
        h.job_manager.ui
        λ ui. convert_gcp_config-Yields (IsOwnedJob cluster) cluster _ h λ gcp. (refl, refl, refl)

  get_desired_job-IsDesiredJob :
      Yields (IsDesiredJob cluster cluster.spec.job) (get_desired_job cluster)
  unfolding get_desired_job
  get_desired_job-IsDesiredJob = from cluster.spec.job
    where
      by_request :
          (job : JobSpec) (b : Bool)
          → is_set job.cancel_requested ≡ b
          → Yields (IsDesiredJob cluster (some job)) (
              if b
              then done none
              else (desired_job_of cluster job >>= λ desired. done (some desired)))
      by_request job true e = e
      by_request job false e =
          Yields->>= (IsOwnedJob cluster) (IsDesiredJob cluster (some job))
            (desired_job_of cluster job) (λ desired. done (some desired))
            (desired_job_of-IsOwned job) λ desired owned. (e, owned)

      from :
          (spec : Option JobSpec)
          → Yields (IsDesiredJob cluster spec) (elim spec [
            | none ↦ done none
            | some job ↦
                if is_set job.cancel_requested
                then done none
                else (desired_job_of cluster job >>= λ desired. done (some desired))
          ])
      from none = tt
      from (some job) = by_request job (is_set job.cancel_requested) refl

  desired_state_of-IsDesiredOf : Yields (IsDesiredOf cluster) (desired_state_of f cluster)
  unfolding desired_state_of
  desired_state_of-IsDesiredOf =
      let s = IsReady-AreSpared cluster h in
      Yields->>= (IsSpared cluster Component.config_map (IsOwnedConfigMap cluster))
        (IsDesiredOf cluster) _ _ get_desired_config_map-IsSpared
        λ config_map a.
          Yields->>= (IsSpared cluster Component.job_manager_deployment (IsOwnedJobManager cluster))
            (IsDesiredOf cluster) _ _ s.jm_deployment
            λ jm_deployment b.
              Yields->>= (IsSpared cluster Component.job_manager_service (IsOwnedService cluster))
                (IsDesiredOf cluster) _ _ s.jm_service
                λ jm_service c.
                  Yields->>= (IsDesiredIngress cluster cluster.spec.job_manager.ingress)
                    (IsDesiredOf cluster) _ _ get_desired_job_manager_ingress-IsDesired
                    λ jm_ingress d.
                      Yields->>=
                        (IsSpared cluster Component.task_manager_deployment
                          (IsOwnedTaskManager cluster))
                        (IsDesiredOf cluster) _ _ s.tm_deployment
                        λ tm_deployment e.
                          Yields->>= (IsDesiredJob cluster cluster.spec.job) (IsDesiredOf cluster) _
                            _ get_desired_job-IsDesiredJob
                            λ job g. record {
                              config_map = a;
                              jm_deployment = b;
                              jm_service = c;
                              jm_ingress = d;
                              tm_deployment = e;
                              job = g;
                            }

-- The conversion of a cluster that passed validation, whose GCP configuration has a service account and
-- whose recorded job has a cleanup policy behind it, ends without a panic. The config map, the
-- deployments, the service and the ingress are desired exactly when the cleanup policy spares them, the
-- ingress only if the spec asks for it, the job exactly when the spec has one that is not cancelled. Each
-- stands in the namespace of the cluster under the name that the observer asks for, owned by the
-- cluster. A deleted cluster wants nothing.
pub get_desired_cluster_state-AreDesired :
    (f : Float64) (cluster : Option FlinkCluster)
    → IfGiven IsReady cluster
    → Yields (AreDesired cluster) (get_desired_cluster_state f cluster)
unfolding get_desired_cluster_state
get_desired_cluster_state-AreDesired f none h = refl
get_desired_cluster_state-AreDesired f (some cluster) h = desired_state_of-IsDesiredOf f cluster h
