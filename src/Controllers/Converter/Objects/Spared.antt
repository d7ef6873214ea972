-- ===== src/Controllers/Converter/Objects/Spared.antt =====
-- The deployments and the service of an admitted cluster, controllers/flinkcluster_converter.go.
use flink_on_k8s_operator.Base.{String, Option, refl, List, arith}
use flink_on_k8s_operator.Base.Int.{ℤ}
use flink_on_k8s_operator.Base.Run.{Yields, Yields->>=}
use flink_on_k8s_operator.K8s.{ServiceType}
use flink_on_k8s_operator.Api.{AccessScope, FlinkCluster}
use flink_on_k8s_operator.Webhook.Validate.Create.{IsKnownScope}
use flink_on_k8s_operator.Controllers.Converter.{Component, Attached}
use flink_on_k8s_operator.Controllers.Converter.Objects.{
  job_manager_deployment, task_manager_deployment, job_manager_service, job_manager_deployment_of,
  get_desired_job_manager_deployment, task_manager_deployment_of,
  get_desired_task_manager_deployment, service_type_of, job_manager_service_of,
  get_desired_job_manager_service,
}
use flink_on_k8s_operator.Controllers.Converter.Objects.Presence.{
  IsReady, IsSpared, deref-Yields, convert_gcp_config-Yields, spared, IsKnownType,
  IsOwnedJobManager, IsOwnedTaskManager, IsOwnedService, IsPortNumber,
}

module _ (cluster : FlinkCluster) (h : IsReady cluster) where
  owned_job_manager :
      (rpc blob query ui : ℤ) (gcp : Option Attached)
      → IsOwnedJobManager cluster (job_manager_deployment cluster rpc blob query ui gcp)
  owned_job_manager rpc blob query ui gcp = (refl, refl, refl)

  owned_task_manager :
      (data_port rpc query : ℤ) (gcp : Option Attached)
      → IsOwnedTaskManager cluster (task_manager_deployment cluster data_port rpc query gcp)
  owned_task_manager data_port rpc query gcp = (refl, refl, refl)

  job_manager_deployment_of-IsOwned :
      Yields (IsOwnedJobManager cluster) (job_manager_deployment_of cluster)
  unfolding job_manager_deployment_of
  job_manager_deployment_of-IsOwned =
      deref-Yields IsPortNumber (IsOwnedJobManager cluster) cluster.spec.job_manager.ports.rpc _
        h.job_manager.rpc
        λ rpc.
          deref-Yields IsPortNumber (IsOwnedJobManager cluster) cluster.spec.job_manager.ports.blob
            _ h.job_manager.blob
            λ blob.
              deref-Yields IsPortNumber (IsOwnedJobManager cluster)
                cluster.spec.job_manager.ports.query _ h.job_manager.query
                λ query.
                  deref-Yields IsPortNumber (IsOwnedJobManager cluster)
                    cluster.spec.job_manager.ports.ui _ h.job_manager.ui
                    λ ui.
                      convert_gcp_config-Yields (IsOwnedJobManager cluster) cluster _ h
                        λ gcp. owned_job_manager rpc blob query ui gcp

  task_manager_deployment_of-IsOwned :
      Yields (IsOwnedTaskManager cluster) (task_manager_deployment_of cluster)
  unfolding task_manager_deployment_of
  task_manager_deployment_of-IsOwned =
      deref-Yields IsPortNumber (IsOwnedTaskManager cluster)
        cluster.spec.task_manager.ports.data_port _ h.task_manager.data_port
        λ data_port.
          deref-Yields IsPortNumber (IsOwnedTaskManager cluster) cluster.spec.task_manager.ports.rpc
            _ h.task_manager.rpc
            λ rpc.
              deref-Yields IsPortNumber (IsOwnedTaskManager cluster)
                cluster.spec.task_manager.ports.query _ h.task_manager.query
                λ query.
                  convert_gcp_config-Yields (IsOwnedTaskManager cluster) cluster _ h
                    λ gcp. owned_task_manager data_port rpc query gcp

  scope_known :
      (s : AccessScope) → IsKnownScope s → Yields (λ (t, _). IsKnownType t) (service_type_of s)
  unfolding service_type_of
  scope_known AccessScope.unset k = ground arith
  scope_known (AccessScope.other _) k = ground arith
  scope_known _ k = tt

  owned_service :
      (rpc blob query ui : ℤ) (t : ServiceType) (annotations : List (String × String))
      → IsKnownType t
      → IsOwnedService cluster (job_manager_service cluster rpc blob query ui t annotations)
  owned_service rpc blob query ui t annotations k = ((refl, refl, refl), k)

  job_manager_service_of-IsOwned : Yields (IsOwnedService cluster) (job_manager_service_of cluster)
  unfolding job_manager_service_of
  job_manager_service_of-IsOwned =
      deref-Yields IsPortNumber (IsOwnedService cluster) cluster.spec.job_manager.ports.rpc _
        h.job_manager.rpc
        λ rpc.
          deref-Yields IsPortNumber (IsOwnedService cluster) cluster.spec.job_manager.ports.blob _
            h.job_manager.blob
            λ blob.
              deref-Yields IsPortNumber (IsOwnedService cluster)
                cluster.spec.job_manager.ports.query _ h.job_manager.query
                λ query.
                  deref-Yields IsPortNumber (IsOwnedService cluster)
                    cluster.spec.job_manager.ports.ui _ h.job_manager.ui
                    λ ui.
                      Yields->>= (λ (t, _). IsKnownType t) (IsOwnedService cluster)
                        (service_type_of cluster.spec.job_manager.access_scope) _
                        (scope_known cluster.spec.job_manager.access_scope
                          h.job_manager.access_scope)
                        λ (t, annotations) k. owned_service rpc blob query ui t annotations k

-- What the cleanup policy spares is desired, and nothing else.
pub record AreSpared (cluster : FlinkCluster) : Type 0 where
  pub jm_deployment :
      Yields
        (IsSpared cluster Component.job_manager_deployment (IsOwnedJobManager cluster))
        (get_desired_job_manager_deployment cluster)
  pub tm_deployment :
      Yields
        (IsSpared cluster Component.task_manager_deployment (IsOwnedTaskManager cluster))
        (get_desired_task_manager_deployment cluster)
  pub jm_service :
      Yields
        (IsSpared cluster Component.job_manager_service (IsOwnedService cluster))
        (get_desired_job_manager_service cluster)

-- For a cluster that passed validation, whose GCP configuration has a service account and whose recorded
-- job has a cleanup policy behind it: the two deployments and the JobManager service are converted without
-- a panic, each is desired exactly when the cleanup policy spares it, and then stands in the namespace of
-- the cluster under the name that the observer asks for, and is owned by the cluster, so that Kubernetes
-- deletes it along with the cluster; the service has a type whose readiness the updater can tell.
pub IsReady-AreSpared : (cluster : FlinkCluster) → IsReady cluster → AreSpared cluster
unfolding get_desired_job_manager_deployment get_desired_task_manager_deployment
    get_desired_job_manager_service
IsReady-AreSpared cluster h = record {
  jm_deployment = spared cluster _ _ _ h (job_manager_deployment_of-IsOwned cluster h);
  tm_deployment = spared cluster _ _ _ h (task_manager_deployment_of-IsOwned cluster h);
  jm_service = spared cluster _ _ _ h (job_manager_service_of-IsOwned cluster h);
}
